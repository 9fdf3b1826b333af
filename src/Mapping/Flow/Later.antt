-- ===== src/Mapping/Flow/Later.antt =====
-- What `target_for` of tools/maja-mergecap/src/map/flow.rs answers, it answers again, unless the entry
-- draws per packet.
use maja.Base.{
  ℕ, ◌≡◌, ◌≢◌, ◌∙◌, sym, refl, ap, inl, inr, true, false, Option, none, some, [], get_elem?,
  get_elem?-lt, length-set, get_elem?-set_self, Option-cases, ◌==◌,
}
use mathlib.Core.Path.{subst}
use maja.Mapping.{IpAddr, Random, Nets}
use maja.Mapping.Pool.{Pool}
use maja.Mapping.Alloc.{
  Table, lookup, AllocSlot, Allocation, slot_of, MapPolicy, sticky, unique, random, hash,
}
use maja.Mapping.Alloc.Grow.{
  Grows, Grows-refl, Grows-trans, Full, Held, sticky_target-Held, unique_target-Held,
  sticky_target-known, unique_target-known, IfReturned, panicked, returned, of_returned,
}
use maja.Mapping.Session.{AllocId}
use maja.Mapping.Flow.{FlowState, draw_stateful, draw_slot, put_slot}

-- The table that serves a group.
pub table_of : {Net Rng : Type 0} → FlowState Net Rng → ℕ → Table
table_of state group = elim state.allocation [
  | none ↦ []
  | some allocation ↦ elim (get_elem? allocation.slots (slot_of allocation group)) [
    | none ↦ []
    | some slot ↦ slot.table
  ]
]

module _ (n : Nets) (r : Random) where
  -- A later state of the same map, for a group.
  pub record Later (group : ℕ) (before after : FlowState n.Net r.Rng) : Type 0 where
    pub cfg : after.cfg ≡ before.cfg
    pub seed : after.hash_seed ≡ before.hash_seed
    pub grows : Grows (table_of before group) (table_of after group)

  pub Later-refl : (group : ℕ) (state : FlowState n.Net r.Rng) → Later group state state
  Later-refl group state = record {
    cfg = refl;
    seed = refl;
    grows = Grows-refl (table_of state group);
  }

  pub Later-trans :
      (group : ℕ) {a b c : FlowState n.Net r.Rng}
      → Later group a b
      → Later group b c
      → Later group a c
  Later-trans group {a} {b} {c} x y = record {
    cfg = y.cfg ∙ x.cfg;
    seed = y.seed ∙ x.seed;
    grows = Grows-trans (table_of a group) (table_of b group) (table_of c group) x.grows y.grows;
  }

  -- The slot of a group is replaced by a later one.
  table_of-put_slot :
      (state : FlowState n.Net r.Rng) (allocation : Allocation r.Rng) (group : ℕ)
      (slot : AllocSlot r.Rng) (drawn : Option IpAddr × AllocSlot r.Rng)
      → state.allocation ≡ some allocation
      → get_elem? allocation.slots (slot_of allocation group) ≡ some slot
      → (table_of (put_slot n r state allocation group drawn).1 group ≡ drawn.1.table)
        × (table_of state group ≡ slot.table)
  unfolding table_of put_slot
  table_of-put_slot state allocation group slot drawn here at =
      let at_place = slot_of allocation group in
      (
        rw
            (
              table_of,
              length-set allocation.slots at_place drawn.1,
              get_elem?-set_self allocation.slots at_place drawn.1
                  (get_elem?-lt allocation.slots at_place at),
            )
            refl,
        rw (here, at, table_of) refl,
      )

  -- A call answers again what it has answered, in every later state.
  unfoldable pub Again :
      ℕ
      → (FlowState n.Net r.Rng → Option (Option IpAddr × FlowState n.Net r.Rng))
      → Option IpAddr
      → FlowState n.Net r.Rng
      → Type 0
  Again group call target answered =
      (state : FlowState n.Net r.Rng)
      → Later group answered state
      → (next : FlowState n.Net r.Rng) × (call state ≡ some (target, next)) × Later group state next

  unfoldable pub Settles :
      ℕ
      → (FlowState n.Net r.Rng → Option (Option IpAddr × FlowState n.Net r.Rng))
      → FlowState n.Net r.Rng
      → Option IpAddr × FlowState n.Net r.Rng
      → Type 0
  Settles group call before (target, after) =
      Later group before after × Again group call target after

  put_slot-Later :
      (state : FlowState n.Net r.Rng) (allocation : Allocation r.Rng) (group : ℕ)
      (slot : AllocSlot r.Rng) (drawn : Option IpAddr × AllocSlot r.Rng)
      → state.allocation ≡ some allocation
      → get_elem? allocation.slots (slot_of allocation group) ≡ some slot
      → Grows slot.table drawn.1.table
      → Later group state (put_slot n r state allocation group drawn).1
  unfolding put_slot
  put_slot-Later state allocation group slot drawn here is grows =
      let (after, before) = table_of-put_slot state allocation group slot drawn here is in
      record { cfg = refl; seed = refl; grows = rw (after, before) grows }

  draw_slot-known :
      (slot : AllocSlot r.Rng) (id : AllocId) (addrs : Pool n.Net) (policy : MapPolicy)
      {addr : IpAddr}
      → lookup id slot.table ≡ some addr
      → draw_slot n r slot id addrs policy ≡ some (some addr, slot)
  unfolding draw_slot
  draw_slot-known slot id addrs sticky known = ap some (sticky_target-known n r slot id addrs known)
  draw_slot-known slot id addrs random known = unique_target-known n r slot id addrs known
  draw_slot-known slot id addrs unique known = unique_target-known n r slot id addrs known
  draw_slot-known slot id addrs hash known = unique_target-known n r slot id addrs known

  draw_slot-Held :
      (slot : AllocSlot r.Rng) (id : AllocId) (addrs : Pool n.Net) (policy : MapPolicy)
      → (addrs.total == 0) ≡ false
      → Full n addrs
      → IfReturned (Held n r slot id) (draw_slot n r slot id addrs policy)
  unfolding draw_slot
  draw_slot-Held slot id addrs sticky some_left full =
      returned (sticky_target-Held n r slot id addrs some_left full)
  draw_slot-Held slot id addrs random some_left full =
      unique_target-Held n r slot id addrs some_left full
  draw_slot-Held slot id addrs unique some_left full =
      unique_target-Held n r slot id addrs some_left full
  draw_slot-Held slot id addrs hash some_left full =
      unique_target-Held n r slot id addrs some_left full

  no_table :
      (state : FlowState n.Net r.Rng) (group : ℕ) (id : AllocId) (addr : IpAddr)
      → table_of state group ≡ []
      → lookup id (table_of state group) ≢ some addr
  no_table state group id addr empty known =
      let nothing : none ≡ some addr = subst (λ t. lookup id t ≡ some addr) empty known in cc

  draw_stateful-known :
      (state : FlowState n.Net r.Rng) (group : ℕ) (id : AllocId) (addrs : Pool n.Net)
      (policy : MapPolicy) (addr : IpAddr)
      → lookup id (table_of state group) ≡ some addr
      → (next : FlowState n.Net r.Rng) × (draw_stateful n r state group id addrs policy
          ≡ some (some addr, next))
        × Later group state next
  unfolding draw_stateful table_of
  draw_stateful-known state group id addrs policy addr known =
      elim (Option-cases state.allocation) [
        | inl absent ↦ absurd (no_table state group id addr (rw (absent, table_of) refl) known)
        | inr (allocation, here) ↦
            elim (Option-cases (get_elem? allocation.slots (slot_of allocation group))) [
              | inl absent ↦
                  absurd (no_table state group id addr (rw (here, absent, table_of) refl) known)
              | inr (slot, is) ↦
                  let drawn : Option IpAddr × AllocSlot r.Rng = (some addr, slot) in
                  let before = (table_of-put_slot state allocation group slot drawn here is).1 in
                  let kept : lookup id slot.table ≡ some addr =
                    subst (λ t. lookup id t ≡ some addr) before known in
                  (
                    (put_slot n r state allocation group drawn).1,
                    rw (here, is, draw_slot-known slot id addrs policy kept, draw_stateful) refl,
                    put_slot-Later state allocation group slot drawn here is
                        (Grows-refl slot.table),
                  )
            ]
      ]

  pub draw_stateful-Settles :
      (state : FlowState n.Net r.Rng) (group : ℕ) (id : AllocId) (addrs : Pool n.Net)
      (policy : MapPolicy)
      → (addrs.total == 0) ≡ false
      → Full n addrs
      → IfReturned
          (Settles group (λ s. draw_stateful n r s group id addrs policy) state)
          (draw_stateful n r state group id addrs policy)
  unfolding draw_stateful Settles Again Held Grows
  draw_stateful-Settles state group id addrs policy some_left full =
      elim (Option-cases state.allocation) [
        | inl absent ↦ rw (absent, draw_stateful) panicked
        | inr (allocation, here) ↦
            elim (Option-cases (get_elem? allocation.slots (slot_of allocation group))) [
              | inl absent ↦ rw (here, absent, draw_stateful) panicked
              | inr (slot, is) ↦ elim (Option-cases (draw_slot n r slot id addrs policy)) [
                | inl none_drawn ↦ rw (here, is, none_drawn, draw_stateful) panicked
                | inr (drawn, drawn_is) ↦
                    let (addr, target, known, grows) = of_returned (
                      subst (IfReturned (Held n r slot id)) drawn_is
                        (draw_slot-Held slot id addrs policy some_left full)) in
                    let after = (table_of-put_slot state allocation group slot drawn here is).0 in
                    let result : draw_stateful n r state group id addrs policy
                        ≡ some (put_slot n r state allocation group drawn) =
                      rw (here, is, drawn_is, draw_stateful) refl in
                    rw result (
                      returned (
                        put_slot-Later state allocation group slot drawn here is grows,
                        λ later growth.
                            let (next, answer, further) =
                              draw_stateful-known later group id addrs policy addr (
                                growth.grows id addr
                                  (subst (λ t. lookup id t ≡ some addr) (sym after) known)) in
                            (next, answer ∙ ap (λ t. some (t, next)) (sym target), further),
                      ))
              ]
            ]
      ]

  -- The flag of an unmatched address is not part of what a map answers.
  pub warned-Later :
      (group : ℕ) (state : FlowState n.Net r.Rng)
      → Later group state (record state { warned_unmatched = true })
  unfolding table_of
  warned-Later group state = record {
    cfg = refl;
    seed = refl;
    grows = Grows-refl (table_of state group);
  }
