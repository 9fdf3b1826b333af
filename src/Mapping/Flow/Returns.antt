-- ===== src/Mapping/Flow/Returns.antt =====
-- `target_for` of tools/maja-mergecap/src/map/flow.rs does not panic.
use maja.Base.{
  ℕ, suc, ◌+◌, ◌%◌, ◌^◌, ◌≤◌, ◌<◌, ◌≡◌, ◌∙◌, refl, inl, inr, Bool, true, false, ◌||◌, Option, none,
  some, List, [], ◌∷◌, length, get_elem?, get_elem?-lt, set, length-set, get_elem?-set_self,
  Bool-cases, Option-cases, ◌==◌, arith,
}
use maja.Mapping.{IpAddr, Random, Nets}
use maja.Mapping.Pool.{Pool}
use maja.Mapping.Alloc.{AllocSlot, Allocation, slot_of, MapPolicy, sticky, unique, random, hash}
use maja.Mapping.Entry.{Action, fixed, mask, pool, CompiledEntry, classify, in_scope}
use maja.Mapping.Session.{AllocId, identity, SessionId, FragKey, PacketInfo, Targets, session}
use maja.Mapping.Flow.{
  FlowState, needs_table, keeps, draws, excluded, draw_stateful, put_slot, draw, act, target_for,
  targets_for, needs_alias, draws_per_packet,
}
use maja.Mapping.Flow.Drawn.{Drawn, draw_slot-Drawn}

module _ (n : Nets) (r : Random) where
  -- The table that serves a group, where the entries need one.
  pub record HasTable (state : FlowState n.Net r.Rng) (group walks : ℕ) : Type 0 where
    pub allocation : Allocation r.Rng
    pub here : state.allocation ≡ some allocation
    pub slot : AllocSlot r.Rng
    pub at : get_elem? allocation.slots (slot_of allocation group) ≡ some slot
    pub walks_of : length slot.sequences ≡ walks

  pub record Prepared (group : ℕ) (state : FlowState n.Net r.Rng) : Type 0 where
    pub table :
        needs_table n state.cfg.entries ≡ true → HasTable state group (length state.cfg.entries)
    pub narrow : length state.cfg.entries ≤ 2 ^ 32

  unfoldable pub Returns : ℕ → Option (Option IpAddr × FlowState n.Net r.Rng) → Type 0
  Returns group result =
      (target : Option IpAddr) × (after : FlowState n.Net r.Rng) × (result ≡ some (target, after))
      × Prepared group after

  draw_stateful-Returns :
      (state : FlowState n.Net r.Rng) (group : ℕ) (id : AllocId) (addrs : Pool n.Net)
      (policy : MapPolicy)
      → Prepared group state
      → HasTable state group (length state.cfg.entries)
      → id.entry < length state.cfg.entries
      → Returns group (draw_stateful n r state group id addrs policy)
  unfolding Returns draw_stateful Drawn put_slot
  draw_stateful-Returns state group id addrs policy ready table below =
      let place = slot_of table.allocation group in
      let (drawn, drawn_is, walks) =
        draw_slot-Drawn n r table.slot id addrs policy (omega (arith, table.walks_of)) in
      let at : get_elem? (set table.allocation.slots place drawn.1) (
            slot_of (record table.allocation { slots = set table.allocation.slots place drawn.1 })
              group)
          ≡ some drawn.1 =
        rw
          (
            length-set table.allocation.slots place drawn.1,
            get_elem?-set_self table.allocation.slots place drawn.1
                (get_elem?-lt table.allocation.slots place table.at),
          )
          refl in
      let result : draw_stateful n r state group id addrs policy
          ≡ some (put_slot n r state table.allocation group drawn) =
        rw (table.here, table.at, drawn_is, draw_stateful) refl in
      (
        drawn.0,
        (put_slot n r state table.allocation group drawn).1,
        result,
        record {
          table = λ _. record {
            allocation = record table.allocation {
              slots = set table.allocation.slots place drawn.1;
            };
            here = refl;
            slot = drawn.1;
            at = at;
            walks_of = walks ∙ table.walks_of;
          };
          narrow = ready.narrow;
        },
      )

  pub or_false : (p q : Bool) → (p || q) ≡ false → (p ≡ false) × (q ≡ false)
  or_false true q h = absurd (cc)
  or_false false q h = (refl, h)

  or_right : (p : Bool) {q : Bool} → q ≡ true → (p || q) ≡ true
  or_right true h = refl
  or_right false h = h

  -- An entry that is found is one of the entries, and if it keeps a table, the entries need one.
  classify-entry :
      (i : ℕ) (entries : List (CompiledEntry n.Net)) (addr : IpAddr) {place : ℕ}
      {entry : CompiledEntry n.Net}
      → classify n i entries addr ≡ some (place, entry)
      → (place < i + length entries) × (keeps n entry.action ≡ true → needs_table n entries ≡ true)
  unfolding classify needs_table
  classify-entry i [] addr h = absurd (cc)
  classify-entry i (first ∷ rest) addr {place} {entry} h =
      elim (Bool-cases (in_scope n first.from addr)) [
        | inl inside ↦
            let same : some (i, first) ≡ some (place, entry) = rw inside at h in
            let at : i ≡ place = cc in
            let is : first ≡ entry = cc in
            (
              omega arith,
              λ stateful. let kept : keeps n first.action ≡ true = rw is stateful in rw kept refl,
            )
        | inr out ↦
            let (below, needs) = classify-entry (suc i) rest addr (rw out at h) in
            (omega arith, λ stateful. or_right (keeps n first.action) (needs stateful))
      ]

  warned-Prepared :
      (state : FlowState n.Net r.Rng) (group : ℕ)
      → Prepared group state
      → Prepared group (record state { warned_unmatched = true })
  warned-Prepared state group ready = record {
    table = λ needs.
        let table = ready.table needs in
        record {
          allocation = table.allocation;
          here = table.here;
          slot = table.slot;
          at = table.at;
          walks_of = table.walks_of;
        };
    narrow = ready.narrow;
  }

  act-Returns :
      (state : FlowState n.Net r.Rng) (group entry : ℕ) (id : AllocId) (action : Action n.Net)
      → Prepared group state
      → id.entry < length state.cfg.entries
      → draws n action ≡ false
      → (keeps n action ≡ true → needs_table n state.cfg.entries ≡ true)
      → Returns group (act n r state group entry id action)
  unfolding Returns act draw
  act-Returns state group entry id (fixed ip) ready below steady needs = (_, state, refl, ready)
  act-Returns state group entry id (mask to) ready below steady needs = (_, state, refl, ready)
  act-Returns state group entry id (pool addrs policy) ready below steady needs =
      elim (Bool-cases (addrs.total == 0)) [
        | inl empty ↦ rw empty (none, state, refl, ready)
        | inr some_left ↦ rw some_left (drawing policy steady needs)
      ]
    where
      drawing :
          (policy : MapPolicy)
          → draws n (pool addrs policy) ≡ false
          → (keeps n (pool addrs policy) ≡ true → needs_table n state.cfg.entries ≡ true)
          → Returns group (draw n r state group entry id addrs policy)
      drawing random steady needs = absurd (cc)
      drawing hash steady needs = (_, state, refl, ready)
      drawing sticky steady needs =
          draw_stateful-Returns state group id addrs sticky ready (ready.table (needs refl)) below
      drawing unique steady needs =
          draw_stateful-Returns state group id addrs unique ready (ready.table (needs refl)) below

  pub target_for-Returns :
      (state : FlowState n.Net r.Rng) (group : ℕ) (addr : IpAddr) (session : Option SessionId)
      (fragment : Option FragKey)
      → Prepared group state
      → draws_per_packet n state.cfg addr ≡ false
      → Returns group (target_for n r state group addr session fragment)
  unfolding Returns target_for draws_per_packet
  target_for-Returns state group addr session fragment ready steady =
      elim (Bool-cases (excluded n state.cfg.exclude addr)) [
        | inl out ↦ rw out (none, state, refl, ready)
        | inr inside ↦ elim (Option-cases (classify n 0 state.cfg.entries addr)) [
          | inl unmatched ↦
              rw (inside, unmatched, target_for)
                (
                  none,
                  record state { warned_unmatched = true },
                  refl,
                  warned-Prepared state group ready,
                )
          | inr ((entry, rule), found) ↦
              let (below, needs) = classify-entry 0 state.cfg.entries addr found in
              let id : AllocId = record {
                entry = entry % 2 ^ 32;
                identity = identity state.cfg.key session fragment;
                addr = addr;
              } in
              let narrow = ready.narrow in
              let (target, after, is, kept) =
                act-Returns state group entry id rule.action ready (omega arith)
                  (rw (found, draws_per_packet) at steady) needs in
              rw (inside, found, target_for) (target, after, is, kept)
        ]
      ]

  pub targets_for-Prepared :
      (state : FlowState n.Net r.Rng) (group : ℕ) (info : PacketInfo) (fragment : Option FragKey)
      → Prepared group state
      → needs_alias n state.cfg info ≡ false
      → ((after : FlowState n.Net r.Rng) (target : Option IpAddr)
          → target_for n r state group info.src (session info) fragment ≡ some (target, after)
          → after.cfg ≡ state.cfg)
      → (targets : Targets) × (after : FlowState n.Net r.Rng) × (targets_for n r state group info
            fragment
          ≡ some (targets, after))
        × Prepared group after
  unfolding targets_for needs_alias Returns
  targets_for-Prepared state group info fragment ready quiet same =
      let (at_src, at_dst) = or_false _ _ quiet in
      let (src, middle, first, kept) =
        target_for-Returns state group info.src (session info) fragment ready at_src in
      let at_dst : draws_per_packet n middle.cfg info.dst ≡ false =
        rw (same middle src first) at_dst in
      let (dst, after, second, kept) =
        target_for-Returns middle group info.dst (session info) fragment kept at_dst in
      (record { src = src; dst = dst }, after, rw (first, second, targets_for) refl, kept)
