-- ===== src/Mapping/Flow/Aliases.antt =====
-- The cache of fragments of `FlowState` of tools/maja-mergecap/src/map/flow.rs: a datagram keeps what was
-- drawn for its first fragment.
use maja.Base.{
  ℕ, ◌≡◌, refl, ◌∙◌, inl, inr, Bool-cases, Option, Option-cases, none, some, get_elem?,
  get_elem?-lt, set, get_elem?-set_self, get_elem?-set_ne, ℕ_discrete, ◌==◌,
}
use maja.Mapping.{IpAddr, Random, Nets}
use maja.Mapping.Pool.{Pool}
use mathlib.Core.Path.{subst}
use maja.Mapping.Alloc.Grow.{IfReturned, panicked, returned, of_returned}
use maja.Mapping.Alloc.{slot_of, MapPolicy, sticky, unique, random, hash}
use maja.Mapping.Entry.{Action, fixed, mask, pool, classify}
use maja.Mapping.Session.{FragKey, Targets, PacketInfo, AllocId, SessionId, session}
use maja.Mapping.Flow.{
  FlowState, GroupState, lookup_fragment, excluded, draw_random, draw_slot, draw_stateful, put_slot,
  draw, act, target_for, targets_for,
}

module _ (n : Nets) (r : Random) where
  -- What a group has drawn for a datagram.
  unfoldable pub alias_of : FlowState n.Net r.Rng → ℕ → FragKey → Option Targets
  alias_of state group key = elim (get_elem? state.groups group) [
    | none ↦ none
    | some own ↦ lookup_fragment key own.fragments
  ]

  -- A later state of the same map: what was drawn for a datagram stays.
  pub record Keeps (before after : FlowState n.Net r.Rng) : Type 0 where
    pub cfg : after.cfg ≡ before.cfg
    pub aliases :
        (group : ℕ) (key : FragKey) (drawn : Targets)
        → alias_of before group key ≡ some drawn
        → alias_of after group key ≡ some drawn

  pub Keeps-trans : {a b c : FlowState n.Net r.Rng} → Keeps a b → Keeps b c → Keeps a c
  Keeps-trans one two = record {
    cfg = two.cfg ∙ one.cfg;
    aliases = λ group key drawn h. two.aliases group key drawn (one.aliases group key drawn h);
  }

  pub Keeps-refl : (state : FlowState n.Net r.Rng) → Keeps state state
  Keeps-refl state = record { cfg = refl; aliases = λ group key drawn h. h }

  -- A group that keeps its own fragments takes the place of the one before.
  set_group-Keeps :
      (state : FlowState n.Net r.Rng) (group : ℕ) (own later : GroupState r.Rng)
      → get_elem? state.groups group ≡ some own
      → ((key : FragKey) (drawn : Targets)
          → lookup_fragment key own.fragments ≡ some drawn
          → lookup_fragment key later.fragments ≡ some drawn)
      → Keeps state (record state { groups = set state.groups group later })
  unfolding alias_of
  set_group-Keeps state group own later here keeps = record {
    cfg = refl;
    aliases = λ g key drawn h. elim (ℕ_discrete group g) [
      | yes same ↦
          let at : get_elem? state.groups g ≡ some own = rw same at here in
          let now : get_elem? (set state.groups group later) g ≡ some later =
            rw⁻¹ same (
              get_elem?-set_self state.groups group later (get_elem?-lt state.groups group here)) in
          rw (now, alias_of) (keeps key drawn (rw (at, alias_of) at h))
      | no other ↦ rw (get_elem?-set_ne state.groups later other, alias_of) h
    ];
  }

  -- What is returned comes with a later state.
  abbrev pub AllKeep :
      {A : Type 0} → FlowState n.Net r.Rng → Option (A × FlowState n.Net r.Rng) → Type 0
  AllKeep {A} state result =
      IfReturned (λ (out : A × FlowState n.Net r.Rng). Keeps state out.1) result

  draw_random-Keeps :
      (state : FlowState n.Net r.Rng) (group : ℕ) (addrs : Pool n.Net)
      → AllKeep state (draw_random n r state group addrs)
  unfolding draw_random
  draw_random-Keeps state group addrs = elim (Option-cases (get_elem? state.groups group)) [
    | inl absent ↦ rw (absent, draw_random) panicked
    | inr (own, here) ↦
        rw (here, draw_random)
          (returned (set_group-Keeps state group own _ here (λ key drawn h. h)))
  ]

  draw_stateful-Keeps :
      (state : FlowState n.Net r.Rng) (group : ℕ) (id : AllocId) (addrs : Pool n.Net)
      (policy : MapPolicy)
      → AllKeep state (draw_stateful n r state group id addrs policy)
  unfolding draw_stateful put_slot alias_of
  draw_stateful-Keeps state group id addrs policy = elim (Option-cases state.allocation) [
    | inl absent ↦ rw (absent, draw_stateful) panicked
    | inr (allocation, here) ↦
        elim (Option-cases (get_elem? allocation.slots (slot_of allocation group))) [
          | inl absent ↦ rw (here, absent, draw_stateful) panicked
          | inr (slot, is) ↦ elim (Option-cases (draw_slot n r slot id addrs policy)) [
            | inl none_drawn ↦ rw (here, is, none_drawn, draw_stateful) panicked
            | inr (drawn, drawn_is) ↦
                rw (here, is, drawn_is, draw_stateful)
                  (returned (record { cfg = refl; aliases = λ g key drawn h. h }))
          ]
        ]
  ]

  draw-Keeps :
      (state : FlowState n.Net r.Rng) (group entry : ℕ) (id : AllocId) (addrs : Pool n.Net)
      (policy : MapPolicy)
      → AllKeep state (draw n r state group entry id addrs policy)
  unfolding draw
  draw-Keeps state group entry id addrs random = draw_random-Keeps state group addrs
  draw-Keeps state group entry id addrs hash = returned (Keeps-refl state)
  draw-Keeps state group entry id addrs sticky = draw_stateful-Keeps state group id addrs sticky
  draw-Keeps state group entry id addrs unique = draw_stateful-Keeps state group id addrs unique

  act-Keeps :
      (state : FlowState n.Net r.Rng) (group entry : ℕ) (id : AllocId) (action : Action n.Net)
      → AllKeep state (act n r state group entry id action)
  unfolding act
  act-Keeps state group entry id (fixed ip) = returned (Keeps-refl state)
  act-Keeps state group entry id (mask to) = returned (Keeps-refl state)
  act-Keeps state group entry id (pool addrs policy) = elim (Bool-cases (addrs.total == 0)) [
    | inl empty ↦ rw (empty, act) (returned (Keeps-refl state))
    | inr some_left ↦ rw (some_left, act) (draw-Keeps state group entry id addrs policy)
  ]

  target_for-Keeps :
      (state : FlowState n.Net r.Rng) (group : ℕ) (addr : IpAddr) (session : Option SessionId)
      (fragment : Option FragKey)
      → AllKeep state (target_for n r state group addr session fragment)
  unfolding target_for alias_of
  target_for-Keeps state group addr session fragment =
      elim (Bool-cases (excluded n state.cfg.exclude addr)) [
        | inl out ↦ rw (out, target_for) (returned (Keeps-refl state))
        | inr inside ↦ elim (Option-cases (classify n 0 state.cfg.entries addr)) [
          | inl unmatched ↦
              rw (inside, unmatched, target_for)
                (returned (record { cfg = refl; aliases = λ g key drawn h. h }))
          | inr ((entry, rule), found) ↦
              rw (inside, found, target_for) (act-Keeps state group entry _ rule.action)
        ]
      ]

  -- What a call returns, by its equation.
  pub kept_by :
      {A : Type 0} {state after : FlowState n.Net r.Rng}
      {result : Option (A × FlowState n.Net r.Rng)} {a : A}
      → AllKeep state result
      → result ≡ some (a, after)
      → Keeps state after
  kept_by {A} {state} all is =
      of_returned
        (subst (λ o. IfReturned (λ (out : A × FlowState n.Net r.Rng). Keeps state out.1) o) is all)

  pub targets_for-Keeps :
      (state : FlowState n.Net r.Rng) (group : ℕ) (info : PacketInfo) (fragment : Option FragKey)
      → AllKeep state (targets_for n r state group info fragment)
  unfolding targets_for
  targets_for-Keeps state group info fragment =
      elim (Option-cases (target_for n r state group info.src (session info) fragment)) [
        | inl panics ↦ rw (panics, targets_for) panicked
        | inr ((src, middle), first) ↦
            elim (Option-cases (target_for n r middle group info.dst (session info) fragment)) [
              | inl panics ↦ rw (first, panics, targets_for) panicked
              | inr ((dst, after), second) ↦
                  rw (first, second, targets_for)
                    (returned (
                      Keeps-trans
                        (kept_by (target_for-Keeps state group info.src (session info) fragment)
                          first)
                        (kept_by (target_for-Keeps middle group info.dst (session info) fragment)
                          second)))
            ]
      ]
