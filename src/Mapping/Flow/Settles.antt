-- ===== src/Mapping/Flow/Settles.antt =====
-- `target_for` of tools/maja-mergecap/src/map/flow.rs answers again what it has answered, where no
-- entry draws per packet.
use maja.Base.{
  ℕ, ◌%◌, ◌^◌, ◌≡◌, ◌∙◌, sym, refl, ap, inl, inr, true, false, Option, none, some, Bool-cases,
  Option-cases, ◌==◌,
}
use mathlib.Core.Path.{subst}
use maja.Mapping.{IpAddr, Random, Nets}
use maja.Mapping.Pool.{Pool}
use maja.Mapping.Alloc.{MapPolicy, sticky, unique, random, hash}
use maja.Mapping.Alloc.Grow.{Full, IfReturned, panicked, returned}
use maja.Mapping.Session.{MapKey, AllocId, identity, SessionId, FragKey}
use maja.Mapping.Entry.{Action, fixed, mask, pool, CompiledEntry, classify}
use maja.Mapping.Flow.{FlowState, FlowCfg, draws, excluded, draw, act, target_for}
use maja.Mapping.Flow.Later.{Later-refl, Again, Settles, draw_stateful-Settles, warned-Later}

module _ (n : Nets) (r : Random) where
  -- What the code compiles: a pool has an address for every index, and nothing draws per packet.
  pub record Steady (action : Action n.Net) : Type 0 where
    pub kept : draws n action ≡ false
    pub full : (addrs : Pool n.Net) (policy : MapPolicy) → action ≡ pool addrs policy → Full n addrs

  draw-Settles :
      (state : FlowState n.Net r.Rng) (group entry : ℕ) (id : AllocId) (addrs : Pool n.Net)
      (policy : MapPolicy)
      → (addrs.total == 0) ≡ false
      → Steady (pool addrs policy)
      → IfReturned
          (Settles n r group (λ s. draw n r s group entry id addrs policy) state)
          (draw n r state group entry id addrs policy)
  unfolding draw Settles Again
  draw-Settles state group entry id addrs random some_left steady =
      let drawn : true ≡ false = steady.kept in absurd (cc)
  draw-Settles state group entry id addrs hash some_left steady = returned (
    Later-refl n r group state,
    λ later growth. (later, rw growth.seed refl, Later-refl n r group later),
  )
  draw-Settles state group entry id addrs sticky some_left steady =
      draw_stateful-Settles n r state group id addrs sticky some_left (steady.full _ _ refl)
  draw-Settles state group entry id addrs unique some_left steady =
      draw_stateful-Settles n r state group id addrs unique some_left (steady.full _ _ refl)

  -- An answer that does not depend on the state.
  constant :
      (group : ℕ) (state : FlowState n.Net r.Rng) (target : Option IpAddr)
      → Settles n r group (λ s. some (target, s)) state (target, state)
  unfolding Settles Again
  constant group state target =
      (Later-refl n r group state, λ later growth. (later, refl, Later-refl n r group later))

  warned :
      (group : ℕ) (state : FlowState n.Net r.Rng)
      → Settles n r group
          (λ s. some (none, record s { warned_unmatched = true }))
          state
          (none, record state { warned_unmatched = true })
  unfolding Settles Again
  warned group state = (
    warned-Later n r group state,
    λ later growth. (record later { warned_unmatched = true }, refl, warned-Later n r group later),
  )

  act-Settles :
      (state : FlowState n.Net r.Rng) (group entry : ℕ) (id : AllocId) (action : Action n.Net)
      → Steady action
      → IfReturned
          (Settles n r group (λ s. act n r s group entry id action) state)
          (act n r state group entry id action)
  unfolding act
  act-Settles state group entry id (fixed ip) steady = returned (constant group state _)
  act-Settles state group entry id (mask to) steady = returned (constant group state _)
  act-Settles state group entry id (pool addrs policy) steady =
      elim (Bool-cases (addrs.total == 0)) [
        | inl empty ↦ rw empty (returned (constant group state none))
        | inr some_left ↦
            rw some_left (draw-Settles state group entry id addrs policy some_left steady)
      ]

  -- The rules of a map that are compiled and draw nothing per packet, for an address.
  pub record SteadyFor (cfg : FlowCfg n.Net) (addr : IpAddr) : Type 0 where
    pub rule :
        (i : ℕ) (entry : CompiledEntry n.Net)
        → classify n 0 cfg.entries addr ≡ some (i, entry)
        → Steady entry.action

  -- Two calls that are the same for every state of one map.
  same_call :
      (group : ℕ) (state : FlowState n.Net r.Rng)
      {drawn : Option (Option IpAddr × FlowState n.Net r.Rng)}
      (call other : FlowState n.Net r.Rng → Option (Option IpAddr × FlowState n.Net r.Rng))
      → ((later : FlowState n.Net r.Rng) → later.cfg ≡ state.cfg → other later ≡ call later)
      → IfReturned (Settles n r group call state) drawn
      → IfReturned (Settles n r group other state) drawn
  unfolding Settles Again
  same_call group state call other same panicked = panicked
  same_call group state call other same (returned (first, again)) = returned (
    first,
    λ later growth.
        let (next, answer, further) = again later growth in
        (next, same later (growth.cfg ∙ first.cfg) ∙ answer, further),
  )

  pub target_for-Settles :
      (state : FlowState n.Net r.Rng) (group : ℕ) (addr : IpAddr) (session : Option SessionId)
      (fragment : Option FragKey)
      → SteadyFor state.cfg addr
      → IfReturned
          (Settles n r group (λ s. target_for n r s group addr session fragment) state)
          (target_for n r state group addr session fragment)
  unfolding target_for
  target_for-Settles state group addr session fragment steady =
      elim (Bool-cases (excluded n state.cfg.exclude addr)) [
        | inl out ↦
            let same : (later : FlowState n.Net r.Rng)
                → later.cfg ≡ state.cfg
                → target_for n r later group addr session fragment ≡ some (none, later) =
              λ later cfg. rw (cfg, out) refl in
            rw (same state refl) (
              same_call group state (λ s. some (none, s)) _ same
                (returned (constant group state none)))
        | inr inside ↦ elim (Option-cases (classify n 0 state.cfg.entries addr)) [
          | inl unmatched ↦
              let same : (later : FlowState n.Net r.Rng)
                  → later.cfg ≡ state.cfg
                  → target_for n r later group addr session fragment
                    ≡ some (none, record later { warned_unmatched = true }) =
                λ later cfg.
                  let inside : excluded n later.cfg.exclude addr ≡ false =
                    subst (λ c. excluded n c.exclude addr ≡ false) (sym cfg) inside in
                  let unmatched : classify n 0 later.cfg.entries addr ≡ none =
                    subst (λ c. classify n 0 c.entries addr ≡ none) (sym cfg) unmatched in
                  rw (inside, unmatched, target_for) refl in
              rw (same state refl) (
                same_call group state (λ s. some (none, record s { warned_unmatched = true })) _
                  same (returned (warned group state)))
          | inr ((entry, rule), found) ↦
              let id : MapKey → AllocId = λ key. record {
                entry = entry % 2 ^ 32;
                identity = identity key session fragment;
                addr = addr;
              } in
              let same : (later : FlowState n.Net r.Rng)
                  → later.cfg ≡ state.cfg
                  → target_for n r later group addr session fragment
                    ≡ act n r later group entry (id state.cfg.key) rule.action =
                λ later cfg.
                  let inside : excluded n later.cfg.exclude addr ≡ false =
                    subst (λ c. excluded n c.exclude addr ≡ false) (sym cfg) inside in
                  let found : classify n 0 later.cfg.entries addr ≡ some (entry, rule) =
                    subst (λ c. classify n 0 c.entries addr ≡ some (entry, rule)) (sym cfg) found in
                  rw (inside, found, target_for)
                    (ap (λ c. act n r later group entry (id c.key) rule.action) cfg) in
              rw (same state refl) (
                same_call group state (λ s. act n r s group entry (id state.cfg.key) rule.action) _
                  same
                  (act-Settles state group entry (id state.cfg.key) rule.action
                    (steady.rule _ _ found)))
        ]
      ]
