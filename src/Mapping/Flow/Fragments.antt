-- ===== src/Mapping/Flow/Fragments.antt =====
-- The fragments of a datagram: `FlowState::targets` and `rewrite` of
-- tools/maja-mergecap/src/map/flow.rs.
use maja.Base.{
  ℕ, ◌≡◌, refl, sym, ap, ◌∙◌, inl, inr, Bool, true, false, Bool-cases, Option, Option-cases, none,
  some, ◌∷◌, get_elem?, get_elem?-lt, set, get_elem?-set_self, get_elem?-set_ne, ℕ_discrete,
  if◌then◌else◌,
}
use mathlib.Core.Path.{subst}
use maja.Mapping.{Random, Nets}
use maja.Mapping.Alloc.Grow.{IfReturned, panicked, returned, of_returned}
use maja.Mapping.Session.{FragKey, Targets, PacketInfo, same_fragment}
use maja.Mapping.Session.Equal.{same_fragment_eq, same_fragment_refl}
use maja.Mapping.Flow.{
  FlowState, GroupState, lookup_fragment, targets_for, aliased, targets, needs_alias, rewrite,
  allows,
}
use maja.Mapping.Flow.Aliases.{
  alias_of, Keeps, Keeps-trans, Keeps-refl, AllKeep, kept_by, targets_for-Keeps,
}

choose_all :
    {A : Type 0} (P : A → Type 0) (b c : Bool) {x y z : A}
    → P x
    → P y
    → P z
    → P (if b then (if c then x else y) else z)
choose_all P true true px py pz = px
choose_all P true false px py pz = py
choose_all P false c px py pz = pz

choose_first :
    {A : Type 0} (b c : Bool) (x y z : A)
    → b ≡ true
    → c ≡ true
    → (if b then (if c then x else y) else z) ≡ x
choose_first true true x y z h k = refl
choose_first true false x y z h k = absurd (cc)
choose_first false c x y z h k = absurd (cc)

module _ (n : Nets) (r : Random) where
  -- A datagram that is new to a group goes in front of the others.
  insert-Keeps :
      (state middle : FlowState n.Net r.Rng) (group : ℕ) (own later : GroupState r.Rng)
      (key : FragKey) (drawn : Targets)
      → get_elem? state.groups group ≡ some own
      → lookup_fragment key own.fragments ≡ none
      → Keeps n r state middle
      → get_elem? middle.groups group ≡ some later
      → Keeps n r state (record middle {
        groups =
            set middle.groups group (record later { fragments = (key, drawn) ∷ later.fragments });
      })
  unfolding alias_of
  insert-Keeps state middle group own later key drawn here absent kept now = record {
    cfg = kept.cfg;
    aliases = λ g k found h. elim (ℕ_discrete group g) [
      | no other ↦ rw (get_elem?-set_ne middle.groups _ other, alias_of) (kept.aliases g k found h)
      | yes same ↦
          let at : get_elem? state.groups g ≡ some own = rw same at here in
          let at_later : get_elem? middle.groups g ≡ some later = rw same at now in
          let front : GroupState r.Rng = record later {
            fragments = (key, drawn) ∷ later.fragments;
          } in
          let at_front : get_elem? (set middle.groups group front) g ≡ some front =
            rw⁻¹ same (
              get_elem?-set_self middle.groups group front
                (get_elem?-lt middle.groups group now)) in
          let before : lookup_fragment k own.fragments ≡ some found = rw (at, alias_of) at h in
          let after : lookup_fragment k later.fragments ≡ some found =
            rw (at_later, alias_of) at (kept.aliases g k found h) in
          elim (Bool-cases (same_fragment k key)) [
            | inr differs ↦ rw (at_front, differs, alias_of) after
            | inl is_key ↦
                let e : none ≡ some found =
                  sym absent
                  ∙ ap (λ (x : FragKey). lookup_fragment x own.fragments)
                      (sym (same_fragment_eq k key is_key))
                  ∙ before in
                absurd (cc)
          ]
    ];
  }

  -- What the group has for the datagram afterwards is what is returned.
  Aliased : ℕ → FragKey → FlowState n.Net r.Rng → Targets × FlowState n.Net r.Rng → Type 0
  Aliased group key state (drawn, after) =
      Keeps n r state after × (alias_of n r after group key ≡ some drawn)

  aliased-Aliased :
      (state : FlowState n.Net r.Rng) (group : ℕ) (info : PacketInfo) (key : FragKey)
      → IfReturned (Aliased group key state) (aliased n r state group info key)
  unfolding aliased Aliased alias_of
  aliased-Aliased state group info key = elim (Option-cases (get_elem? state.groups group)) [
    | inl absent ↦ rw (absent, aliased) panicked
    | inr (own, here) ↦ elim (Option-cases (lookup_fragment key own.fragments)) [
      | inr (drawn, known) ↦
          rw (here, known, aliased)
            (returned (Keeps-refl n r state, rw (here, known, alias_of) refl))
      | inl new ↦ elim (Option-cases (targets_for n r state group info (some key))) [
        | inl panics ↦ rw (here, new, panics, aliased) panicked
        | inr ((drawn, middle), is) ↦ elim (Option-cases (get_elem? middle.groups group)) [
          | inl gone ↦ rw (here, new, is, gone, aliased) panicked
          | inr (later, now) ↦
              let front : GroupState r.Rng = record later {
                fragments = (key, drawn) ∷ later.fragments;
              } in
              let at_front : get_elem? (set middle.groups group front) group ≡ some front =
                get_elem?-set_self middle.groups group front
                  (get_elem?-lt middle.groups group now) in
              let kept = kept_by n r (targets_for-Keeps n r state group info (some key)) is in
              rw (here, new, is, now, aliased)
                (returned (
                  insert-Keeps state middle group own later key drawn here new kept now,
                  rw (at_front, same_fragment_refl key, alias_of) refl,
                ))
        ]
      ]
    ]
  ]

  aliased-Keeps :
      (state : FlowState n.Net r.Rng) (group : ℕ) (info : PacketInfo) (key : FragKey)
      → AllKeep n r state (aliased n r state group info key)
  unfolding Aliased
  aliased-Keeps state group info key = elim (Option-cases (aliased n r state group info key)) [
    | inl panics ↦ rw panics panicked
    | inr (out, is) ↦ rw is (
        returned
          (of_returned (
            subst (IfReturned (Aliased group key state)) is
              (aliased-Aliased state group info key))).0)
  ]

  -- `targets`, of the fragment that was read.
  of_fragment :
      FlowState n.Net r.Rng
      → ℕ
      → PacketInfo
      → Option FragKey
      → Option (Targets × FlowState n.Net r.Rng)
  of_fragment state group info none = targets_for n r state group info none
  of_fragment state group info (some key) =
      if state.cfg.fragments
      then (if needs_alias n state.cfg info
          then aliased n r state group info key
          else targets_for n r state group info (some key))
      else targets_for n r state group info none

  targets-of_fragment :
      (state : FlowState n.Net r.Rng) (group : ℕ) (info : PacketInfo) (fragment : Option FragKey)
      → info.fragment ≡ fragment
      → targets n r state group info ≡ of_fragment state group info fragment
  unfolding targets of_fragment
  targets-of_fragment state group info fragment is =
      same info.fragment ∙ ap by_elim is ∙ sym (same fragment)
    where
      by_elim : Option FragKey → Option (Targets × FlowState n.Net r.Rng)
      by_elim found = elim found [
        | none ↦ targets_for n r state group info none
        | some key ↦ of_fragment state group info (some key)
      ]

      same : (found : Option FragKey) → of_fragment state group info found ≡ by_elim found
      same none = refl
      same (some key) = refl

  targets-Keeps :
      (state : FlowState n.Net r.Rng) (group : ℕ) (info : PacketInfo)
      → AllKeep n r state (targets n r state group info)
  unfolding of_fragment
  targets-Keeps state group info =
      subst (AllKeep n r state) (sym (targets-of_fragment state group info info.fragment refl))
        (go info.fragment)
    where
      go : (fragment : Option FragKey) → AllKeep n r state (of_fragment state group info fragment)
      go none = targets_for-Keeps n r state group info none
      go (some key) =
          choose_all (AllKeep n r state) state.cfg.fragments (needs_alias n state.cfg info)
            (aliased-Keeps state group info key) (targets_for-Keeps n r state group info (some key))
            (targets_for-Keeps n r state group info none)

  rewrite-Keeps :
      (state : FlowState n.Net r.Rng) (group : ℕ) (info : Option PacketInfo)
      → AllKeep n r state (rewrite n r state group info)
  unfolding rewrite
  rewrite-Keeps state group none = returned (Keeps-refl n r state)
  rewrite-Keeps state group (some info) =
      elim (Bool-cases (allows state.cfg.protocols info.proto)) [
        | inr refused ↦ rw (refused, rewrite) (returned (Keeps-refl n r state))
        | inl allowed ↦ elim (Option-cases (targets n r state group info)) [
          | inl panics ↦ rw (allowed, panics, rewrite) panicked
          | inr (out, is) ↦
              rw (allowed, is, rewrite) (returned (kept_by n r (targets-Keeps state group info) is))
        ]
      ]

  -- The states that rewrites of packets lead to, each of any group.
  pub data Reaches (state : FlowState n.Net r.Rng) : FlowState n.Net r.Rng → Type 0 where
    here : Reaches state state
    next :
        {middle after : FlowState n.Net r.Rng} (group : ℕ) (info : Option PacketInfo)
        (written : Targets × Bool)
        → Reaches state middle
        → rewrite n r middle group info ≡ some (written, after)
        → Reaches state after

  Reaches-Keeps :
      {state after : FlowState n.Net r.Rng} → Reaches state after → Keeps n r state after
  Reaches-Keeps here = Keeps-refl n r _
  Reaches-Keeps (next group info written before is) =
      Keeps-trans n r (Reaches-Keeps before) (kept_by n r (rewrite-Keeps _ group info) is)

  -- A later fragment of a datagram, which has the addresses of the first one.
  abbrev pub Fragment : FragKey → PacketInfo → PacketInfo → Type 0
  Fragment key first later =
      (first.fragment ≡ some key)
      × (later.fragment ≡ some key)
      × (later.src ≡ first.src)
      × (later.dst ≡ first.dst)

  targets-alias :
      (state : FlowState n.Net r.Rng) (group : ℕ) (info : PacketInfo) (key : FragKey)
      → info.fragment ≡ some key
      → state.cfg.fragments ≡ true
      → needs_alias n state.cfg info ≡ true
      → targets n r state group info ≡ aliased n r state group info key
  unfolding of_fragment
  targets-alias state group info key part on needs =
      targets-of_fragment state group info (some key) part
      ∙ choose_first state.cfg.fragments (needs_alias n state.cfg info) _ _ _ on needs

  aliased-known :
      (state : FlowState n.Net r.Rng) (group : ℕ) (info : PacketInfo) (key : FragKey)
      (drawn : Targets)
      → alias_of n r state group key ≡ some drawn
      → aliased n r state group info key ≡ some (drawn, state)
  unfolding aliased alias_of
  aliased-known state group info key drawn known =
      elim (Option-cases (get_elem? state.groups group)) [
        | inl absent ↦ let e : none ≡ some drawn = rw (absent, alias_of) at known in absurd (cc)
        | inr (own, is) ↦
            let e : lookup_fragment key own.fragments ≡ some drawn = rw (is, alias_of) at known in
            rw (is, e, aliased) refl
      ]

  -- Where fragments are followed and an address of a datagram draws per packet, every later fragment
  -- of the datagram in the same group gets the targets that its first fragment got, whatever packets
  -- of whatever groups were rewritten in between, and the state stays as it is.
  pub targets-fragments :
      (state drawing later : FlowState n.Net r.Rng) (group : ℕ) (first info : PacketInfo)
      (key : FragKey) (drawn : Targets)
      → Fragment key first info
      → state.cfg.fragments ≡ true
      → needs_alias n state.cfg first ≡ true
      → targets n r state group first ≡ some (drawn, drawing)
      → Reaches drawing later
      → targets n r later group info ≡ some (drawn, later)
  unfolding Aliased needs_alias
  targets-fragments state drawing later group first info key drawn (is_first, is_later, src, dst) on
        needs draws reaches =
      let (one, known) = of_returned (
        subst (IfReturned (Aliased group key state))
          (sym (targets-alias state group first key is_first on needs) ∙ draws)
          (aliased-Aliased state group first key)) in
      let two = Reaches-Keeps reaches in
      let cfg : later.cfg ≡ state.cfg = two.cfg ∙ one.cfg in
      let still_on : later.cfg.fragments ≡ true = rw cfg on in
      let still_needs : needs_alias n later.cfg info ≡ true = rw (cfg, src, dst) needs in
      targets-alias later group info key is_later still_on still_needs
      ∙ aliased-known later group info key drawn (two.aliases group key drawn known)
