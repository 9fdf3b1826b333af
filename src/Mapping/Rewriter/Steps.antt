-- ===== src/Mapping/Rewriter/Steps.antt =====
-- The steps of `Rewriter::rewrite` of tools/maja-mergecap/src/map.rs.
use mathlib.Core.Option.{some-injective}
use mathlib.Core.Path.{ap₂}
use maja.Base.{
  ℕ, ◌≡◌, refl, sym, ap, ◌∙◌, ◌||◌, ◌&&◌, inl, inr, Bool, false, Option, Option-cases, none, some,
}
use maja.Packet.{Packet}
use maja.Mapping.{Random, Nets}
use maja.Mapping.Flow.{rewrite}
use maja.Mapping.Envelope.{read_info}
use maja.Mapping.Segment.{apply_targets}
use maja.Mapping.Rewriter.{Rewriter, rewrite_direct, rewrite_flow, fix_if, rewrite_packet}

pub pieces :
    {A B C : Type 0} {a a' : A} {b b' : B} {c c' : C}
    → ◌≡◌ {A = Option ((A × B) × C)} (some ((a, b), c)) (some ((a', b'), c'))
    → (a ≡ a') × (b ≡ b') × (c ≡ c')
pieces {A} {B} {C} {a} {a'} {b} {b'} {c} {c'} h =
    let e = some-injective {A = (A × B) × C} ((a, b), c) ((a', b'), c') h in
    (
      ap (λ (t : (A × B) × C). t.0.0) e,
      ap (λ (t : (A × B) × C). t.0.1) e,
      ap (λ (t : (A × B) × C). t.1) e,
    )

module _ (n : Nets) (r : Random) where
  pub rewrite_direct-fix :
      (rewriter : Rewriter n.Net r.Rng) (packet : Packet)
      → (rewrite_direct n r rewriter packet).1.fix_checksum ≡ rewriter.fix_checksum
  unfolding rewrite_direct
  rewrite_direct-fix rewriter packet = elim (Option-cases rewriter.direct) [
    | inl no_maps ↦ rw (no_maps, rewrite_direct) refl
    | inr (maps, some_maps) ↦ rw (some_maps, rewrite_direct) refl
  ]

  pub rewrite_flow-fix :
      (rewriter later : Rewriter n.Net r.Rng) (group : ℕ) (packet after : Packet) (changed : Bool)
      → rewrite_flow n r rewriter group packet ≡ some ((changed, after), later)
      → later.fix_checksum ≡ rewriter.fix_checksum
  unfolding rewrite_flow
  rewrite_flow-fix rewriter later group packet after changed h = elim (Option-cases rewriter.flow) [
    | inl no_flow ↦
        let e : some ((false, packet), rewriter) ≡ some ((changed, after), later) =
          rw (no_flow, rewrite_flow) at h in
        sym (ap (λ (w : Rewriter n.Net r.Rng). w.fix_checksum) (pieces e).2)
    | inr (state, some_flow) ↦ elim (Option-cases (rewrite n r state group (read_info packet))) [
      | inl panics ↦
          let e : none ≡ some ((changed, after), later) =
            rw (some_flow, panics, rewrite_flow) at h in
          absurd (cc)
      | inr (((drawn, written), next), drawn_is) ↦
          let e : some ((written, apply_targets drawn packet), record rewriter { flow = some next })
              ≡ some ((changed, after), later) =
            rw (some_flow, drawn_is, rewrite_flow) at h in
          sym (ap (λ (w : Rewriter n.Net r.Rng). w.fix_checksum) (pieces e).2)
    ]
  ]

  -- The steps of a rewrite that returns.
  abbrev pub Steps :
      Rewriter n.Net r.Rng → ℕ → Packet → Bool → Packet → Rewriter n.Net r.Rng → Type 0
  Steps rewriter group packet changed after later =
      (flow_changed : Bool) × (middle : Packet) × (rewrite_flow n r
          (rewrite_direct n r rewriter packet).1 group (rewrite_direct n r rewriter packet).0.1
        ≡ some ((flow_changed, middle), later))
      × (changed ≡ ((rewrite_direct n r rewriter packet).0.0 || flow_changed))
      × (after ≡ fix_if n r (changed && later.fix_checksum) middle)

  pub rewrite_packet-Steps :
      (rewriter later : Rewriter n.Net r.Rng) (group : ℕ) (packet after : Packet) (changed : Bool)
      → rewrite_packet n r rewriter group packet ≡ some ((changed, after), later)
      → Steps rewriter group packet changed after later
  unfolding rewrite_packet
  rewrite_packet-Steps rewriter later group packet after changed h =
      let direct = rewrite_direct n r rewriter packet in
      elim (Option-cases (rewrite_flow n r direct.1 group direct.0.1)) [
        | inl panics ↦
            let e : none ≡ some ((changed, after), later) = rw (panics, rewrite_packet) at h in
            absurd (cc)
        | inr (((flow_changed, middle), next), flows) ↦
            let both = direct.0.0 || flow_changed in
            let e : some ((both, fix_if n r (both && next.fix_checksum) middle), next)
                ≡ some ((changed, after), later) =
              rw (flows, rewrite_packet) at h in
            let (same_changed, same_after, same_next) = pieces e in
            (
              flow_changed,
              middle,
              rw same_next at flows,
              sym same_changed,
              sym same_after
                  ∙ ap₂
                      (λ (b : Bool) (w : Rewriter n.Net r.Rng).
                        fix_if n r (b && w.fix_checksum) middle)
                      same_changed same_next,
            )
      ]
