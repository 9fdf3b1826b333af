-- ===== src/Mapping/Rewriter/Unchanged.antt =====
-- A rewrite of tools/maja-mergecap/src/map.rs that reports no change.
use maja.Base.{
  ℕ, ◌≡◌, refl, sym, ap, ◌∙◌, inl, inr, false, Bool-cases, Option, Option-cases, none, some,
}
use maja.Protocol.{Protocol}
use maja.Packet.{Packet}
use maja.Mapping.{Family, v4, v6, IpAddr, ipv4, ipv6, Random, Nets}
use maja.Mapping.Session.{Targets, PacketInfo}
use maja.Mapping.Flow.{FlowState, rewrite, allows, targets, is_some}
use maja.Mapping.Flow.Returns.{or_false}
use maja.Mapping.Envelope.{outer_ip_family, outer_viewer, read_info}
use maja.Mapping.Segment.{set_v4, set_v6, apply_in, apply_targets}
use maja.Mapping.Direct.{DirectMaps, direct_v4, direct_v6, direct_in, direct_rewrite, is_v4, is_v6}
use maja.Mapping.Rewriter.{Rewriter, rewrite_direct, rewrite_flow, fix_if, rewrite_packet}
use maja.Mapping.Rewriter.Steps.{pieces, rewrite_packet-Steps}

apply_targets-none :
    (packet : Packet) (drawn : Targets)
    → drawn.src ≡ none
    → drawn.dst ≡ none
    → apply_targets drawn packet ≡ packet
unfolding apply_targets apply_in set_v4 set_v6
apply_targets-none packet drawn no_src no_dst = go (outer_ip_family packet)
  where
    go : (family : Option Family) → apply_in family drawn packet ≡ packet
    go none = refl
    go (some v4) = rw (no_src, no_dst, set_v4) refl
    go (some v6) = rw (no_src, no_dst, set_v6) refl

module _ (n : Nets) (r : Random) where
  is_some-false : (target : Option IpAddr) → is_some n r target ≡ false → target ≡ none
  is_some-false none h = refl
  is_some-false (some _) h = absurd (cc)

  set_v4-kept :
      (at : ℕ) (target : Option IpAddr) (packet : Packet)
      → is_v4 n r target ≡ false
      → set_v4 at target packet ≡ packet
  unfolding set_v4
  set_v4-kept at none packet h = refl
  set_v4-kept at (some (ipv4 _)) packet h = absurd (cc)
  set_v4-kept at (some (ipv6 _)) packet h = refl

  set_v6-kept :
      (at : ℕ) (target : Option IpAddr) (packet : Packet)
      → is_v6 n r target ≡ false
      → set_v6 at target packet ≡ packet
  unfolding set_v6
  set_v6-kept at none packet h = refl
  set_v6-kept at (some (ipv6 _)) packet h = absurd (cc)
  set_v6-kept at (some (ipv4 _)) packet h = refl

  direct_v4-kept :
      (maps : DirectMaps n.Net r.Rng) (packet : Packet)
      → (direct_v4 n r maps packet).0.0 ≡ false
      → (direct_v4 n r maps packet).0.1 ≡ packet
  unfolding direct_v4
  direct_v4-kept maps packet h = elim (Option-cases (outer_viewer packet Protocol.ipv4)) [
    | inl unseen ↦ rw (unseen, direct_v4) refl
    | inr (header, seen) ↦
        let (no_src, no_dst) = or_false n r _ _ (rw (seen, direct_v4) at h) in
        rw (seen, direct_v4) (set_v4-kept _ _ _ no_dst ∙ set_v4-kept _ _ packet no_src)
  ]

  direct_v6-kept :
      (maps : DirectMaps n.Net r.Rng) (packet : Packet)
      → (direct_v6 n r maps packet).0.0 ≡ false
      → (direct_v6 n r maps packet).0.1 ≡ packet
  unfolding direct_v6
  direct_v6-kept maps packet h = elim (Option-cases (outer_viewer packet Protocol.ipv6)) [
    | inl unseen ↦ rw (unseen, direct_v6) refl
    | inr (header, seen) ↦
        let (no_src, no_dst) = or_false n r _ _ (rw (seen, direct_v6) at h) in
        rw (seen, direct_v6) (set_v6-kept _ _ _ no_dst ∙ set_v6-kept _ _ packet no_src)
  ]

  direct_in-kept :
      (family : Option Family) (maps : DirectMaps n.Net r.Rng) (packet : Packet)
      → (direct_in n r family maps packet).0.0 ≡ false
      → (direct_in n r family maps packet).0.1 ≡ packet
  unfolding direct_in
  direct_in-kept none maps packet h = refl
  direct_in-kept (some v4) maps packet h = direct_v4-kept maps packet h
  direct_in-kept (some v6) maps packet h = direct_v6-kept maps packet h

  rewrite_direct-kept :
      (rewriter : Rewriter n.Net r.Rng) (packet : Packet)
      → (rewrite_direct n r rewriter packet).0.0 ≡ false
      → (rewrite_direct n r rewriter packet).0.1 ≡ packet
  unfolding rewrite_direct direct_rewrite
  rewrite_direct-kept rewriter packet h = elim (Option-cases rewriter.direct) [
    | inl no_maps ↦ rw (no_maps, rewrite_direct) refl
    | inr (maps, some_maps) ↦
        rw (some_maps, rewrite_direct)
          (direct_in-kept (outer_ip_family packet) maps packet
            (rw (some_maps, rewrite_direct) at h))
  ]

  -- The flow map reports no change where it has no target.
  rewrite-kept :
      (state later : FlowState n.Net r.Rng) (group : ℕ) (info : Option PacketInfo) (drawn : Targets)
      → rewrite n r state group info ≡ some ((drawn, false), later)
      → (drawn.src ≡ none) × (drawn.dst ≡ none)
  unfolding rewrite
  rewrite-kept state later group none drawn h =
      let (same, _, _) = pieces h in
      (sym (ap (λ (t : Targets). t.src) same), sym (ap (λ (t : Targets). t.dst) same))
  rewrite-kept state later group (some info) drawn h =
      elim (Bool-cases (allows state.cfg.protocols info.proto)) [
        | inr refused ↦
            let (same, _, _) = pieces (rw (refused, rewrite) at h) in
            (sym (ap (λ (t : Targets). t.src) same), sym (ap (λ (t : Targets). t.dst) same))
        | inl allowed ↦ elim (Option-cases (targets n r state group info)) [
          | inl panics ↦
              let e : none ≡ some ((drawn, false), later) = rw (allowed, panics, rewrite) at h in
              absurd (cc)
          | inr ((found, next), is) ↦
              let (same, unset, _) = pieces (rw (allowed, is, rewrite) at h) in
              let (no_src, no_dst) = or_false n r _ _ unset in
              (
                rw same at (is_some-false found.src no_src),
                rw same at (is_some-false found.dst no_dst),
              )
        ]
      ]

  rewrite_flow-kept :
      (rewriter later : Rewriter n.Net r.Rng) (group : ℕ) (packet after : Packet)
      → rewrite_flow n r rewriter group packet ≡ some ((false, after), later)
      → after ≡ packet
  unfolding rewrite_flow
  rewrite_flow-kept rewriter later group packet after h = elim (Option-cases rewriter.flow) [
    | inl no_flow ↦ sym ((pieces (rw (no_flow, rewrite_flow) at h)).1)
    | inr (state, some_flow) ↦ elim (Option-cases (rewrite n r state group (read_info packet))) [
      | inl panics ↦
          let e : none ≡ some ((false, after), later) = rw (some_flow, panics, rewrite_flow) at h in
          absurd (cc)
      | inr (((drawn, written), next), drawn_is) ↦
          let (unwritten, same, _) = pieces (rw (some_flow, drawn_is, rewrite_flow) at h) in
          let (no_src, no_dst) =
            rewrite-kept state next group (read_info packet) drawn (rw unwritten at drawn_is) in
          sym same ∙ apply_targets-none packet drawn no_src no_dst
    ]
  ]

  -- For every rewriter, group and packet: a rewrite that reports no change leaves the packet, its
  -- checksums too, as it is.
  pub rewrite_packet-unchanged :
      (rewriter later : Rewriter n.Net r.Rng) (group : ℕ) (packet after : Packet)
      → rewrite_packet n r rewriter group packet ≡ some ((false, after), later)
      → after ≡ packet
  unfolding fix_if
  rewrite_packet-unchanged rewriter later group packet after h =
      let direct = rewrite_direct n r rewriter packet in
      let (flow_changed, middle, flows, changed, after_is) =
        rewrite_packet-Steps n r rewriter later group packet after false h in
      let (no_direct, no_flow) = or_false n r direct.0.0 flow_changed (sym changed) in
      after_is
      ∙ rewrite_flow-kept direct.1 later group direct.0.1 middle (rw no_flow at flows)
      ∙ rewrite_direct-kept rewriter packet no_direct
