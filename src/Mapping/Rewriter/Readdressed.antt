-- ===== src/Mapping/Rewriter/Readdressed.antt =====
-- An IPv4 packet with other addresses: tools/maja-mergecap/src/map.rs.
use mathlib.Core.Path.{subst}
use maja.Base.{
  ℕ, ◌+◌, ◌≤◌, ◌≡◌, refl, ◌∙◌, inl, inr, Bool, false, Option-cases, none, some, arith, length,
}
use maja.Field.{FieldSpec}
use maja.Context.{Layer}
use maja.Packet.{Packet}
use maja.Mapping.{Random, Nets}
use maja.Mapping.Session.{Targets}
use maja.Mapping.Flow.{rewrite, targets}
use maja.Mapping.Envelope.{address_v4, bytes_in, outer_transport, read_info}
use maja.Mapping.Segment.{apply_targets, segment_bounds}
use maja.Mapping.Segment.Applied.{
  KeptBehind, apply_targets-Applied, apply_targets-Ipv4Packet, apply_targets-Roomy,
}
use maja.Mapping.Fix.{info_fragment}
use maja.Mapping.Fix.Writes.{Roomy, Ipv4Packet}
use maja.Mapping.Fix.Same.{same_transport, fragment_kept, same_bounds}
use maja.Mapping.Direct.Applies.{direct_targets, direct_rewrite-apply}
use maja.Mapping.Rewriter.{Rewriter, rewrite_direct, rewrite_flow}
use maja.Mapping.Rewriter.Steps.{pieces}

-- A packet with other addresses: the layers, what the checksums are found by and what is behind the
-- header are the same.
pub record Readdressed (packet : Packet) (l : Layer) (after : Packet) : Type 0 where
  pub four : Ipv4Packet after l
  pub roomy : Roomy after
  pub bounds : segment_bounds after ≡ segment_bounds packet
  pub len : length after.bytes ≡ length packet.bytes
  pub transport : outer_transport after ≡ outer_transport packet
  pub fragment : info_fragment (read_info after) ≡ info_fragment (read_info packet)
  pub behind : KeptBehind (l.offset + l.len) packet.bytes after.bytes

module _ (packet : Packet) (l : Layer) (four : Ipv4Packet packet l) (roomy : Roomy packet) where
  Readdressed-same : Readdressed packet l packet
  Readdressed-same = record {
    four = four;
    roomy = roomy;
    bounds = refl;
    len = refl;
    transport = refl;
    fragment = refl;
    behind = λ start n h. refl;
  }

  Readdressed-apply : (targets : Targets) → Readdressed packet l (apply_targets targets packet)
  Readdressed-apply targets =
      let applied = apply_targets-Applied packet l four roomy targets in
      let after : Packet = record packet { bytes = applied.bytes } in
      let also : Ipv4Packet after l =
        rw applied.is at (apply_targets-Ipv4Packet packet l four roomy targets) in
      let front = λ (spec : FieldSpec) (start : ℕ) (h : start + spec.size ≤ 10).
        applied.front spec start (omega arith) in
      record {
        four = apply_targets-Ipv4Packet packet l four roomy targets;
        roomy = apply_targets-Roomy packet l four roomy targets;
        bounds =
            rw applied.is (same_bounds packet l four applied.bytes applied.same_len front also);
        len = rw applied.is applied.same_len;
        transport =
            rw applied.is (same_transport packet l four applied.bytes applied.same_len front also);
        fragment =
            rw applied.is (fragment_kept packet l four applied.bytes applied.same_len front also);
        behind = λ start n h. rw applied.is (applied.behind start n h);
      }

pub Readdressed-trans :
    (packet : Packet) (l : Layer) (middle after : Packet)
    → Readdressed packet l middle
    → Readdressed middle l after
    → Readdressed packet l after
Readdressed-trans packet l middle after one two = record {
  four = two.four;
  roomy = two.roomy;
  bounds = two.bounds ∙ one.bounds;
  len = two.len ∙ one.len;
  transport = two.transport ∙ one.transport;
  fragment = two.fragment ∙ one.fragment;
  behind = λ start n h. two.behind start n h ∙ one.behind start n h;
}

module _ (n : Nets) (r : Random) (packet : Packet) (l : Layer) (four : Ipv4Packet packet l)
    (roomy : Roomy packet) where
  pub rewrite_direct-Readdressed :
      (rewriter : Rewriter n.Net r.Rng)
      → Readdressed packet l ((rewrite_direct n r rewriter packet).0.1)
  unfolding rewrite_direct
  rewrite_direct-Readdressed rewriter = elim (Option-cases rewriter.direct) [
    | inl no_maps ↦ rw (no_maps, rewrite_direct) (Readdressed-same packet l four roomy)
    | inr (maps, some_maps) ↦
        let header = bytes_in packet.bytes l in
        let (drawn, rng) = direct_targets n r maps (address_v4 12 header) (address_v4 16 header) in
        rw (some_maps, rewrite_direct)
          (rw (direct_rewrite-apply n r maps packet l four roomy drawn rng refl)
            (Readdressed-apply packet l four roomy drawn))
  ]

  pub rewrite_flow-Readdressed :
      (rewriter later : Rewriter n.Net r.Rng) (group : ℕ) (changed : Bool) (after : Packet)
      → rewrite_flow n r rewriter group packet ≡ some ((changed, after), later)
      → Readdressed packet l after
  unfolding rewrite_flow
  rewrite_flow-Readdressed rewriter later group changed after h =
      elim (Option-cases rewriter.flow) [
        | inl no_flow ↦
            let e : some ((false, packet), rewriter) ≡ some ((changed, after), later) =
              rw (no_flow, rewrite_flow) at h in
            subst (λ (p : Packet). Readdressed packet l p) (pieces e).1
              (Readdressed-same packet l four roomy)
        | inr (state, some_flow) ↦
            elim (Option-cases (rewrite n r state group (read_info packet))) [
              | inl panics ↦
                  let e : none ≡ some ((changed, after), later) =
                    rw (some_flow, panics, rewrite_flow) at h in
                  absurd (cc)
              | inr (((drawn, written), next), drawn_is) ↦
                  let e : some (
                    (written, apply_targets drawn packet),
                    record rewriter { flow = some next },
                  )
                      ≡ some ((changed, after), later) =
                    rw (some_flow, drawn_is, rewrite_flow) at h in
                  subst (λ (p : Packet). Readdressed packet l p) (pieces e).1
                    (Readdressed-apply packet l four roomy drawn)
            ]
      ]
