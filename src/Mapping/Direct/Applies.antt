-- ===== src/Mapping/Direct/Applies.antt =====
-- The direct maps of tools/maja-mergecap/src/map/entry.rs, on an IPv4 packet, as `apply_targets` of
-- the targets that they draw.
use maja.Base.{◌≡◌, refl, ap, ◌∙◌, ◌||◌, inr, Bool, some, arith}
use maja.Field.{whole}
use maja.Protocol.{Protocol}
use maja.Context.{Layer}
use maja.Packet.{Packet}
use maja.Mapping.{IpAddr, ipv4, Random, Nets}
use maja.Mapping.Session.{Targets}
use maja.Mapping.Envelope.{bytes_in, outer_layer, outer_viewer, address_v4}
use maja.Mapping.Segment.{set_v4, apply_in, apply_targets}
use maja.Mapping.Segment.Applied.{set_v4-WroteAt}
use maja.Mapping.Segment.Bounds.{outer_viewer-some}
use maja.Mapping.Fix.Writes.{Roomy, Ipv4Packet}
use maja.Mapping.Direct.{DirectMaps, direct_target, direct_v4, direct_in, direct_rewrite, is_v4}

module _ (n : Nets) (r : Random) (maps : DirectMaps n.Net r.Rng) where
  -- The targets of both addresses, the source's drawn first, and the generator afterwards.
  unfoldable pub direct_targets : IpAddr → IpAddr → Targets × r.Rng
  unfolding direct_target
  direct_targets src dst =
      let (src, rng) = direct_target n r maps.src_map src maps.rng in
      let (dst, rng) = direct_target n r maps.dst_map dst rng in
      (record { src = src; dst = dst }, rng)

  -- What is written for targets.
  abbrev given : Packet → Targets × r.Rng → (Bool × Packet) × DirectMaps n.Net r.Rng
  unfolding apply_targets
  given packet (drawn, rng) = (
    (is_v4 n r drawn.src || is_v4 n r drawn.dst, apply_targets drawn packet),
    record maps { rng = rng },
  )

  module _ (packet : Packet) (l : Layer) (four : Ipv4Packet packet l) (roomy : Roomy packet) where
    -- On an IPv4 packet whose layers lie in it with their fixed headers, the IPv4 layer as long as
    -- the header says, the direct maps write what apply_targets writes for the targets that they
    -- draw for the two addresses that the packet has before, the source's first; they report a
    -- change where one of these is an IPv4 address, and keep the generator.
    pub direct_rewrite-apply :
        (drawn : Targets) (rng : r.Rng)
        → direct_targets
            (address_v4 12 (bytes_in packet.bytes l))
            (address_v4 16 (bytes_in packet.bytes l))
          ≡ (drawn, rng)
        → direct_rewrite n r maps packet ≡ (
          (is_v4 n r drawn.src || is_v4 n r drawn.dst, apply_targets drawn packet),
          record maps { rng = rng },
        )
    unfolding direct_rewrite direct_in direct_v4 apply_targets apply_in direct_targets outer_layer
        given
    direct_rewrite-apply drawn rng is =
        let header = bytes_in packet.bytes l in
        let (long, within) = roomy Protocol.ipv4 l four.here in
        let src = (direct_target n r maps.src_map (address_v4 12 header) maps.rng).0 in
        let one = set_v4-WroteAt packet l four.here 12 (omega arith) within src in
        let middle : Packet = record packet { bytes = one.bytes } in
        let viewed : outer_viewer (set_v4 12 src packet) Protocol.ipv4
            ≡ some (bytes_in one.bytes l) =
          rw one.is (outer_viewer-some middle Protocol.ipv4 four.here) in
        let same : address_v4 16 (bytes_in one.bytes l) ≡ address_v4 16 header =
          ap ipv4 (one.elsewhere (whole 4) 16 (omega arith) (inr (omega arith))) in
        let result : direct_rewrite n r maps packet
            ≡ given packet (direct_targets (address_v4 12 header) (address_v4 16 header)) =
          rw
            (
              four.family,
              outer_viewer-some packet Protocol.ipv4 four.here,
              viewed,
              same,
              direct_rewrite,
              direct_in,
              direct_v4,
              apply_targets,
              apply_in,
              direct_targets,
            )
            refl in
        result ∙ ap (given packet) is
