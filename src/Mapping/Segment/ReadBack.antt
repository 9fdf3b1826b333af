-- ===== src/Mapping/Segment/ReadBack.antt =====
-- What `PacketInfo::read` of tools/maja-mergecap/src/map/packet.rs reads after `apply_targets`.
use mathlib.Core.Option.{some-injective}
use maja.Base.{ℕ, ◌≡◌, refl, sym, ap, ◌∙◌, Option, none, some, List, arith}
use maja.Field.{whole}
use maja.Protocol.{Protocol}
use maja.Context.{Layer}
use maja.Layers.{field}
use maja.Packet.{Packet}
use maja.Mapping.{IpAddr, ipv4, ipv6}
use maja.Mapping.Session.{Targets, PacketInfo}
use maja.Mapping.Envelope.{bytes_in, info_of, info_of_ipv4, read_info, address_v4, protocol_field}
use maja.Mapping.Segment.{apply_targets}
use maja.Mapping.Segment.Applied.{Narrow, new_v4, apply_targets-Applied, apply_targets-Ipv4Packet}
use maja.Mapping.Segment.Bounds.{outer_viewer-some}
use maja.Mapping.Fix.Writes.{Roomy, Ipv4Packet}

-- The address of an endpoint of an IPv4 packet afterwards: its target, if that is of the family.
abbrev pub address_after : Option IpAddr → IpAddr → IpAddr
address_after (some (ipv4 addr)) old = ipv4 addr
address_after _ old = old

address_new :
    (target : Option IpAddr) (old : ℕ) → ipv4 (new_v4 target old) ≡ address_after target (ipv4 old)
address_new none old = refl
address_new (some (ipv4 _)) old = refl
address_new (some (ipv6 _)) old = refl

module _ (packet : Packet) (l : Layer) (four : Ipv4Packet packet l) where
  read_info-v4 : read_info packet ≡ some (info_of_ipv4 packet (bytes_in packet.bytes l))
  unfolding read_info info_of
  read_info-v4 =
      rw (four.family, outer_viewer-some packet Protocol.ipv4 four.here, read_info, info_of) refl

  fields_of_info :
      (header : List ℕ)
      → ((info_of_ipv4 packet header).src ≡ address_v4 12 header)
        × ((info_of_ipv4 packet header).dst ≡ address_v4 16 header)
        × ((info_of_ipv4 packet header).proto ≡ protocol_field header)
  unfolding info_of_ipv4
  fields_of_info header = (refl, refl, refl)

module _ (packet : Packet) (l : Layer) (four : Ipv4Packet packet l) (roomy : Roomy packet) where
  -- Of an IPv4 packet whose layers lie in it with their fixed headers, the IPv4 layer as long as
  -- the header says, and targets that are addresses: what is read after the targets are applied
  -- has the IPv4 targets as its addresses, those from before where a target is missing or of the
  -- other family, and the protocol from before.
  pub read_info-apply_targets :
      (targets : Targets) (info : PacketInfo)
      → Narrow targets.src
      → Narrow targets.dst
      → read_info packet ≡ some info
      → (after : PacketInfo) × (read_info (apply_targets targets packet) ≡ some after)
        × (after.src ≡ address_after targets.src info.src)
        × (after.dst ≡ address_after targets.dst info.dst)
        × (after.proto ≡ info.proto)
  read_info-apply_targets targets info narrow_src narrow_dst reads =
      let applied = apply_targets-Applied packet l four roomy targets in
      let later : Packet = record packet { bytes = applied.bytes } in
      let also : Ipv4Packet later l =
        rw applied.is at (apply_targets-Ipv4Packet packet l four roomy targets) in
      let header = bytes_in packet.bytes l in
      let written = bytes_in applied.bytes l in
      let same : info_of_ipv4 packet header ≡ info =
        some-injective _ _ (sym (read_info-v4 packet l four) ∙ reads) in
      let (src_is, dst_is, proto_is) = fields_of_info packet l four header in
      let (new_src, new_dst, new_proto) = fields_of_info later l also written in
      (
        info_of_ipv4 later written,
        rw applied.is (read_info-v4 later l also),
        new_src
            ∙ ap ipv4 (applied.src narrow_src)
            ∙ address_new targets.src (field (whole 4) 12 header)
            ∙ ap (address_after targets.src) (sym src_is ∙ ap (λ (i : PacketInfo). i.src) same),
        new_dst
            ∙ ap ipv4 (applied.dst narrow_dst)
            ∙ address_new targets.dst (field (whole 4) 16 header)
            ∙ ap (address_after targets.dst) (sym dst_is ∙ ap (λ (i : PacketInfo). i.dst) same),
        new_proto
            ∙ applied.front (record { size = 1; mask = 0xFF; shift = 0 }) 9 (omega arith)
            ∙ sym proto_is
            ∙ ap (λ (i : PacketInfo). i.proto) same,
      )
