-- ===== src/Mapping/Fix/Same.antt =====
-- What the checksum of the header leaves as it was: what tools/maja-mergecap/src/map/packet.rs reads.
use mathlib.Core.Path.{ap₂}
use maja.Base.{
  ℕ, ◌+◌, ◌≤◌, ◌≡◌, refl, sym, ap, ◌∙◌, inl, inr, Bool-cases, ◌*◌, some, List, arith, length,
}
use maja.Field.{FieldSpec, whole}
use maja.Protocol.{Protocol}
use maja.Context.{Layer}
use maja.Layers.{field}
use maja.Packet.{Packet}
use maja.Validate.{ipv4_header_len}
use maja.Mapping.{v4}
use maja.Mapping.Envelope.{
  bytes_in, outer_layer, outer_transport, transport_of, protocol_field, ipv4_fragment, read_info,
  info_of, info_of_ipv4, fragment_of,
}
use maja.Mapping.Segment.{extent, extent_of, segment_bounds}
use maja.Mapping.Segment.Bounds.{outer_viewer-some}
use maja.Mapping.Fix.{info_fragment}
use maja.Mapping.Fix.Writes.{Ipv4Packet}

module _ (packet : Packet) (l : Layer) (four : Ipv4Packet packet l) where
  outer_transport-v4 : outer_transport packet ≡ some (protocol_field (bytes_in packet.bytes l))
  unfolding outer_transport transport_of
  outer_transport-v4 =
      rw
        (
          four.family,
          outer_viewer-some packet Protocol.ipv4 four.here,
          outer_transport,
          transport_of,
        )
        refl

  pub info_fragment-v4 : info_fragment (read_info packet) ≡ ipv4_fragment (bytes_in packet.bytes l)
  unfolding read_info info_of info_of_ipv4
  info_fragment-v4 =
      let header = bytes_in packet.bytes l in
      let viewed = outer_viewer-some packet Protocol.ipv4 four.here in
      elim (Bool-cases (ipv4_fragment header)) [
        | inl part ↦ rw (four.family, viewed, part, read_info, info_of, info_of_ipv4) refl
        | inr whole ↦ rw (four.family, viewed, whole, read_info, info_of, info_of_ipv4) refl
      ]

  extent-v4_is :
      extent packet v4
      ≡ extent_of l.offset
          (ipv4_header_len (bytes_in packet.bytes l))
          (field (whole 2) 2 (bytes_in packet.bytes l))
  unfolding extent
  extent-v4_is = rw (four.here, outer_viewer-some packet Protocol.ipv4 four.here, extent) refl

-- The fields of a header in front of the checksum are the same.
abbrev pub SameFront : List ℕ → List ℕ → Type 0
SameFront before after =
    (spec : FieldSpec) (start : ℕ)
    → start + spec.size ≤ 10
    → field spec start after ≡ field spec start before

-- Two packets with the same layers, of the same length, whose headers have the same front.
module _ (packet : Packet) (l : Layer) (four : Ipv4Packet packet l) (bytes : List ℕ)
    (same_len : length bytes ≡ length packet.bytes)
    (same_field : SameFront (bytes_in packet.bytes l) (bytes_in bytes l))
    (also : Ipv4Packet (record packet { bytes = bytes }) l) where
  abbrev other : Packet
  other = record packet { bytes = bytes }

  pub same_transport : outer_transport other ≡ outer_transport packet
  same_transport =
      outer_transport-v4 other l also
      ∙ ap some (same_field (record { size = 1; mask = 0xFF; shift = 0 }) 9 (omega arith))
      ∙ sym (outer_transport-v4 packet l four)

  pub fragment_kept : info_fragment (read_info other) ≡ info_fragment (read_info packet)
  fragment_kept =
      info_fragment-v4 other l also
      ∙ ap₂ fragment_of (same_field (record { size = 2; mask = 0x1FFF; shift = 0 }) 6 (omega arith))
          (same_field (record { size = 1; mask = 0xE0; shift = 5 }) 6 (omega arith))
      ∙ sym (info_fragment-v4 packet l four)

  same_extent : extent other v4 ≡ extent packet v4
  same_extent =
      extent-v4_is other l also
      ∙ ap₂ (extent_of l.offset)
          (ap (λ (n : ℕ). n * 4)
            (same_field (record { size = 1; mask = 0x0F; shift = 0 }) 0 (omega arith)))
          (same_field (whole 2) 2 (omega arith))
      ∙ sym (extent-v4_is packet l four)

  pub same_bounds : segment_bounds other ≡ segment_bounds packet
  unfolding segment_bounds outer_layer
  same_bounds =
      rw (also.family, same_extent, same_transport, same_len, segment_bounds)
        (rw (four.family, segment_bounds) refl)
