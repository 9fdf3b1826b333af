-- ===== src/Mapping/Fix/Valid.antt =====
-- An IPv4 packet after `fix_checksums` of tools/maja-mergecap/src/map.rs, as its receiver sees it.
use maja.Base.{
  ℕ, ◌+◌, ◌-◌, ◌≤◌, ◌≡◌, ◌==◌, refl, sym, ap, ◌∙◌, Bool, true, false, Option-cases, inl, inr, none,
  some, List, arith, length,
}
use maja.Layers.{field}
use maja.Protocol.{Protocol}
use maja.Context.{Layer, slice, get_range}
use maja.Packet.{Packet}
use maja.Validate.{stored, store, ipv4_validate_checksum, ipv4_header_len, ipv4_calculate_checksum}
use maja.Validate.Store.{length-store, field-store, take-drop-store_behind}
use maja.Mapping.Envelope.{
  bytes_in, outer_layer, outer_viewer, outer_ip_family, outer_transport, read_info,
}
use maja.Mapping.Segment.{segment_bounds, transport_segment}
use maja.Mapping.Fix.{fix_in, unless_fragment, info_fragment, fix_checksums, fix_transport_v4}
use maja.Mapping.Fix.Behind.{bytes_in-Behind, length-Behind}
use maja.Mapping.Fix.Writes.{Roomy, Ipv4Packet, segment_bounds-behind}
use maja.Mapping.Fix.Header.{
  length-bytes_in, with_header, fix_header-some, header-headed, with_header-Ipv4Packet,
  with_header-Roomy, fix_checksums-Behind, fix_checksums-header,
}
use maja.Mapping.Fix.Slice.{get_range-some, some-get_range, length-slice}
use maja.Mapping.Fix.Segment.{
  segment_valid, segment_min, in_use, in_use-same, udp_layer_of, fix_transport_v4-valid,
  fix_transport_v4-in_use,
}
use maja.Mapping.Fix.Same.{SameFront, same_transport, fragment_kept, same_bounds}

pub transport_segment-bounds :
    (packet : Packet) {segment : List ℕ}
    → transport_segment packet ≡ some segment
    → (start : ℕ) × (stop : ℕ) × (segment_bounds packet ≡ some (start, stop))
      × (get_range packet.bytes start stop ≡ some segment)
unfolding transport_segment
transport_segment-bounds packet {segment} h = elim (Option-cases (segment_bounds packet)) [
  | inl nowhere ↦ let e : none ≡ some segment = rw (nowhere, transport_segment) at h in absurd (cc)
  | inr ((start, stop), bounds) ↦ (start, stop, bounds, rw (bounds, transport_segment) at h)
]

module _ (packet : Packet) (l : Layer) (four : Ipv4Packet packet l) (roomy : Roomy packet) where
  abbrev checksum : ℕ
  checksum = ipv4_calculate_checksum (bytes_in packet.bytes l)

  abbrev middle : Packet
  middle = with_header packet l four roomy

  also : Ipv4Packet middle l
  also = with_header-Ipv4Packet packet l four roomy

  long : 20 ≤ length (bytes_in packet.bytes l)
  long =
      let (fixed, within) = roomy Protocol.ipv4 l four.here in
      omega (arith, length-bytes_in packet.bytes l within)

  pub length-middle : length middle.bytes ≡ length packet.bytes
  length-middle =
      let (fixed, within) = roomy Protocol.ipv4 l four.here in
      length-store (l.offset + 10) checksum packet.bytes (omega arith)

  -- The header afterwards.
  abbrev fixed_header : List ℕ
  fixed_header = store 10 checksum (bytes_in packet.bytes l)

  front :
      (bytes : List ℕ)
      → bytes_in bytes l ≡ fixed_header
      → SameFront (bytes_in packet.bytes l) (bytes_in bytes l)
  front bytes same spec start h =
      ap (field spec start) same
      ∙ field-store spec start 10 checksum (bytes_in packet.bytes l) h (omega (arith, long))

  -- The addresses are behind the checksum.
  same_slice :
      (start stop : ℕ)
      → 12 ≤ start
      → start ≤ 20
      → slice fixed_header start stop ≡ slice (bytes_in packet.bytes l) start stop
  same_slice start stop h k =
      take-drop-store_behind 10 start (stop - start) checksum (bytes_in packet.bytes l)
        (omega arith) (omega (arith, long))

  middle_front : SameFront (bytes_in packet.bytes l) (bytes_in middle.bytes l)
  middle_front = front middle.bytes (header-headed packet l four roomy)

  pub with_header-bounds : segment_bounds middle ≡ segment_bounds packet
  with_header-bounds = same_bounds packet l four middle.bytes length-middle middle_front also

  -- The bounds of the segment are those of the packet as it was.
  fix_checksums-bounds : segment_bounds (fix_checksums packet) ≡ segment_bounds packet
  unfolding outer_ip_family outer_layer
  fix_checksums-bounds =
      let (bytes, is, behind) = fix_checksums-Behind packet l four roomy in
      let kept = bytes_in-Behind (l.offset + l.len) middle.bytes bytes l (omega arith) behind in
      rw is (
        same_bounds packet l four bytes
          (length-Behind (l.offset + l.len) middle.bytes bytes behind ∙ length-middle)
          (front bytes (kept ∙ header-headed packet l four roomy))
          (record {
            family = four.family;
            here = four.here;
            exact = ap ipv4_header_len kept ∙ also.exact;
          }))

  fix_checksums-v4 :
      fix_checksums packet ≡ unless_fragment (info_fragment (read_info middle)) middle
  unfolding fix_checksums fix_in
  fix_checksums-v4 =
      rw (four.family, fix_header-some packet l four roomy, fix_checksums, fix_in) refl

  unless_fragment-false : unless_fragment false middle ≡ fix_transport_v4 middle
  unfolding unless_fragment
  unless_fragment-false = refl

  pub fix_checksums-transport :
      info_fragment (read_info packet) ≡ false → fix_checksums packet ≡ fix_transport_v4 middle
  fix_checksums-transport whole =
      fix_checksums-v4
      ∙ ap (λ (b : Bool). unless_fragment b middle)
          (fragment_kept packet l four middle.bytes length-middle middle_front also ∙ whole)
      ∙ unless_fragment-false

  module _ {protocol : ℕ} {segment : List ℕ} (whole : info_fragment (read_info packet) ≡ false)
      (is_transport : outer_transport packet ≡ some protocol)
      (has_segment : transport_segment packet ≡ some segment)
      (complete : segment_min protocol ≤ length segment) where
    -- The checksum of the header is in front of the segment.
    headed_segment :
        {start stop : ℕ}
        → segment_bounds packet ≡ some (start, stop)
        → start ≤ stop
        → stop ≤ length packet.bytes
        → in_use protocol (slice middle.bytes start stop)
          ≡ in_use protocol (slice packet.bytes start stop)
    headed_segment {start} {stop} bounds ordered within =
        in_use-same protocol (slice packet.bytes start stop) (slice middle.bytes start stop)
          (λ is_udp.
            let (udp, there, same, behind) =
              segment_bounds-behind packet l four roomy is_transport (udp_layer_of protocol is_udp)
                bounds in
            let (fixed, inside) = roomy Protocol.ipv4 l four.here in
            ap (λ (b : List ℕ). stored 6 b == 0)
              (take-drop-store_behind (l.offset + 10) start (stop - start) checksum packet.bytes
                (omega arith) (omega arith)))

    segment_after :
        (after : List ℕ) × (transport_segment (fix_checksums packet) ≡ some after)
        × (segment_valid protocol
              (slice (bytes_in middle.bytes l) 12 16)
              (slice (bytes_in middle.bytes l) 16 20)
              after
            ≡ true)
        × (in_use protocol after ≡ in_use protocol segment)
    unfolding transport_segment
    segment_after =
        let (start, stop, bounds, range) = transport_segment-bounds packet has_segment in
        let (ordered, within, segment_is) = get_range-some packet.bytes start stop range in
        let wide : length segment ≡ stop - start =
          ap length segment_is ∙ length-slice packet.bytes start stop ordered within in
        let (bytes, is, behind) = fix_checksums-Behind packet l four roomy in
        let same_len : length bytes ≡ length packet.bytes =
          length-Behind (l.offset + l.len) middle.bytes bytes behind ∙ length-middle in
        (
          slice ((fix_checksums packet).bytes) start stop,
          rw (fix_checksums-bounds, bounds, transport_segment)
              (some-get_range ((fix_checksums packet).bytes) start stop ordered
                (rw is (omega arith))),
          rw (fix_checksums-transport whole) (
              fix_transport_v4-valid middle l also (with_header-Roomy packet l four roomy) start
                stop (with_header-bounds ∙ bounds) ordered (omega (arith, length-middle))
                (same_transport packet l four middle.bytes length-middle middle_front also
                  ∙ is_transport)
                (omega arith)),
          rw (fix_checksums-transport whole) (
              fix_transport_v4-in_use middle l also (with_header-Roomy packet l four roomy) start
                stop (with_header-bounds ∙ bounds) ordered (omega (arith, length-middle))
                (same_transport packet l four middle.bytes length-middle middle_front also
                  ∙ is_transport)
                (omega arith)
              ∙ headed_segment bounds ordered within
              ∙ ap (in_use protocol) (sym segment_is)),
        )

    -- An IPv4 packet that is no fragment, whose outermost layers lie in it and whose segment has its
    -- fixed header, is valid afterwards, as its receiver checks it: the header, and the segment with
    -- the addresses of the header; and the segment has a checksum where it had one.
    pub fix_checksums-valid :
        (header : List ℕ) × (outer_viewer (fix_checksums packet) Protocol.ipv4 ≡ some header)
        × (ipv4_validate_checksum header ≡ true)
        × (after : List ℕ) × (transport_segment (fix_checksums packet) ≡ some after)
        × (segment_valid protocol (slice header 12 16) (slice header 16 20) after ≡ true)
        × (in_use protocol after ≡ in_use protocol segment)
    fix_checksums-valid =
        let (after, is, valid, used) = segment_after in
        let (viewed, header_valid) = fix_checksums-header packet l four roomy in
        (
          fixed_header,
          viewed,
          header_valid,
          after,
          is,
          rw⁻¹ (header-headed packet l four roomy) valid,
          used,
        )
