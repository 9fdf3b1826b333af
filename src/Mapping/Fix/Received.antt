-- ===== src/Mapping/Fix/Received.antt =====
-- What the receiver of an IPv4 packet finds after `fix_checksums` of tools/maja-mergecap/src/map.rs,
-- whether or not `transport_segment` of map/packet.rs there finds a segment in it.
use maja.Base.{
  ℕ, ◌+◌, ◌≤◌, ◌≡◌, refl, ◌∙◌, inl, inr, true, false, Option, Option-cases, Bool-cases, none, some,
  List, arith, ◌==◌, leb, ◌&&◌, length,
}
use maja.Protocol.{Protocol}
use maja.Protocol.IpProtocol
use maja.Context.{Layer, slice, get_range}
use maja.Packet.{Packet}
use maja.Validate.{ipv4_validate_checksum, ipv4_calculate_checksum}
use maja.Validate.Store.{take-drop-store_behind}
use maja.Mapping.Envelope.{bytes_in, outer_viewer, outer_transport, read_info}
use maja.Mapping.Segment.{segment_bounds, transport_segment}
use maja.Mapping.Fix.{
  info_fragment, udp_disabled, fix_segment, fix_protocol_v4, fix_transport_v4, fix_checksums,
}
use maja.Mapping.Fix.Writes.{Roomy, Ipv4Packet}
use maja.Mapping.Fix.Header.{with_header, fix_checksums-header}
use maja.Mapping.Fix.Segment.{segment_valid, segment_min, in_use}
use maja.Mapping.Fix.Valid.{
  fix_checksums-valid, fix_checksums-transport, with_header-bounds, length-middle,
}

-- What stands from a place to the end of a packet.
abbrev pub tail : ℕ → Packet → List ℕ
tail place packet = slice packet.bytes place (length packet.bytes)

-- A segment, if there is one, has its fixed header.
abbrev pub Complete : ℕ → Option (List ℕ) → Type 0
Complete protocol none = Unit
Complete protocol (some segment) = segment_min protocol ≤ length segment

-- What stands behind the header, at `place`, is received of a packet, `after`, with these addresses:
-- a segment is valid, and has a checksum where it had one. Where there is no segment, there is none
-- afterwards either, and everything behind the header is as before.
abbrev pub Received : ℕ → ℕ → List ℕ → List ℕ → Packet → Packet → Option (List ℕ) → Type 0
Received protocol place src dst packet after none =
    (transport_segment after ≡ none) × (tail place after ≡ tail place packet)
Received protocol place src dst packet after (some segment) =
    (carried : List ℕ) × (transport_segment after ≡ some carried)
    × (segment_valid protocol src dst carried ≡ true)
    × (in_use protocol carried ≡ in_use protocol segment)

get_range-none :
    (bytes other : List ℕ) (start stop : ℕ)
    → length other ≡ length bytes
    → get_range bytes start stop ≡ none
    → get_range other start stop ≡ none
get_range-none bytes other start stop same h =
    elim (Bool-cases (leb start stop && leb stop (length bytes))) [
      | inl inside ↦ let e = rw inside at h in absurd (cc)
      | inr outside ↦ rw (same, outside) refl
    ]

pub no_segment :
    (packet other : Packet)
    → segment_bounds other ≡ segment_bounds packet
    → length other.bytes ≡ length packet.bytes
    → transport_segment packet ≡ none
    → transport_segment other ≡ none
unfolding transport_segment
no_segment packet other bounds_same len_same h = elim (Option-cases (segment_bounds packet)) [
  | inl nowhere ↦ rw (bounds_same, nowhere, transport_segment) refl
  | inr ((start, stop), bounds) ↦
      rw (bounds_same, bounds, transport_segment)
        (get_range-none packet.bytes other.bytes start stop len_same
          (rw (bounds, transport_segment) at h))
]

-- Without a segment no checksum is written.
fix_protocol_v4-none :
    (packet : Packet) (protocol : ℕ) (src dst : List ℕ)
    → transport_segment packet ≡ none
    → fix_protocol_v4 protocol src dst packet ≡ packet
unfolding fix_protocol_v4 fix_segment
fix_protocol_v4-none packet protocol src dst h = elim (Bool-cases (protocol == IpProtocol.tcp)) [
  | inl is_tcp ↦ rw (is_tcp, h, fix_protocol_v4, fix_segment) refl
  | inr no_tcp ↦ elim (Bool-cases (protocol == IpProtocol.udp)) [
    | inr no_udp ↦ rw (no_tcp, no_udp, fix_protocol_v4) refl
    | inl is_udp ↦ elim (Bool-cases (udp_disabled (outer_viewer packet Protocol.udp))) [
      | inl disabled ↦ rw (no_tcp, is_udp, disabled, fix_protocol_v4) refl
      | inr one ↦ rw (no_tcp, is_udp, one, h, fix_protocol_v4, fix_segment) refl
    ]
  ]
]

fix_transport_v4-none :
    (packet : Packet) → transport_segment packet ≡ none → fix_transport_v4 packet ≡ packet
unfolding fix_transport_v4
fix_transport_v4-none packet h = elim (Option-cases (outer_transport packet)) [
  | inl none_there ↦ rw (none_there, fix_transport_v4) refl
  | inr (protocol, is_transport) ↦ elim (Option-cases (outer_viewer packet Protocol.ipv4)) [
    | inl no_header ↦ rw (is_transport, no_header, fix_transport_v4) refl
    | inr (header, viewed) ↦
        rw (is_transport, viewed, fix_transport_v4)
          (fix_protocol_v4-none packet protocol (slice header 12 16) (slice header 16 20) h)
  ]
]

module _ (packet : Packet) (l : Layer) (four : Ipv4Packet packet l) (roomy : Roomy packet)
    {protocol : ℕ} (whole : info_fragment (read_info packet) ≡ false)
    (is_transport : outer_transport packet ≡ some protocol) where
  abbrev middle : Packet
  middle = with_header packet l four roomy

  no_segment-fixed : transport_segment packet ≡ none → fix_checksums packet ≡ middle
  no_segment-fixed h =
      fix_checksums-transport packet l four roomy whole
      ∙ fix_transport_v4-none middle (
          no_segment packet middle (with_header-bounds packet l four roomy)
            (length-middle packet l four roomy) h)

  tail-middle : tail (l.offset + l.len) middle ≡ tail (l.offset + l.len) packet
  tail-middle =
      let (fixed, within) = roomy Protocol.ipv4 l four.here in
      rw (length-middle packet l four roomy) (
        take-drop-store_behind (l.offset + 10) (l.offset + l.len) _
          (ipv4_calculate_checksum (bytes_in packet.bytes l)) packet.bytes (omega arith) within)

  -- An IPv4 packet that is no fragment, whose outermost layers lie in it and whose segment has its
  -- fixed header, if there is one, is received with a valid header.
  pub fix_checksums-Received :
      (before : Option (List ℕ))
      → transport_segment packet ≡ before
      → Complete protocol before
      → (header : List ℕ) × (outer_viewer (fix_checksums packet) Protocol.ipv4 ≡ some header)
        × (ipv4_validate_checksum header ≡ true)
        × Received protocol
            (l.offset + l.len)
            (slice header 12 16)
            (slice header 16 20)
            packet
            (fix_checksums packet)
            before
  fix_checksums-Received none h complete =
      let (viewed, valid) = fix_checksums-header packet l four roomy in
      let fixed = no_segment-fixed h in
      let without =
        no_segment packet middle (with_header-bounds packet l four roomy)
          (length-middle packet l four roomy) h in
      (_, viewed, valid, (rw fixed without, rw fixed tail-middle))
  fix_checksums-Received (some segment) h complete =
      let (header, viewed, valid, carried, is, checked, used) =
        fix_checksums-valid packet l four roomy whole is_transport h complete in
      (header, viewed, valid, (carried, is, checked, used))
