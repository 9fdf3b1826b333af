-- ===== src/Mapping/Fix/Segment.antt =====
-- The transport segment of an IPv4 packet after `fix_checksums` of tools/maja-mergecap/src/map.rs.
use maja.Base.{
  ℕ, ◌+◌, ◌-◌, ◌≤◌, ◌≡◌, refl, sym, ap, ◌∙◌, inl, inr, not, Bool, true, false, Bool-cases, some,
  List, arith, ◌==◌, if◌then◌else◌, length, drop,
}
use maja.Field.{whole}
use maja.Protocol.{Protocol}
use maja.Protocol.IpProtocol
use maja.Context.{Layer, slice}
use maja.Packet.{Packet}
use maja.Validate.{
  stored, tcp_calculate_checksum_ipv4, tcp_validate_checksum_ipv4, udp_calculate_checksum_ipv4,
  udp_validate_checksum_ipv4,
}
use maja.Validate.Store.{field-take}
use maja.Validate.Stored.{
  tcp_validate_checksum-store, udp_validate_checksum-store, udp_validate_checksum-disabled,
  udp_calculate_checksum-in_use,
}
use maja.Mapping.Envelope.{bytes_in, outer_layer, outer_viewer, outer_transport}
use maja.Mapping.Segment.{segment_bounds, transport_layer}
use maja.Mapping.Segment.Bounds.{outer_viewer-some}
use maja.Mapping.Fix.{udp_disabled, fix_protocol_v4, fix_transport_v4}
use maja.Mapping.Fix.Slice.{length-slice, fix_segment-slice}
use maja.Mapping.Fix.Writes.{Roomy, Ipv4Packet, segment_bounds-behind}

-- What a receiver checks of a segment.
abbrev pub segment_valid : ℕ → List ℕ → List ℕ → List ℕ → Bool
segment_valid protocol src dst segment =
    if protocol == IpProtocol.tcp
    then tcp_validate_checksum_ipv4 src dst segment
    else if protocol == IpProtocol.udp
    then udp_validate_checksum_ipv4 src dst segment
    else true

-- Whether the checksum of a segment is one: zero stands for none in UDP.
abbrev pub in_use : ℕ → List ℕ → Bool
in_use protocol segment = if protocol == IpProtocol.udp then not (stored 6 segment == 0) else true

pub in_use-same :
    (protocol : ℕ) (segment other : List ℕ)
    → ((protocol == IpProtocol.udp) ≡ true → (stored 6 other == 0) ≡ (stored 6 segment == 0))
    → in_use protocol other ≡ in_use protocol segment
in_use-same protocol segment other same = elim (Bool-cases (protocol == IpProtocol.udp)) [
  | inl is_udp ↦ rw is_udp (ap not (same is_udp))
  | inr no_udp ↦ rw no_udp refl
]

no_tcp_in_udp :
    (protocol : ℕ) → (protocol == IpProtocol.udp) ≡ true → (protocol == IpProtocol.tcp) ≡ false
no_tcp_in_udp protocol is_udp = ground arith

pub udp_layer_of :
    (protocol : ℕ)
    → (protocol == IpProtocol.udp) ≡ true
    → transport_layer protocol ≡ some Protocol.udp
udp_layer_of protocol is_udp = rw (no_tcp_in_udp protocol is_udp, is_udp) refl

abbrev pub segment_min : ℕ → ℕ
segment_min protocol =
    if protocol == IpProtocol.tcp then 20 else if protocol == IpProtocol.udp then 8 else 0

module _ (packet : Packet) (l : Layer) (four : Ipv4Packet packet l) (roomy : Roomy packet)
    (start stop : ℕ) (bounds : segment_bounds packet ≡ some (start, stop)) (within : start ≤ stop)
    (inside : stop ≤ length packet.bytes) where
  abbrev here : List ℕ
  here = slice packet.bytes start stop

  stored-here :
      {udp : Layer}
      → outer_layer packet Protocol.udp ≡ some udp
      → start ≡ udp.offset
      → start + 8 ≤ stop
      → stored 6 here ≡ stored 6 (bytes_in packet.bytes udp)
  stored-here {udp} there same room =
      let (fixed, _) = roomy Protocol.udp udp there in
      field-take (whole 2) 6 (stop - start) (drop start packet.bytes) (omega arith)
      ∙ ap (λ (o : ℕ). stored 6 (drop o packet.bytes)) same
      ∙ sym (
          field-take (whole 2) 6 (udp.offset + udp.len - udp.offset) (drop udp.offset packet.bytes)
            (omega arith))

  udp-valid :
      {protocol : ℕ} (src dst : List ℕ)
      → outer_transport packet ≡ some protocol
      → (protocol == IpProtocol.tcp) ≡ false
      → (protocol == IpProtocol.udp) ≡ true
      → start + 8 ≤ stop
      → udp_validate_checksum_ipv4 src dst
          (slice ((fix_protocol_v4 protocol src dst packet).bytes) start stop)
        ≡ true
  unfolding fix_protocol_v4
  udp-valid {protocol} src dst is_transport no_tcp is_udp room =
      let kind : transport_layer protocol ≡ some Protocol.udp = rw (no_tcp, is_udp) refl in
      let (udp, there, same, behind) =
        segment_bounds-behind packet l four roomy is_transport kind bounds in
      let length_here : length here ≡ stop - start =
        length-slice packet.bytes start stop within inside in
      elim (Bool-cases (udp_disabled (outer_viewer packet Protocol.udp))) [
        | inl disabled ↦
            let zero : (stored 6 (bytes_in packet.bytes udp) == 0) ≡ true =
              rw (outer_viewer-some packet Protocol.udp there) at disabled in
            rw (no_tcp, is_udp, disabled, fix_protocol_v4)
              (udp_validate_checksum-disabled src dst here (rw (stored-here there same room) zero))
        | inr in_use ↦
            rw (no_tcp, is_udp, in_use, fix_protocol_v4)
              (rw
                (fix_segment-slice packet four.family start stop bounds within inside
                  {p = Protocol.udp} 6 (udp_calculate_checksum_ipv4 src dst) is_transport kind
                  (omega arith))
                (udp_validate_checksum-store src dst here (omega arith)).0)
      ]

  -- A checksum is stored where there was one.
  udp-in_use :
      {protocol : ℕ} (src dst : List ℕ)
      → outer_transport packet ≡ some protocol
      → (protocol == IpProtocol.udp) ≡ true
      → start + 8 ≤ stop
      → (stored 6 (slice ((fix_protocol_v4 protocol src dst packet).bytes) start stop) == 0)
        ≡ (stored 6 here == 0)
  unfolding fix_protocol_v4
  udp-in_use {protocol} src dst is_transport is_udp room =
      let no_tcp = no_tcp_in_udp protocol is_udp in
      let kind = udp_layer_of protocol is_udp in
      let (udp, there, same, behind) =
        segment_bounds-behind packet l four roomy is_transport kind bounds in
      let length_here : length here ≡ stop - start =
        length-slice packet.bytes start stop within inside in
      elim (Bool-cases (udp_disabled (outer_viewer packet Protocol.udp))) [
        | inl disabled ↦ rw (no_tcp, is_udp, disabled, fix_protocol_v4) refl
        | inr one ↦
            let before : (stored 6 (bytes_in packet.bytes udp) == 0) ≡ false =
              rw (outer_viewer-some packet Protocol.udp there) at one in
            rw (no_tcp, is_udp, one, fix_protocol_v4)
              (rw
                (
                  fix_segment-slice packet four.family start stop bounds within inside
                      {p = Protocol.udp} 6 (udp_calculate_checksum_ipv4 src dst) is_transport kind
                      (omega arith),
                  stored-here there same room,
                  before,
                )
                (udp_calculate_checksum-in_use src dst here (omega arith)))
      ]

  tcp-valid :
      {protocol : ℕ} (src dst : List ℕ)
      → outer_transport packet ≡ some protocol
      → (protocol == IpProtocol.tcp) ≡ true
      → start + 20 ≤ stop
      → tcp_validate_checksum_ipv4 src dst
          (slice ((fix_protocol_v4 protocol src dst packet).bytes) start stop)
        ≡ true
  unfolding fix_protocol_v4
  tcp-valid {protocol} src dst is_transport is_tcp room =
      let kind : transport_layer protocol ≡ some Protocol.tcp = rw is_tcp refl in
      let length_here : length here ≡ stop - start =
        length-slice packet.bytes start stop within inside in
      rw (is_tcp, fix_protocol_v4)
        (rw
          (fix_segment-slice packet four.family start stop bounds within inside {p = Protocol.tcp}
            16 (tcp_calculate_checksum_ipv4 src dst) is_transport kind (omega arith))
          (tcp_validate_checksum-store src dst here (omega arith)).0)

  protocol-valid :
      {protocol : ℕ} (src dst : List ℕ)
      → outer_transport packet ≡ some protocol
      → start + segment_min protocol ≤ stop
      → segment_valid protocol src dst
          (slice ((fix_protocol_v4 protocol src dst packet).bytes) start stop)
        ≡ true
  protocol-valid {protocol} src dst is_transport room =
      elim (Bool-cases (protocol == IpProtocol.tcp)) [
        | inl is_tcp ↦ rw is_tcp (tcp-valid src dst is_transport is_tcp (rw is_tcp at room))
        | inr no_tcp ↦ elim (Bool-cases (protocol == IpProtocol.udp)) [
          | inl is_udp ↦
              rw (no_tcp, is_udp)
                (udp-valid src dst is_transport no_tcp is_udp (rw (no_tcp, is_udp) at room))
          | inr no_udp ↦ rw (no_tcp, no_udp) refl
        ]
      ]

  fix_transport_v4-some :
      {protocol : ℕ}
      → outer_transport packet ≡ some protocol
      → fix_transport_v4 packet
        ≡ fix_protocol_v4 protocol
            (slice (bytes_in packet.bytes l) 12 16)
            (slice (bytes_in packet.bytes l) 16 20)
            packet
  unfolding fix_transport_v4
  fix_transport_v4-some is_transport =
      rw (is_transport, outer_viewer-some packet Protocol.ipv4 four.here, fix_transport_v4) refl

  -- The segment is valid afterwards.
  pub fix_transport_v4-valid :
      {protocol : ℕ}
      → outer_transport packet ≡ some protocol
      → start + segment_min protocol ≤ stop
      → segment_valid protocol
          (slice (bytes_in packet.bytes l) 12 16)
          (slice (bytes_in packet.bytes l) 16 20)
          (slice ((fix_transport_v4 packet).bytes) start stop)
        ≡ true
  fix_transport_v4-valid is_transport room = rw (fix_transport_v4-some is_transport) (
      protocol-valid (slice (bytes_in packet.bytes l) 12 16) (slice (bytes_in packet.bytes l) 16 20)
        is_transport room)

  -- It has a checksum afterwards where it had one.
  pub fix_transport_v4-in_use :
      {protocol : ℕ}
      → outer_transport packet ≡ some protocol
      → start + segment_min protocol ≤ stop
      → in_use protocol (slice ((fix_transport_v4 packet).bytes) start stop) ≡ in_use protocol here
  fix_transport_v4-in_use {protocol} is_transport room = rw (fix_transport_v4-some is_transport) (
      in_use-same protocol here _ (λ is_udp.
        udp-in_use (slice (bytes_in packet.bytes l) 12 16) (slice (bytes_in packet.bytes l) 16 20)
          is_transport is_udp (rw (no_tcp_in_udp protocol is_udp, is_udp) at room)))
