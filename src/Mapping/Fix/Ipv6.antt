-- ===== src/Mapping/Fix/Ipv6.antt =====
-- The transport segment of an IPv6 packet after `fix_checksums` of tools/maja-mergecap/src/map.rs.
use maja.Base.{
  ℕ, ◌+◌, ◌≤◌, ◌≡◌, refl, ◌∙◌, inl, inr, Bool, true, Bool-cases, none, some, List, arith, ◌==◌,
  if◌then◌else◌, length,
}
use maja.Protocol.{Protocol}
use maja.Protocol.IpProtocol
use maja.Context.{Layer, slice}
use maja.Packet.{Packet}
use maja.Validate.{
  tcp_calculate_checksum_ipv6, tcp_validate_checksum_ipv6, udp_calculate_checksum_ipv6,
  udp_validate_checksum_ipv6, icmpv6_calculate_checksum, icmpv6_validate_checksum,
}
use maja.Validate.Stored.{
  tcp_validate_checksum-store, udp_validate_checksum-store, icmp_validate_checksum-store,
}
use maja.Mapping.{v6}
use maja.Mapping.Envelope.{bytes_in, outer_layer, outer_ip_family, outer_transport, chain_viewer}
use maja.Mapping.Segment.{segment_bounds}
use maja.Mapping.Segment.Bounds.{outer_viewer-some}
use maja.Mapping.Fix.{fix_protocol_v6, fix_transport_v6, fix_in, fix_checksums, pseudo_header_dst}
use maja.Mapping.Fix.Slice.{length-slice, fix_segment-slice}

-- What a receiver checks of a segment over IPv6.
abbrev pub segment_valid_v6 : ℕ → List ℕ → List ℕ → List ℕ → Bool
segment_valid_v6 protocol src dst segment =
    if protocol == IpProtocol.tcp
    then tcp_validate_checksum_ipv6 src dst segment
    else if protocol == IpProtocol.udp
    then udp_validate_checksum_ipv6 src dst segment
    else if protocol == IpProtocol.ipv6_icmp
    then icmpv6_validate_checksum src dst segment
    else true

abbrev pub segment_min_v6 : ℕ → ℕ
segment_min_v6 protocol =
    if protocol == IpProtocol.tcp
    then 20
    else if protocol == IpProtocol.udp
    then 8
    else if protocol == IpProtocol.ipv6_icmp
    then 4
    else 0

module _ (packet : Packet) (six : outer_ip_family packet ≡ some v6) (start stop : ℕ)
    (bounds : segment_bounds packet ≡ some (start, stop)) (within : start ≤ stop)
    (inside : stop ≤ length packet.bytes) where
  protocol_v6-valid :
      {protocol : ℕ} (src dst : List ℕ)
      → outer_transport packet ≡ some protocol
      → start + segment_min_v6 protocol ≤ stop
      → segment_valid_v6 protocol src dst
          (slice ((fix_protocol_v6 protocol src dst packet).bytes) start stop)
        ≡ true
  unfolding fix_protocol_v6
  protocol_v6-valid {protocol} src dst is_transport room =
      let here = slice packet.bytes start stop in
      let wide = length-slice packet.bytes start stop within inside in
      elim (Bool-cases (protocol == IpProtocol.tcp)) [
        | inl is_tcp ↦
            let room : start + 20 ≤ stop = rw is_tcp at room in
            rw (is_tcp, fix_protocol_v6)
              (rw
                (fix_segment-slice packet six start stop bounds within inside {protocol = protocol}
                  {p = Protocol.tcp} 16 (tcp_calculate_checksum_ipv6 src dst) is_transport
                  (rw is_tcp refl) (omega arith))
                (tcp_validate_checksum-store src dst here (omega arith)).1)
        | inr no_tcp ↦ elim (Bool-cases (protocol == IpProtocol.udp)) [
          | inl is_udp ↦
              let room : start + 8 ≤ stop = rw (no_tcp, is_udp) at room in
              rw (no_tcp, is_udp, fix_protocol_v6)
                (rw
                  (fix_segment-slice packet six start stop bounds within inside
                    {protocol = protocol} {p = Protocol.udp} 6 (udp_calculate_checksum_ipv6 src dst)
                    is_transport (rw (no_tcp, is_udp) refl) (omega arith))
                  (udp_validate_checksum-store src dst here (omega arith)).1)
          | inr no_udp ↦ elim (Bool-cases (protocol == IpProtocol.ipv6_icmp)) [
            | inl is_icmp ↦
                let room : start + 4 ≤ stop = rw (no_tcp, no_udp, is_icmp) at room in
                rw (no_tcp, no_udp, is_icmp, fix_protocol_v6)
                  (rw
                    (fix_segment-slice packet six start stop bounds within inside
                      {protocol = protocol} {p = Protocol.icmpv6} 2
                      (icmpv6_calculate_checksum src dst) is_transport
                      (rw (no_tcp, no_udp, is_icmp) refl) (omega arith))
                    (icmp_validate_checksum-store src dst here (omega arith)).1)
            | inr no_icmp ↦ rw (no_tcp, no_udp, no_icmp) refl
          ]
        ]
      ]

  fix_transport_v6-some :
      {protocol : ℕ} {l : Layer} {dst : List ℕ}
      → outer_transport packet ≡ some protocol
      → outer_layer packet Protocol.ipv6 ≡ some l
      → pseudo_header_dst packet (slice (bytes_in packet.bytes l) 24 40) ≡ some dst
      → fix_transport_v6 packet
        ≡ fix_protocol_v6 protocol (slice (bytes_in packet.bytes l) 8 24) dst packet
  unfolding fix_transport_v6
  fix_transport_v6-some is_transport here is_dst =
      rw (is_transport, outer_viewer-some packet Protocol.ipv6 here, is_dst, fix_transport_v6) refl

  fix_checksums-v6 :
      chain_viewer packet Protocol.ipv6_frag ≡ none → fix_checksums packet ≡ fix_transport_v6 packet
  unfolding fix_checksums fix_in
  fix_checksums-v6 whole = rw (six, whole, fix_checksums, fix_in) refl

  -- Of an IPv6 packet without a fragment header, whose final destination is known and whose
  -- segment lies in it and has its fixed header, if it is of TCP, UDP or ICMPv6: what stands at
  -- the place of the segment after the checksums are fixed is valid with the source address of the
  -- header and the final destination.
  pub fix_checksums-ipv6 :
      {l : Layer} {protocol : ℕ} {dst : List ℕ}
      → outer_layer packet Protocol.ipv6 ≡ some l
      → chain_viewer packet Protocol.ipv6_frag ≡ none
      → pseudo_header_dst packet (slice (bytes_in packet.bytes l) 24 40) ≡ some dst
      → outer_transport packet ≡ some protocol
      → start + segment_min_v6 protocol ≤ stop
      → segment_valid_v6 protocol
          (slice (bytes_in packet.bytes l) 8 24)
          dst
          (slice ((fix_checksums packet).bytes) start stop)
        ≡ true
  fix_checksums-ipv6 {l} {protocol} {dst} here whole is_dst is_transport room =
      rw (fix_checksums-v6 whole ∙ fix_transport_v6-some is_transport here is_dst)
        (protocol_v6-valid (slice (bytes_in packet.bytes l) 8 24) dst is_transport room)
