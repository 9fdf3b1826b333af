-- ===== src/Mapping/Fix.antt =====
-- `fix_checksums` and `pseudo_header_dst` of tools/maja-mergecap/src/map.rs, with the type 0 and
-- segment routing payloads of src/packet/layer/ip/v6/ext/route.rs. The warning about an unknown
-- routing header is left out.
pub mod Behind
pub mod Writes
pub mod Header
pub mod Slice
pub mod Segment
pub mod Ipv6
pub mod Same
pub mod Valid
pub mod Received
use maja.Base.{
  ℕ, zero, suc, ◌+◌, ◌-◌, ◌*◌, ◌%◌, min, Bool, true, false, Option, none, some, List, [], ◌∷◌, leb,
  ◌==◌, if◌then◌else◌, length, take, drop,
}
use maja.Field.{whole}
use maja.Protocol.{Protocol}
use maja.Protocol.IpProtocol
use maja.Context.{slice}
use maja.Layers.{field}
use maja.Packet.{Packet, nth_layer}
use maja.Validate.{
  stored, store, ipv4_calculate_checksum, tcp_calculate_checksum_ipv4, tcp_calculate_checksum_ipv6,
  udp_calculate_checksum_ipv4, udp_calculate_checksum_ipv6, icmpv6_calculate_checksum,
}
use maja.Mapping.{Family, v4, v6}
use maja.Mapping.Session.{PacketInfo}
use maja.Mapping.Envelope.{
  outer_layer, outer_viewer, outer_ip_family, outer_transport, chain_viewer, read_info,
}
use maja.Mapping.Segment.{set_checksum, transport_segment}

-- The complete addresses of a list, with fuel for every octet.
unfoldable pub route_addrs : ℕ → List ℕ → List (List ℕ)
route_addrs zero bytes = []
route_addrs (suc k) bytes =
    let later = route_addrs k (drop 16 bytes) in
    if leb 16 (length bytes) then take 16 bytes ∷ later else []

abbrev addrs_of : List ℕ → List (List ℕ)
unfolding route_addrs
addrs_of bytes = route_addrs (length bytes) bytes

abbrev leading_addr : List (List ℕ) → Option (List ℕ)
leading_addr [] = none
leading_addr (addr ∷ rest) = some addr

abbrev last_addr : List (List ℕ) → Option (List ℕ)
last_addr [] = none
last_addr (addr ∷ []) = some addr
last_addr (addr ∷ next ∷ rest) = last_addr (next ∷ rest)

-- `Ipv6Srh::segment_list_len`.
abbrev segment_list_len : List ℕ → ℕ
segment_list_len payload =
    let available = length payload - 4 in
    min ((field (whole 1) 0 payload + 1) * 16) (available - available % 16)

-- The last address of a source route, and the first one of a segment list.
unfoldable pub final_dst : List ℕ → Option (List ℕ)
unfolding route_addrs
final_dst route =
    let routing_type = field (whole 1) 2 route in
    let payload = drop 4 route in
    if leb 4 (length payload)
    then (if routing_type == 0
        then last_addr (addrs_of (drop 4 payload))
        else if routing_type == 4
        then leading_addr (addrs_of (slice payload 4 (4 + segment_list_len payload)))
        else none)
    else none

unfoldable pub pseudo_header_dst : Packet → List ℕ → Option (List ℕ)
unfolding chain_viewer final_dst
pseudo_header_dst packet dst = elim (chain_viewer packet Protocol.ipv6_route) [
  | none ↦ some dst
  | some route ↦ if field (whole 1) 3 route == 0 then some dst else final_dst route
]

-- The checksum of the segment, where there is one, into the outermost layer.
unfoldable pub fix_segment : Protocol → ℕ → (List ℕ → ℕ) → Packet → Packet
unfolding transport_segment set_checksum
fix_segment p at calculate packet = elim (transport_segment packet) [
  | none ↦ packet
  | some segment ↦ set_checksum p at (calculate segment) packet
]

-- A stored zero means that the checksum is disabled on IPv4.
abbrev pub udp_disabled : Option (List ℕ) → Bool
udp_disabled none = false
udp_disabled (some udp) = stored 6 udp == 0

unfoldable pub fix_protocol_v4 : ℕ → List ℕ → List ℕ → Packet → Packet
unfolding fix_segment outer_viewer
fix_protocol_v4 protocol src dst packet =
    if protocol == IpProtocol.tcp
    then fix_segment Protocol.tcp 16 (tcp_calculate_checksum_ipv4 src dst) packet
    else if protocol == IpProtocol.udp
    then (if udp_disabled (outer_viewer packet Protocol.udp)
        then packet
        else fix_segment Protocol.udp 6 (udp_calculate_checksum_ipv4 src dst) packet)
    else packet

unfoldable pub fix_transport_v4 : Packet → Packet
unfolding outer_transport outer_viewer fix_protocol_v4
fix_transport_v4 packet = elim (outer_transport packet) [
  | none ↦ packet
  | some protocol ↦ elim (outer_viewer packet Protocol.ipv4) [
    | none ↦ packet
    | some header ↦ fix_protocol_v4 protocol (slice header 12 16) (slice header 16 20) packet
  ]
]

unfoldable pub fix_header : Packet → Packet
unfolding outer_viewer set_checksum
fix_header packet = elim (outer_viewer packet Protocol.ipv4) [
  | none ↦ packet
  | some header ↦ set_checksum Protocol.ipv4 10 (ipv4_calculate_checksum header) packet
]

abbrev pub info_fragment : Option PacketInfo → Bool
info_fragment none = false
info_fragment (some info) = elim info.fragment [ none ↦ false | some _ ↦ true ]

unfoldable pub unless_fragment : Bool → Packet → Packet
unfolding fix_transport_v4
unless_fragment true packet = packet
unless_fragment false packet = fix_transport_v4 packet

unfoldable pub fix_protocol_v6 : ℕ → List ℕ → List ℕ → Packet → Packet
unfolding fix_segment
fix_protocol_v6 protocol src dst packet =
    if protocol == IpProtocol.tcp
    then fix_segment Protocol.tcp 16 (tcp_calculate_checksum_ipv6 src dst) packet
    else if protocol == IpProtocol.udp
    then fix_segment Protocol.udp 6 (udp_calculate_checksum_ipv6 src dst) packet
    else if protocol == IpProtocol.ipv6_icmp
    then fix_segment Protocol.icmpv6 2 (icmpv6_calculate_checksum src dst) packet
    else packet

unfoldable pub fix_transport_v6 : Packet → Packet
unfolding outer_transport outer_viewer fix_protocol_v6 pseudo_header_dst
fix_transport_v6 packet = elim (outer_transport packet) [
  | none ↦ packet
  | some protocol ↦ elim (outer_viewer packet Protocol.ipv6) [
    | none ↦ packet
    | some header ↦ elim (pseudo_header_dst packet (slice header 24 40)) [
      | none ↦ packet
      | some dst ↦ fix_protocol_v6 protocol (slice header 8 24) dst packet
    ]
  ]
]

unfoldable pub fix_in : Option Family → Packet → Packet
unfolding fix_header unless_fragment fix_transport_v6 read_info chain_viewer
fix_in (some v4) packet =
    let packet = fix_header packet in unless_fragment (info_fragment (read_info packet)) packet
fix_in (some v6) packet = elim (chain_viewer packet Protocol.ipv6_frag) [
  | none ↦ fix_transport_v6 packet
  | some _ ↦ packet
]
fix_in none packet = packet

unfoldable pub fix_checksums : Packet → Packet
unfolding outer_ip_family fix_in
fix_checksums packet = fix_in (outer_ip_family packet) packet
