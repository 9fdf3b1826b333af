-- ===== src/Mapping/Segment.antt =====
-- The writes of tools/maja-mergecap/src/map: `apply_targets` and `transport_segment` of packet.rs, and
-- what `checksum_mut().set` of an outermost layer's viewer does to a packet.
pub mod Bounds
pub mod Overwrite
pub mod Applied
pub mod ReadBack
use maja.Base.{
  ℕ, ◌+◌, ◌-◌, Bool, true, ◌&&◌, not, Option, none, some, List, ◌++◌, ltb, ◌==◌, if◌then◌else◌,
  length, take, drop,
}
use maja.Base.Words.{to_bytes}
use maja.Field.{whole}
use maja.Protocol.{Protocol}
use maja.Protocol.IpProtocol
use maja.Context.{Layer, get_range}
use maja.Layers.{field}
use maja.Packet.{Packet}
use maja.Validate.{store, ipv4_header_len}
use maja.Mapping.{Family, v4, v6, IpAddr, ipv4, ipv6}
use maja.Mapping.Session.{Targets}
use maja.Mapping.Envelope.{
  outer_layer, outer_viewer, outer_ip_family, outer_transport, chain_next_header,
}

-- Octets over those from `at` on.
unfoldable pub overwrite : ℕ → List ℕ → List ℕ → List ℕ
overwrite at octets bytes = take at bytes ++ (octets ++ drop (at + length octets) bytes)

unfoldable pub set_octets : Protocol → ℕ → List ℕ → Packet → Packet
unfolding outer_layer overwrite
set_octets p at octets packet = elim (outer_layer packet p) [
  | none ↦ packet
  | some l ↦ record packet { bytes = overwrite (l.offset + at) octets packet.bytes }
]

unfoldable pub set_checksum : Protocol → ℕ → ℕ → Packet → Packet
unfolding outer_layer store
set_checksum p at checksum packet = elim (outer_layer packet p) [
  | none ↦ packet
  | some l ↦ record packet { bytes = store (l.offset + at) checksum packet.bytes }
]

-- A target of the other family is skipped.
unfoldable pub set_v4 : ℕ → Option IpAddr → Packet → Packet
unfolding set_octets
set_v4 at (some (ipv4 addr)) packet = set_octets Protocol.ipv4 at (to_bytes true 4 addr) packet
set_v4 at _ packet = packet

unfoldable pub set_v6 : ℕ → Option IpAddr → Packet → Packet
unfolding set_octets
set_v6 at (some (ipv6 addr)) packet = set_octets Protocol.ipv6 at (to_bytes true 16 addr) packet
set_v6 at _ packet = packet

unfoldable pub apply_in : Option Family → Targets → Packet → Packet
unfolding set_v4 set_v6
apply_in (some v4) targets packet = set_v4 16 targets.dst (set_v4 12 targets.src packet)
apply_in (some v6) targets packet = set_v6 24 targets.dst (set_v6 8 targets.src packet)
apply_in none targets packet = packet

unfoldable pub apply_targets : Targets → Packet → Packet
unfolding outer_ip_family apply_in
apply_targets targets packet = apply_in (outer_ip_family packet) targets packet

-- Where the IP packet starts, the length of its header, and that of the payload, zero where the
-- header declares none. `none` is a total length below the header length.
abbrev pub extent_of : ℕ → ℕ → ℕ → Option (ℕ × ℕ × ℕ)
extent_of ip_offset header_len total_length =
    if not (total_length == 0) && ltb total_length header_len
    then none
    else some (ip_offset, header_len, total_length - header_len)

unfoldable pub extent : Packet → Family → Option (ℕ × ℕ × ℕ)
unfolding outer_viewer outer_layer
extent packet v4 = elim (outer_layer packet Protocol.ipv4) [
  | none ↦ none
  | some l ↦ elim (outer_viewer packet Protocol.ipv4) [
    | none ↦ none
    | some header ↦ extent_of l.offset (ipv4_header_len header) (field (whole 2) 2 header)
  ]
]
extent packet v6 = elim (outer_layer packet Protocol.ipv6) [
  | none ↦ none
  | some l ↦ elim (outer_viewer packet Protocol.ipv6) [
    | none ↦ none
    | some header ↦ some (l.offset, 40, field (whole 2) 4 header)
  ]
]

abbrev pub transport_layer : ℕ → Option Protocol
transport_layer protocol =
    if protocol == IpProtocol.tcp
    then some Protocol.tcp
    else if protocol == IpProtocol.udp
    then some Protocol.udp
    else if protocol == IpProtocol.ipv6_icmp
    then some Protocol.icmpv6
    else none

-- The start of the transport header and the end of the segment. A header that starts inside of the
-- IP header is none.
abbrev pub bounds_from : ℕ → ℕ → ℕ × ℕ × ℕ → Option (ℕ × ℕ)
bounds_from len l4_offset (ip_offset, header_len, payload_len) =
    if ltb l4_offset (ip_offset + header_len)
    then none
    else some (l4_offset, if payload_len == 0 then len else ip_offset + header_len + payload_len)

abbrev pub bounds_with :
    (Protocol → Option Layer) → ℕ → Option (ℕ × ℕ × ℕ) → Option ℕ → Option (ℕ × ℕ)
bounds_with outer len where_ip transport = elim where_ip [
  | none ↦ none
  | some found ↦ elim transport [
    | none ↦ none
    | some protocol ↦ elim (transport_layer protocol) [
      | none ↦ none
      | some p ↦ elim (outer p) [ none ↦ none | some l ↦ bounds_from len l.offset found ]
    ]
  ]
]

unfoldable pub segment_bounds : Packet → Option (ℕ × ℕ)
unfolding outer_ip_family outer_transport extent outer_layer
segment_bounds packet = elim (outer_ip_family packet) [
  | none ↦ none
  | some family ↦
      bounds_with (outer_layer packet) (length packet.bytes) (extent packet family)
        (outer_transport packet)
]

unfoldable pub transport_segment : Packet → Option (List ℕ)
unfolding segment_bounds
transport_segment packet = elim (segment_bounds packet) [
  | none ↦ none
  | some (start, stop) ↦ get_range packet.bytes start stop
]
