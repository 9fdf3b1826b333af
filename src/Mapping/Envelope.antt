-- ===== src/Mapping/Envelope.antt =====
-- The outermost IP packet of tools/maja-mergecap/src/map/packet.rs: what is read of it, where its
-- transport segment is, and how addresses are written. `IpFamily` has the cases of `Family`. A layer
-- of a packet lies inside of its bytes, as those of a parse do; another one would panic.
use maja.Base.{
  ℕ, ◌+◌, Bool, true, false, ◌||◌, not, Option, none, some, List, [], ◌∷◌, ltb, ◌==◌, if◌then◌else◌,
}
use maja.Base.Bits.{bit_and}
use maja.Field.{whole}
use maja.Protocol.{Protocol, is}
use maja.Protocol.IpProtocol
use maja.Context.{Layer, slice}
use maja.Layers.{field}
use maja.Packet.{Packet, negsuc, nth_layer}
use maja.Mapping.{Family, v4, v6, IpAddr, ipv4, ipv6}
use maja.Mapping.Session.{PacketInfo}

abbrev pub bytes_in : List ℕ → Layer → List ℕ
bytes_in bytes l = slice bytes l.offset (l.offset + l.len)

-- `nth_layer(protocol, -1)` and `nth_layer_viewer(protocol, -1)`.
unfoldable pub outer_layer : Packet → Protocol → Option Layer
unfolding nth_layer
outer_layer packet p = nth_layer packet p (negsuc 0)

unfoldable pub outer_viewer : Packet → Protocol → Option (List ℕ)
unfolding outer_layer
outer_viewer packet p = elim (outer_layer packet p) [
  | none ↦ none
  | some l ↦ some (bytes_in packet.bytes l)
]

-- The family with the smaller offset is the outer one.
abbrev pub family_between : Option Layer → Option Layer → Option Family
family_between (some four) (some six) = if ltb four.offset six.offset then some v4 else some v6
family_between (some four) none = some v4
family_between none (some six) = some v6
family_between none none = none

unfoldable pub outer_ip_family : Packet → Option Family
unfolding outer_layer
outer_ip_family packet =
    family_between (outer_layer packet Protocol.ipv4) (outer_layer packet Protocol.ipv6)

abbrev pub is_chain_layer : Layer → Bool
is_chain_layer l =
    is l.protocol Protocol.ipv6_hopopt
    || is l.protocol Protocol.ipv6_dest_opts
    || is l.protocol Protocol.ipv6_route
    || is l.protocol Protocol.ipv6_frag
    || is l.protocol Protocol.ah
    || is l.protocol Protocol.ipv6_mobility
    || is l.protocol Protocol.ipv6_hip
    || is l.protocol Protocol.ipv6_shim6

-- The layers of `chain_range`, from the one behind the `Ipv6` layer on.
abbrev chain_prefix : List Layer → List Layer
chain_prefix [] = []
chain_prefix (l ∷ ls) = let later = chain_prefix ls in if is_chain_layer l then l ∷ later else []

unfoldable pub chain_layers : List Layer → Option (List Layer)
chain_layers [] = none
chain_layers (l ∷ ls) =
    let later = chain_layers ls in
    if is l.protocol Protocol.ipv6 then some (chain_prefix ls) else later

-- The first octet of the last layer, or what the header in front of them says.
abbrev last_next_header : List ℕ → ℕ → List Layer → ℕ
last_next_header bytes next [] = next
last_next_header bytes next (l ∷ ls) =
    last_next_header bytes (field (whole 1) 0 (bytes_in bytes l)) ls

unfoldable pub chain_next_header : Packet → Option ℕ
unfolding outer_viewer chain_layers
chain_next_header packet = elim (outer_viewer packet Protocol.ipv6) [
  | none ↦ none
  | some six ↦ elim (chain_layers packet.layers) [
    | none ↦ none
    | some ls ↦ some (last_next_header packet.bytes (field (whole 1) 6 six) ls)
  ]
]

abbrev find_layer : Protocol → List Layer → Option Layer
find_layer p [] = none
find_layer p (l ∷ ls) = let later = find_layer p ls in if is l.protocol p then some l else later

unfoldable pub chain_viewer : Packet → Protocol → Option (List ℕ)
unfolding chain_layers
chain_viewer packet p = elim (chain_layers packet.layers) [
  | none ↦ none
  | some ls ↦ elim (find_layer p ls) [ none ↦ none | some l ↦ some (bytes_in packet.bytes l) ]
]

abbrev pub protocol_field : List ℕ → ℕ
protocol_field header = field (record { size = 1; mask = 0xFF; shift = 0 }) 9 header

unfoldable pub transport_of : Packet → Option Family → Option ℕ
unfolding outer_viewer chain_next_header
transport_of packet (some v4) = elim (outer_viewer packet Protocol.ipv4) [
  | none ↦ none
  | some header ↦ some (protocol_field header)
]
transport_of packet _ = chain_next_header packet

unfoldable pub outer_transport : Packet → Option ℕ
unfolding outer_ip_family transport_of
outer_transport packet = transport_of packet (outer_ip_family packet)

-- The ports at the start of a header, and whether there is one.
abbrev ports_at : Option (List ℕ) → ℕ × ℕ × Bool
ports_at none = (0, 0, false)
ports_at (some header) = (field (whole 2) 0 header, field (whole 2) 2 header, true)

unfoldable pub transport_ports : Packet → ℕ × ℕ × Bool
unfolding outer_transport outer_viewer
transport_ports packet = elim (outer_transport packet) [
  | none ↦ (0, 0, false)
  | some protocol ↦
      if protocol == IpProtocol.tcp
      then ports_at (outer_viewer packet Protocol.tcp)
      else if protocol == IpProtocol.udp
      then ports_at (outer_viewer packet Protocol.udp)
      else (0, 0, false)
]

-- A fragment: not at the start of its datagram, or `flags & FRAG_MORE`, the low bit of the three.
abbrev pub fragment_of : ℕ → ℕ → Bool
fragment_of fragment_offset flags = not (fragment_offset == 0) || not (bit_and flags 0x1 == 0)

abbrev pub ipv4_fragment : List ℕ → Bool
ipv4_fragment header =
    fragment_of (field (record { size = 2; mask = 0x1FFF; shift = 0 }) 6 header)
      (field (record { size = 1; mask = 0xE0; shift = 5 }) 6 header)

abbrev pub address_v4 : ℕ → List ℕ → IpAddr
address_v4 at header = ipv4 (field (whole 4) at header)

abbrev pub address_v6 : ℕ → List ℕ → IpAddr
address_v6 at header = ipv6 (field (whole 16) at header)

-- `PacketInfo::from_ipv4`.
unfoldable pub info_of_ipv4 : Packet → List ℕ → PacketInfo
unfolding transport_ports
info_of_ipv4 packet header =
    let src = address_v4 12 header in
    let dst = address_v4 16 header in
    let proto = protocol_field header in
    let (src_port, dst_port, has_ports) = transport_ports packet in
    record {
      src = src;
      dst = dst;
      proto = proto;
      src_port = src_port;
      dst_port = dst_port;
      has_ports = has_ports;
      fragment =
          if ipv4_fragment header
          then some (record { src = src; dst = dst; proto = proto; id = field (whole 2) 4 header })
          else none;
    }

abbrev or_field : Option ℕ → List ℕ → ℕ
or_field (some next) header = next
or_field none header = field (whole 1) 6 header

-- `PacketInfo::from_ipv6`.
unfoldable pub info_of_ipv6 : Packet → List ℕ → PacketInfo
unfolding transport_ports chain_next_header chain_viewer
info_of_ipv6 packet header =
    let src = address_v6 8 header in
    let dst = address_v6 24 header in
    let (src_port, dst_port, has_ports) = transport_ports packet in
    record {
      src = src;
      dst = dst;
      proto = or_field (chain_next_header packet) header;
      src_port = src_port;
      dst_port = dst_port;
      has_ports = has_ports;
      fragment = elim (chain_viewer packet Protocol.ipv6_frag) [
        | none ↦ none
        | some frag ↦ some (record {
          src = src;
          dst = dst;
          proto = field (whole 1) 0 frag;
          id = field (whole 4) 4 frag;
        })
      ];
    }

unfoldable pub info_of : Packet → Family → Option PacketInfo
unfolding outer_viewer info_of_ipv4 info_of_ipv6
info_of packet v4 = elim (outer_viewer packet Protocol.ipv4) [
  | none ↦ none
  | some header ↦ some (info_of_ipv4 packet header)
]
info_of packet v6 = elim (outer_viewer packet Protocol.ipv6) [
  | none ↦ none
  | some header ↦ some (info_of_ipv6 packet header)
]

-- `PacketInfo::read`.
unfoldable pub read_info : Packet → Option PacketInfo
unfolding outer_ip_family info_of
read_info packet = elim (outer_ip_family packet) [
  | none ↦ none
  | some family ↦ info_of packet family
]
