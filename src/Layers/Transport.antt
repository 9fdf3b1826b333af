-- ===== src/Layers/Transport.antt =====
-- src/packet/layer: gre.rs, tcp.rs, tls.rs, udp.rs, vxlan.rs, and the protocols that nothing follows,
-- icmp.rs, icmpv6.rs, igmp.rs, dhcp.rs, dns.rs, ntp.rs and sctp.rs.
pub mod Outcome
use Prim.Native.Nat.{bit_and}
use maja.Base.{
  ℕ, ◌+◌, ◌*◌, Bool, true, false, ◌&&◌, ◌||◌, Option, none, some, List, [], ◌∷◌, ltb, leb, ◌==◌,
  if◌then◌else◌, length, get_or,
}
use maja.Field.{FieldSpec, whole}
use maja.Protocol.{Protocol, EthType, eth_type_from, eth_type_into}
use maja.Context.{
  malformed, fail, ParseContext, Parser, Done, ParseFn, ◌>>=◌, ◌>>◌, require, rest, push_layer,
  parse_raw, dispatch_registered, parse_child_with,
}
use maja.Layers.{field, payload}

abbrev gre_child : EthType → Option Protocol
gre_child EthType.ipv4 = some Protocol.ipv4
gre_child EthType.ipv6 = some Protocol.ipv6
gre_child other = none

-- `GreViewer::header_len`, with `flags.contains`.
abbrev gre_header_len : List ℕ → ℕ
gre_header_len header =
    let flags = field (record { size = 2; mask = 0xB000; shift = 0 }) 0 header in
    4
    + (if bit_and flags 0x8000 == 0x8000 then 4 else 0)
    + (if bit_and flags 0x2000 == 0x2000 then 4 else 0)
    + (if bit_and flags 0x1000 == 0x1000 then 4 else 0)

-- `Tcp::TLS_SERVICE_PORTS.contains`.
abbrev is_tls_service_port : ℕ → Bool
is_tls_service_port port =
    port == 443
    || port == 465
    || port == 636
    || port == 853
    || port == 990
    || port == 993
    || port == 995
    || port == 8443

-- `tls::looks_like_record`.
abbrev looks_like_record : List ℕ → Bool
looks_like_record bytes =
    leb 5 (length bytes)
    && leb 20 (get_or bytes 0 0)
    && leb (get_or bytes 0 0) 24
    && get_or bytes 1 0 == 0x03
    && leb (get_or bytes 2 0) 0x04

-- The arm of TCP with a child of the crate.
abbrev tcp_child : ℕ → ℕ → List ℕ → Option Protocol
tcp_child src_port dst_port bytes =
    if (is_tls_service_port src_port || is_tls_service_port dst_port) && looks_like_record bytes
    then some Protocol.tls
    else none

-- The arms of UDP with a child of the crate.
abbrev udp_child : ℕ → ℕ → Option Protocol
udp_child src_port dst_port =
    if src_port == 53 || dst_port == 53
    then some Protocol.dns
    else if src_port == 67 || src_port == 68 || dst_port == 67 || dst_port == 68
    then some Protocol.dhcp
    else if src_port == 123 || dst_port == 123
    then some Protocol.ntp
    else if dst_port == 4789
    then some Protocol.vxlan
    else none

module _ (parse : Protocol → ParseFn) where
  unfoldable pub gre : ParseFn
  gre offset = require Protocol.gre offset 4 >>= λ min_header.
      let header_len = gre_header_len min_header in
      require Protocol.gre offset header_len >>= λ header.
      let protocol_type = eth_type_from (field (whole 2) 2 header) in
      push_layer Protocol.gre offset header_len
      >> payload parse (gre_child protocol_type) (offset + header_len) (
          dispatch_registered parse Protocol.gre (eth_type_into protocol_type) (offset + header_len)
            (parse_raw (offset + header_len)))

  -- A parser for the destination port, or else for the source port if that is another one.
  abbrev registered_port : Protocol → ℕ → ℕ → ParseFn
  registered_port protocol src_port dst_port payload_offset =
      dispatch_registered parse protocol dst_port payload_offset (
        if src_port == dst_port
        then parse_raw payload_offset
        else dispatch_registered parse protocol src_port payload_offset (parse_raw payload_offset))

  abbrev tcp_payload : ℕ → ℕ → ParseFn
  tcp_payload src_port dst_port payload_offset c =
      payload parse (tcp_child src_port dst_port (rest c payload_offset)) payload_offset
        (registered_port Protocol.tcp src_port dst_port payload_offset) c

  unfoldable pub tcp : ParseFn
  tcp offset = require Protocol.tcp offset 20 >>= λ min_header.
      let header_len = field (record { size = 1; mask = 0xF0; shift = 4 }) 12 min_header * 4 in
      if ltb header_len 20
      then fail (
          malformed Protocol.tcp "data_offset"
            "header length is smaller than the minimum TCP header length")
      else (require Protocol.tcp offset header_len >>= λ header.
          push_layer Protocol.tcp offset header_len
          >> tcp_payload (field (whole 2) 0 header) (field (whole 2) 2 header)
              (offset + header_len))

  unfoldable pub udp : ParseFn
  udp offset = require Protocol.udp offset 8 >>= λ header.
      let src_port = field (whole 2) 0 header in
      let dst_port = field (whole 2) 2 header in
      push_layer Protocol.udp offset 8
      >> payload parse (udp_child src_port dst_port) (offset + 8)
          (registered_port Protocol.udp src_port dst_port (offset + 8))

  unfoldable pub vxlan : ParseFn
  vxlan offset =
      require Protocol.vxlan offset 8
      >> (push_layer Protocol.vxlan offset 8 >> parse_child_with (parse Protocol.eth) (offset + 8))

unfoldable pub tls : ParseFn
tls offset = require Protocol.tls offset 5 >>= λ header.
    let len = 5 + field (whole 2) 3 header in
    require Protocol.tls offset len >> push_layer Protocol.tls offset len

-- `Icmp`, `Icmpv6`, `Dhcp`, `Dns`, `Ntp` and `Sctp` take the rest of the region, from `MIN_LEN` bytes.
unfoldable pub whole_rest : Protocol → ℕ → ParseFn
whole_rest protocol min_len offset =
    require protocol offset min_len >> λ c. push_layer protocol offset (length (rest c offset)) c

unfoldable pub igmp : ParseFn
igmp offset = require Protocol.igmp offset 8 >> push_layer Protocol.igmp offset 8
