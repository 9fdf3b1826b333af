-- ===== src/Layers/Ip.antt =====
-- src/packet/layer/ip: v4.rs, v6.rs, v6/dispatch.rs, the extension headers of v6/ext, ah.rs and
-- esp.rs.
pub mod Outcome
pub mod Short
mod Tests
use maja.Base.{
  ℕ, ◌+◌, ◌*◌, min, Bool, true, false, ◌&&◌, not, Option, none, some, List, [], ltb, ◌==◌,
  if◌then◌else◌, length,
}
use maja.Field.{FieldSpec, whole}
use maja.Protocol.{Protocol, custom}
use maja.Protocol.IpProtocol
use maja.Context.{
  ParseError, malformed, ParseContext, Parser, Done, ParseFn, ◌>>=◌, ◌>>◌, pure, fail, require,
  rest, push_layer, parse_raw, dispatch_registered, saturating_add, within, trailer,
}
use maja.Layers.{field, payload}

-- A zero length declares nothing.
abbrev declared : ℕ → ℕ → Option ℕ
declared offset len = if len == 0 then none else some (saturating_add offset len)

abbrev ipv4_child : ℕ → Option Protocol
ipv4_child protocol =
    if protocol == IpProtocol.icmp
    then some Protocol.icmp
    else if protocol == IpProtocol.igmp
    then some Protocol.igmp
    else if protocol == IpProtocol.gre
    then some Protocol.gre
    else if protocol == IpProtocol.tcp
    then some Protocol.tcp
    else if protocol == IpProtocol.udp
    then some Protocol.udp
    else if protocol == IpProtocol.sctp
    then some Protocol.sctp
    else none

abbrev ipv6_child : ℕ → Option Protocol
ipv6_child next_header =
    if next_header == IpProtocol.hopopt
    then some Protocol.ipv6_hopopt
    else if next_header == IpProtocol.ipv6_opts
    then some Protocol.ipv6_dest_opts
    else if next_header == IpProtocol.ipv6_route
    then some Protocol.ipv6_route
    else if next_header == IpProtocol.ipv6_frag
    then some Protocol.ipv6_frag
    else if next_header == IpProtocol.ah
    then some Protocol.ah
    else if next_header == IpProtocol.mobility_header
    then some Protocol.ipv6_mobility
    else if next_header == IpProtocol.hip
    then some Protocol.ipv6_hip
    else if next_header == IpProtocol.shim6
    then some Protocol.ipv6_shim6
    else if next_header == IpProtocol.esp
    then some Protocol.esp
    else if next_header == IpProtocol.tcp
    then some Protocol.tcp
    else if next_header == IpProtocol.udp
    then some Protocol.udp
    else if next_header == IpProtocol.gre
    then some Protocol.gre
    else if next_header == IpProtocol.sctp
    then some Protocol.sctp
    else if next_header == IpProtocol.ipv6_icmp
    then some Protocol.icmpv6
    else if next_header == IpProtocol.ipv4
    then some Protocol.ipv4
    else if next_header == IpProtocol.ipv6
    then some Protocol.ipv6
    else none

module _ (parse : Protocol → ParseFn) where
  -- The payload of IPv4: a fragment behind the first one is raw.
  abbrev ipv4_payload : ℕ → ℕ → ParseFn
  ipv4_payload fragment_offset protocol child_offset =
      if fragment_offset == 0
      then payload parse (ipv4_child protocol) child_offset
          (dispatch_registered parse Protocol.ipv4 protocol child_offset (parse_raw child_offset))
      else parse_raw child_offset

  unfoldable pub ipv4 : ParseFn
  ipv4 offset = require Protocol.ipv4 offset 20 >>= λ min_header.
      let header_len = field (record { size = 1; mask = 0x0F; shift = 0 }) 0 min_header * 4 in
      if ltb header_len 20
      then fail (
          malformed Protocol.ipv4 "ihl"
            "header length is smaller than the minimum IPv4 header length")
      else (require Protocol.ipv4 offset header_len >>= λ header.
          push_layer Protocol.ipv4 offset header_len
          >> (let total_length = field (whole 2) 2 header in
              if not (total_length == 0) && ltb total_length header_len
              then fail (
                  malformed Protocol.ipv4 "total length"
                    "total length is smaller than the header length")
              else (within (declared offset total_length) (
                    ipv4_payload (field (record { size = 2; mask = 0x1FFF; shift = 0 }) 6 header)
                      (field (record { size = 1; mask = 0xFF; shift = 0 }) 9 header)
                      (offset + header_len))
                  >> trailer (declared offset total_length))))

  -- The dispatcher of the next headers; `no next header` ends the chain.
  abbrev dispatch : ℕ → ℕ → Parser Done
  dispatch offset next_header = payload parse (ipv6_child next_header) offset (
      if next_header == IpProtocol.ipv6_no_nxt
      then parse_raw offset
      else dispatch_registered parse Protocol.ipv6 next_header offset (parse_raw offset))

  unfoldable pub ipv6 : ParseFn
  ipv6 offset = require Protocol.ipv6 offset 40 >>= λ header.
      push_layer Protocol.ipv6 offset 40
      >> (let end = declared (offset + 40) (field (whole 2) 4 header) in
          within end (dispatch (offset + 40) (field (whole 1) 6 header)) >> trailer end)

  -- A header behind which nothing is left ends the chain.
  abbrev chain : ℕ → ℕ → Parser Done
  chain offset next_header c =
      if length (rest c offset) == 0 then parse_raw offset c else dispatch offset next_header c

  -- `parse_ext_header`, for a header whose length is `declared_len` of its first bytes.
  abbrev length_prefixed : Protocol → ℕ → ℕ → (List ℕ → ℕ) → ParseError → ParseFn
  length_prefixed protocol min_len fixed_len declared_len too_short offset =
      require protocol offset min_len >>= λ prefix. λ c.
        (if ltb (declared_len prefix) fixed_len
            then fail too_short
            else (let len = min (declared_len prefix) (length (rest c offset)) in
                require protocol offset len >>= λ header.
                push_layer protocol offset len >> chain (offset + len) (field (whole 1) 0 header)))
          c

  unfoldable pub parse_ext_header : Protocol → ℕ → ParseFn
  parse_ext_header protocol fixed_len =
      length_prefixed protocol 2 fixed_len (λ prefix. (field (whole 1) 1 prefix + 1) * 8)
        (malformed protocol "header extension length"
          "the declared header is shorter than the fixed part")

  unfoldable pub ah : ParseFn
  ah =
      length_prefixed Protocol.ah 12 12 (λ prefix. (field (whole 1) 1 prefix + 2) * 4)
        (malformed Protocol.ah "payload length"
          "the declared header is shorter than the fixed part")

  unfoldable pub ipv6_frag : ParseFn
  ipv6_frag offset = require Protocol.ipv6_frag offset 8 >>= λ header.
      push_layer Protocol.ipv6_frag offset 8
      >> (if field (record { size = 2; mask = 0xFFF8; shift = 3 }) 2 header == 0
          then dispatch (offset + 8) (field (whole 1) 0 header)
          else parse_raw (offset + 8))

unfoldable pub esp : ParseFn
esp offset =
    require Protocol.esp offset 8 >> (push_layer Protocol.esp offset 8 >> parse_raw (offset + 8))
