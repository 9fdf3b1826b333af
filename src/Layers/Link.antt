-- ===== src/Layers/Link.antt =====
-- src/packet/layer: eth.rs, vlan.rs, llc.rs, sll.rs, mpls.rs and arp.rs.
pub mod Outcome
use Prim.Native.Nat.{bit_and}
use maja.Base.{
  ℕ, zero, suc, ◌+◌, ◌*◌, ◌/◌, ◌^◌, Bool, true, false, ◌&&◌, Option, none, some, List, get_elem?,
  leb, ◌==◌, if◌then◌else◌,
}
use maja.Field.{FieldSpec, whole}
use maja.Protocol.{
  Protocol, EthType, eth_type_from, eth_type_into, mpls_unicast, mpls_multicast, reserverd,
}
use maja.Context.{
  stuck, Parser, Done, ParseFn, ◌>>=◌, ◌>>◌, pure, fail, end, require, push_layer, parse_raw,
  dispatch_registered,
}
use maja.Layers.{field, payload}

-- The arms of Eth and Vlan; a number up to 1500 is a length, in front of LLC.
abbrev vlan_child : EthType → Option Protocol
vlan_child EthType.ipv4 = some Protocol.ipv4
vlan_child EthType.arp = some Protocol.arp
vlan_child EthType.ipv6 = some Protocol.ipv6
vlan_child mpls_unicast = some Protocol.mpls
vlan_child mpls_multicast = some Protocol.mpls
vlan_child (reserverd len) = if leb len 1500 then some Protocol.llc else none
vlan_child other = none

abbrev eth_child : EthType → Option Protocol
eth_child EthType.vlan = some Protocol.vlan
eth_child other = vlan_child other

-- The arms of LLC/SNAP and of SLL over Ethernet.
abbrev snap_child : EthType → Option Protocol
snap_child EthType.ipv4 = some Protocol.ipv4
snap_child EthType.arp = some Protocol.arp
snap_child EthType.ipv6 = some Protocol.ipv6
snap_child mpls_unicast = some Protocol.mpls
snap_child mpls_multicast = some Protocol.mpls
snap_child other = none

-- `control_length == 1 && is_snap`.
abbrev is_snap : List ℕ → Bool
is_snap header =
    bit_and (field (whole 1) 2 header) 0x03 == 0x03
    && field (whole 1) 0 header == 0xAA
    && field (record { size = 1; mask = 0xFE; shift = 0 }) 1 header == 0xAA

module _ (parse : Protocol → ParseFn) where
  unfoldable pub eth : ParseFn
  eth offset = require Protocol.eth offset 14 >>= λ header.
      let eth_type = eth_type_from (field (whole 2) 12 header) in
      push_layer Protocol.eth offset 14
      >> payload parse (eth_child eth_type) (offset + 14) (
          dispatch_registered parse Protocol.eth (eth_type_into eth_type) (offset + 14)
            (parse_raw (offset + 14)))

  unfoldable pub vlan : ParseFn
  vlan offset = require Protocol.vlan offset 4 >>= λ header.
      let eth_type = eth_type_from (field (whole 2) 2 header) in
      push_layer Protocol.vlan offset 4
      >> payload parse (vlan_child eth_type) (offset + 4) (
          dispatch_registered parse Protocol.vlan (eth_type_into eth_type) (offset + 4)
            (parse_raw (offset + 4)))

  unfoldable pub llc : ParseFn
  llc offset = require Protocol.llc offset 3 >>= λ min_header.
      if is_snap min_header
      then (require Protocol.llc offset 8 >>= λ header.
          push_layer Protocol.llc offset 8
          >> payload parse (snap_child (eth_type_from (field (whole 2) 6 header))) (offset + 8)
              (parse_raw (offset + 8)))
      else pure tt

  unfoldable pub sll : ParseFn
  sll offset = require Protocol.sll offset 16 >>= λ header.
      let protocol_type = eth_type_from (field (whole 2) 14 header) in
      push_layer Protocol.sll offset 16
      >> (if field (whole 2) 2 header == 1
          then payload parse (snap_child protocol_type) (offset + 16) (
              dispatch_registered parse Protocol.sll (eth_type_into protocol_type) (offset + 16)
                (parse_raw (offset + 16)))
          else parse_raw (offset + 16))

  -- The child behind the label stack, by the version in the first byte.
  abbrev mpls_payload : Option ℕ → ParseFn
  mpls_payload none next_offset = pure tt
  mpls_payload (some first_payload_byte) next_offset =
      let version = first_payload_byte / 2 ^ 4 in
      payload parse
        (if version == 4
          then some Protocol.ipv4
          else if version == 6
          then some Protocol.ipv6
          else none)
        next_offset (parse_raw next_offset)

-- The loop over the label stack; it returns `len` and `next_offset`.
unfoldable pub mpls_entries : ℕ → ℕ → ℕ → Parser (ℕ × ℕ)
mpls_entries zero len next_offset = fail stuck
mpls_entries (suc fuel) len next_offset = require Protocol.mpls next_offset 4 >>= λ entry.
    let more = mpls_entries fuel (len + 4) (next_offset + 4) in
    if field (record { size = 4; mask = 0x100; shift = 8 }) 0 entry == 0
    then more
    else pure (len + 4, next_offset + 4)

module _ (parse : Protocol → ParseFn) where
  unfoldable pub mpls : ParseFn
  mpls offset c =
      (mpls_entries (suc (end c)) 0 offset >>= λ (len, next_offset).
      push_layer Protocol.mpls offset len >> λ c'.
      mpls_payload parse (get_elem? c'.bytes next_offset) next_offset c')
        c

unfoldable pub arp : ParseFn
arp offset = require Protocol.arp offset 8 >>= λ header.
    let len = 8 + 2 * (field (whole 1) 4 header + field (whole 1) 5 header) in
    require Protocol.arp offset len >> push_layer Protocol.arp offset len
