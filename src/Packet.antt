-- ===== src/Packet.antt =====
-- `Packet` of src/packet.rs, with `Layer::range` and `Layer::bytes` of src/packet/layer.rs.
pub mod Parsed
pub mod Lookup
mod Tests
use mathlib.Core.List.{reverse}
use mathlib.Core.Option
use maja.Base.{
  ℕ, suc, ◌+◌, ◌/◌, ◌^◌, Bool, Option, none, some, List, [], ◌∷◌, ◌==◌, if◌then◌else◌, length,
  get_elem?,
}
use maja.Protocol.{Protocol, LinkType, is, ethernet, linux_sll, other}
use maja.Context.{
  unsupported_link_type, Result, ok, err, Layer, ParseOptions, ParseContext, Parser, Done, ParseFn,
  pure, fail, new, parse_root, parse_raw, get_range,
}
use maja.Parse.{Custom, parse}

-- `isize`.
pub data ℤ : Type 0 where
  pos negsuc : ℕ → ℤ

pub record Packet : Type 0 where
  pub bytes : List ℕ
  pub layers : List Layer

-- `Packet::new`.
abbrev pub fresh : List ℕ → Packet
fresh bytes = record { bytes = bytes; layers = [] }

-- The packet takes the layers of the context over, also on an error.
abbrev update : Packet → Result Done × ParseContext → Result Done × Packet
update packet (result, context) = (result, record packet { layers = context.layers })

module _ (custom : Custom) (options : ParseOptions) (packet : Packet) where
  -- `context.parse::<P>(0)`, with fuel for every byte.
  abbrev root : Protocol → Parser Done
  root p = parse_root (parse custom (suc (length packet.bytes)) p) 0

  pub try_parse : Protocol → Result Done × Packet
  try_parse p = update packet (root p (new packet.bytes options packet.layers))

  -- Raw IP: the version is in the first byte.
  abbrev link_root_raw : Option ℕ → Parser Done
  link_root_raw none = parse_raw 0
  link_root_raw (some version) =
      if version == 4
      then root Protocol.ipv4
      else if version == 6
      then root Protocol.ipv6
      else parse_raw 0

  -- The root parser of a link type.
  abbrev link_root : LinkType → Parser Done
  link_root ethernet = root Protocol.eth
  link_root linux_sll = root Protocol.sll
  link_root LinkType.ipv4 = root Protocol.ipv4
  link_root LinkType.ipv6 = root Protocol.ipv6
  link_root LinkType.raw =
      link_root_raw (Option.map (λ byte. byte / 2 ^ 4) (get_elem? packet.bytes 0))
  link_root (other n) = fail (unsupported_link_type (other n))

  pub try_parse_with_link_type : LinkType → Result Done × Packet
  try_parse_with_link_type link_type =
      update packet (link_root link_type (new packet.bytes options packet.layers))

-- An error stops the program if `options.panic` asks for it, and is logged otherwise.
abbrev report : ParseOptions → Result Done × Packet → Option Packet
report options (ok done, packet) = some packet
report options (err e, packet) = if options.panic then none else some packet

-- `Packet::parse` and `Packet::parse_with_link_type`; `none` is a panic.
pub parse_packet : Custom → ParseOptions → Packet → Protocol → Option Packet
parse_packet custom options packet p = report options (try_parse custom options packet p)

pub parse_with_link_type : Custom → ParseOptions → Packet → LinkType → Option Packet
parse_with_link_type custom options packet link_type =
    report options (try_parse_with_link_type custom options packet link_type)

-- `filter(|layer| layer.protocol.id() == protocol_id)`.
abbrev matching : Protocol → List Layer → List Layer
matching p [] = []
matching p (l ∷ ls) = let found = matching p ls in if is l.protocol p then l ∷ found else found

-- Index 0 is the innermost layer; a negative index counts from the outermost one.
unfoldable pub nth_layer : Packet → Protocol → ℤ → Option Layer
nth_layer packet p (pos index) = get_elem? (reverse (matching p packet.layers)) index
nth_layer packet p (negsuc index) = get_elem? (matching p packet.layers) index

pub layer : Packet → Protocol → Option Layer
layer packet p = nth_layer packet p (pos 0)

-- `Layer::range`, by its two ends.
abbrev pub range : Layer → ℕ × ℕ
range l = (l.offset, l.offset + l.len)

-- `Layer::bytes`; `none` is the panic of a range that is out of bounds.
abbrev pub bytes_of : Layer → List ℕ → Option (List ℕ)
bytes_of l packet_bytes = get_range packet_bytes l.offset (l.offset + l.len)

pub nth_layer_range : Packet → Protocol → ℤ → Option (ℕ × ℕ)
nth_layer_range packet p index = Option.map range (nth_layer packet p index)

pub nth_layer_bytes : Packet → Protocol → ℤ → Option (Option (List ℕ))
nth_layer_bytes packet p index =
    Option.map (λ l. bytes_of l packet.bytes) (nth_layer packet p index)
