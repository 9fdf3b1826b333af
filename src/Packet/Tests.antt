-- ===== src/Packet/Tests.antt =====
-- Runs of the packet parser.
use maja.Base.{
  ℕ, ◌+◌, true, false, none, some, List, [], ◌∷◌, ◌++◌, replicate, ◌≡◌, ◌≢◌, refl, arith,
}
use maja.Base.Words.{from_bytes}
use maja.Field.{raw}
use maja.Protocol.{Protocol, custom}
use maja.Context.{
  truncated, Layer, ParseOptions, ParseContext, ◌>>=◌, ◌>>◌, new, require, push_layer, parse_raw,
  ends_with_raw, parse_child_with, parse_root, within, registered, register,
}
use maja.Layers.{field}
use maja.Layers.Rules.{Parses-header, Next-child}
use maja.Layers.Link
use maja.Layers.Ip
use maja.Layers.Transport
use maja.Parse.{Custom, parse, step}
use maja.Parse.Total.{WellBehaved}
use maja.Parse.Child.{parse_child_rolls_back}
use maja.Packet.{Packet, fresh, try_parse, nth_layer_bytes, pos}
use maja.Packet.Parsed.{Parsed, try_parse-Parsed}
use maja.Packet.Lookup.{nth_layer_bytes-try_parse}

-- A protocol of a caller: one byte, and an Ethernet frame behind it.
abbrev tag : Custom
tag parse n offset = require (custom n) offset 1 >>= λ header.
    push_layer (custom n) offset 1 >> parse_child_with (parse Protocol.eth) (offset + 1)

tag-WellBehaved : WellBehaved tag
tag-WellBehaved parse fuel serves n =
    Parses-header fuel (custom n) 1 _ (omega arith)
      (λ offset header. Next-child parse fuel serves Protocol.eth (offset + 1))

abbrev default : ParseOptions
default = record {
  panic = false;
  registry = [];
  max_depth = none;
  fallback_to_raw_on_child_error = true;
}

abbrev at : Protocol → ℕ → ℕ → Layer
at p offset len = record { protocol = p; offset = offset; len = len }

abbrev ipv4_udp_dns : List ℕ
ipv4_udp_dns =
    replicate 12 0
    ++ (0x08 ∷ 0x00 ∷ 0x45 ∷ 0 ∷ 0 ∷ 40 ∷ replicate 4 0)
    ++ (64 ∷ 17 ∷ replicate 10 0)
    ++ (0 ∷ 1 ∷ 0 ∷ 53 ∷ 0 ∷ 20 ∷ 0 ∷ 0 ∷ replicate 12 0)
    ++ replicate 6 0

-- A packet in which the tag stands in front of the frame, registered under an EtherType.
abbrev with_tag : ParseOptions
with_tag = record {
  panic = false;
  registry = register [] Protocol.eth 0x88B5 (custom 7);
  max_depth = none;
  fallback_to_raw_on_child_error = true;
}

abbrev tagged : List ℕ
tagged = replicate 12 0 ++ (0x88 ∷ 0xB5 ∷ 1 ∷ ipv4_udp_dns)

try_parse-Parsed_example :
    Parsed with_tag (fresh tagged) (try_parse tag with_tag (fresh tagged) Protocol.eth)
try_parse-Parsed_example =
    try_parse-Parsed tag tag-WellBehaved with_tag (fresh tagged) Protocol.eth tt

nth_layer_bytes-try_parse_example :
    nth_layer_bytes (try_parse tag with_tag (fresh tagged) Protocol.eth).1 Protocol.eth (pos 1)
    ≢ some none
nth_layer_bytes-try_parse_example =
    nth_layer_bytes-try_parse tag tag-WellBehaved with_tag tagged Protocol.eth Protocol.eth (pos 1)

abbrev two_frames : Packet
two_frames = record {
  bytes = tagged;
  layers = at Protocol.eth 0 14 ∷ at (custom 7) 14 1 ∷ at Protocol.eth 15 14 ∷ [];
}

abbrev short_dns : ParseContext
short_dns = new (1 ∷ 2 ∷ []) default (at Protocol.udp 0 1 ∷ [])

parse_child_rolls_back_example :
    parse_child_with (parse tag 2 Protocol.dns) 1 short_dns ≡ parse_raw 1 short_dns
unfolding parse step Transport.whole_rest require
parse_child_rolls_back_example =
    parse_child_rolls_back tag tag-WellBehaved 2 Protocol.dns 1 short_dns short_dns
      (truncated Protocol.dns 1 12 1) tt (omega arith) (omega arith) refl refl

run :
    (try_parse tag default (fresh ipv4_udp_dns) Protocol.eth).1.layers
    ≡ at Protocol.eth 0 14
      ∷ at Protocol.ipv4 14 20
      ∷ at Protocol.udp 34 8
      ∷ at Protocol.dns 42 12
      ∷ at Protocol.raw 54 6
      ∷ []
unfolding try_parse parse step Link.eth Ip.ipv4 Transport.udp Transport.whole_rest require
    push_layer parse_raw ends_with_raw parse_child_with parse_root within registered field raw
    from_bytes
run = refl
