-- ===== src/Packet/Parsed.antt =====
-- What `try_parse` and `try_parse_with_link_type` do to a packet.
use mathlib.Core.Option
use maja.Base.{
  ℕ, suc, ◌/◌, ◌^◌, ◌≡◌, ◌≢◌, refl, Option, none, some, List, ◌++◌, arith, ◌==◌, length, get_elem?,
}
use maja.Protocol.{Protocol, LinkType, ethernet, linux_sll, other}
use maja.Context.{
  unsupported_link_type, stuck, Result, ok, err, Layer, ParseOptions, ParseContext, Done, new,
  parse_root, can_push_layer,
}
use maja.Context.Outcome.{Outcome, Ordered, WithinDepth, Outcome-same, Outcome-raw}
use maja.Context.Rules.{Outcome-if, Outcome-choose}
use maja.Parse.{Custom}
use maja.Parse.Total.{WellBehaved, parse-Serves}
use maja.Packet.{
  Packet, root, link_root, link_root_raw, update, try_parse, try_parse_with_link_type,
}

-- What the parse of a packet may do: the bytes and the layers that were there stay; the new layers
-- stand behind them, in wire order, each of at least one byte and behind the one before it, and none
-- reaches past the packet; at most `max_depth` layers are not raw; and there is a real result.
pub record Parsed (options : ParseOptions) (packet : Packet) (r : Result Done × Packet)
    : Type 0 where
  pub bytes_kept : r.1.bytes ≡ packet.bytes
  pub added : List Layer
  pub layers_grow : r.1.layers ≡ packet.layers ++ added
  pub ordered : Ordered 0 (length packet.bytes) added
  pub shallow : WithinDepth options.max_depth r.1.layers
  pub real : r.0 ≢ err stuck

module _ (custom : Custom) (good : WellBehaved custom) (options : ParseOptions)
    (packet : Packet) where
  abbrev start : ParseContext
  start = new packet.bytes options packet.layers

  Outcome-root :
      (p : Protocol)
      → WithinDepth options.max_depth packet.layers
      → Outcome 0 start (root custom options packet p start)
  unfolding parse_root
  Outcome-root p h =
      Outcome-if (can_push_layer start)
        (parse-Serves custom good (suc (length packet.bytes)) p 0 start h (omega arith)
          (omega arith))
        (Outcome-same 0 start (ok tt) h (λ e. cc))

  Parsed-update :
      (r : Result Done × ParseContext) → Outcome 0 start r → Parsed options packet (update packet r)
  Parsed-update r o = record {
    bytes_kept = refl;
    added = o.added;
    layers_grow = o.layers_grow;
    ordered = o.ordered;
    shallow = rw o.options_kept at o.shallow;
    real = o.real;
  }

  -- For every packet, root protocol and set of options with custom parsers that are well-behaved,
  -- try_parse comes to a real result; it keeps the bytes and the layers that were there, adds its
  -- layers in wire order (each at least one byte long, behind the one before, none past the
  -- packet), and, where the layers were at most max_depth before, at most max_depth layers are not
  -- raw.
  pub try_parse-Parsed :
      (p : Protocol)
      → WithinDepth options.max_depth packet.layers
      → Parsed options packet (try_parse custom options packet p)
  unfolding try_parse
  try_parse-Parsed p h = Parsed-update (root custom options packet p start) (Outcome-root p h)

  Outcome-version :
      (first : Option ℕ)
      → WithinDepth options.max_depth packet.layers
      → Outcome 0 start (link_root_raw custom options packet first start)
  Outcome-version none h = Outcome-raw 0 0 start (omega arith) h
  Outcome-version (some version) h =
      Outcome-choose (version == 4) _ _ (Outcome-root Protocol.ipv4 h) (
        Outcome-choose (version == 6) _ _ (Outcome-root Protocol.ipv6 h)
          (Outcome-raw 0 0 start (omega arith) h))

  Outcome-link :
      (link_type : LinkType)
      → WithinDepth options.max_depth packet.layers
      → Outcome 0 start (link_root custom options packet link_type start)
  Outcome-link ethernet h = Outcome-root Protocol.eth h
  Outcome-link linux_sll h = Outcome-root Protocol.sll h
  Outcome-link LinkType.ipv4 h = Outcome-root Protocol.ipv4 h
  Outcome-link LinkType.ipv6 h = Outcome-root Protocol.ipv6 h
  Outcome-link LinkType.raw h =
      Outcome-version (Option.map (λ byte. byte / 2 ^ 4) (get_elem? packet.bytes 0)) h
  Outcome-link (other n) h =
      Outcome-same 0 start (err (unsupported_link_type (other n))) h (λ e. cc)

  -- The same holds of try_parse_with_link_type, for every link type, also one that is not
  -- supported.
  pub try_parse_with_link_type-Parsed :
      (link_type : LinkType)
      → WithinDepth options.max_depth packet.layers
      → Parsed options packet (try_parse_with_link_type custom options packet link_type)
  unfolding try_parse_with_link_type
  try_parse_with_link_type-Parsed link_type h =
      Parsed-update (link_root custom options packet link_type start) (Outcome-link link_type h)
