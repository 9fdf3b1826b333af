-- ===== src/Layers/Ip/Tests.antt =====
-- A HIP header of 40 octets of which the capture has two.
use maja.Base.{false, none, [], ◌∷◌}
use maja.Protocol.{Protocol}
use maja.Context.{ParseContext, ParseFn, new, parse_raw}

abbrev cut_off : ParseContext
cut_off =
    new (59 ∷ 4 ∷ [])
      (record {
        panic = false;
        registry = [];
        max_depth = none;
        fallback_to_raw_on_child_error = false;
      })
      []

abbrev no_child : Protocol → ParseFn
no_child p = parse_raw
