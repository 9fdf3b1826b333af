-- ===== src/Options/Tests.antt =====
-- The options of a TCP SYN, one that is cut off, and items that are written.
use maja.Base.{arith, ℕ, ◌≡◌, refl, List, [], ◌∷◌, length, suc}
use maja.Options.RoundTrip.{Writable, whole, filler, ending, collect-encode}
use maja.Options.{Item, end_of_options, no_operation, option, malformed, options_of, next, collect}
use maja.Options.Tiles.{Complete, Tiles, collect_lem, encode_all, collect-Complete}

abbrev syn : List ℕ
syn = 2 ∷ 4 ∷ 0x05 ∷ 0xB4 ∷ 1 ∷ 3 ∷ 3 ∷ 7 ∷ 8 ∷ 10 ∷ 0 ∷ 1 ∷ []

reads :
    collect 13 (options_of syn)
    ≡ option 2 4 (0x05 ∷ 0xB4 ∷ [])
      ∷ no_operation
      ∷ option 3 3 (7 ∷ [])
      ∷ malformed 8 (8 ∷ 10 ∷ 0 ∷ 1 ∷ [])
      ∷ []
unfolding collect next
reads = refl

collect_lem_example : Tiles syn (collect (suc (length syn)) (options_of syn))
collect_lem_example = collect_lem syn

collect-Complete_example : Complete syn (collect (suc (length syn)) (options_of syn))
collect-Complete_example = collect-Complete syn

abbrev written : List Item
written = option 2 4 (5 ∷ 180 ∷ []) ∷ no_operation ∷ option 3 3 (7 ∷ []) ∷ end_of_options ∷ []

written-Writable : Writable written
written-Writable =
    whole 2 4 (5 ∷ 180 ∷ []) _ (omega arith) refl
      (filler _ (whole 3 3 (7 ∷ []) _ (omega arith) refl ending))

collect-encode_example :
    collect (suc (length (encode_all written))) (options_of (encode_all written)) ≡ written
collect-encode_example = collect-encode written written-Writable
