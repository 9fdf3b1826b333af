-- ===== src/Field/Tests.antt =====
-- The fields of an IPv4 header at work: the flags share two octets with the fragment offset.
use maja.Base.{ℕ, ◌≡◌, true, List, [], ◌∷◌, arith}
use maja.Field.{FieldSpec, raw, set}
use maja.Field.Laws.{IsSpec, fit, raw-set}

abbrev fragment_offset : FieldSpec
fragment_offset = record { size = 2; mask = 0x1FFF; shift = 0 }

abbrev flags : FieldSpec
flags = record { size = 2; mask = 0xE000; shift = 13 }

abbrev octets : List ℕ
octets = 0x40 ∷ 0x07 ∷ 0xFF ∷ []

fragment_offset-IsSpec : IsSpec fragment_offset
fragment_offset-IsSpec = record {
  positive = omega arith;
  small = λ e. omega arith;
  mask_fits = λ e. omega arith;
}

flags-IsSpec : IsSpec flags
flags-IsSpec = record {
  positive = omega arith;
  small = λ e. omega arith;
  mask_fits = λ e. omega arith;
}

raw-set_example : raw flags true (set flags true octets 3) ≡ fit flags 3
raw-set_example = raw-set flags true octets 3 flags-IsSpec (omega arith)
