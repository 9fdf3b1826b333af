-- ===== src/Field.antt =====
-- src/packet/utils/field.rs: typed fields inside of byte slices.
pub mod Laws
mod Tests
use Prim.Native.Nat.{bit_and, bit_or}
use maja.Base.{ℕ, ◌-◌, ◌*◌, ◌/◌, ◌%◌, ◌^◌, List, ◌++◌, Bool, ◌&&◌, take, drop, ◌==◌, if◌then◌else◌}
use maja.Base.Words.{from_bytes, to_bytes}

-- `trait FieldSpec`: the octets of the underlay type `U`, `MASK` and `SHIFT`.
pub record FieldSpec : Type 0 where
  pub size : ℕ
  pub mask : ℕ
  pub shift : ℕ

abbrev pub u64_max : ℕ
u64_max = 2 ^ 64 - 1

-- `field_spec!` with a target and an underlay only.
abbrev pub whole : ℕ → FieldSpec
whole size = record { size = size; mask = u64_max; shift = 0 }

-- `Underlay::mask`: the mask is cut to the width of the underlay.
abbrev pub mask_in : FieldSpec → ℕ → ℕ → ℕ
mask_in spec value mask = bit_and value (mask % 256 ^ spec.size)

-- `Underlay::shl` drops what leaves the width.
abbrev pub shl_in : FieldSpec → ℕ → ℕ
shl_in spec value = value * 2 ^ spec.shift % 256 ^ spec.size

abbrev pub is_whole : FieldSpec → Bool
is_whole spec = spec.mask == u64_max && spec.shift == 0

-- What `raw` makes of the value that was read.
abbrev pub extract : FieldSpec → ℕ → ℕ
extract spec value =
    if is_whole spec
    then value
    else if spec.shift == 0
    then mask_in spec value spec.mask
    else mask_in spec value spec.mask / 2 ^ spec.shift

-- What `set` writes over the previous value.
abbrev pub insert : FieldSpec → ℕ → ℕ → ℕ
insert spec prev_value value =
    if is_whole spec
    then value
    else if spec.shift == 0
    then bit_or (mask_in spec prev_value (u64_max - spec.mask)) (mask_in spec value spec.mask)
    else bit_or (mask_in spec prev_value (u64_max - spec.mask))
        (mask_in spec (shl_in spec value) spec.mask)

-- `read_unaligned`, with the conversion from the byte order `MSB`.
pub read : FieldSpec → Bool → List ℕ → ℕ
unfolding from_bytes
read spec msb bytes = from_bytes msb (take spec.size bytes)

-- `write_unaligned`, with the conversion to the byte order `MSB`.
pub write : FieldSpec → Bool → List ℕ → ℕ → List ℕ
unfolding to_bytes
write spec msb bytes value = to_bytes msb spec.size value ++ drop spec.size bytes

-- `FieldAccessor::raw`.
unfoldable pub raw : FieldSpec → Bool → List ℕ → ℕ
unfolding read
raw spec msb bytes = extract spec (read spec msb bytes)

-- `FieldAccessor::set`, of a value in the underlay type.
unfoldable pub set : FieldSpec → Bool → List ℕ → ℕ → List ℕ
unfolding read write
set spec msb bytes value = write spec msb bytes (insert spec (read spec msb bytes) value)
