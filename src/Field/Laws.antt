-- ===== src/Field/Laws.antt =====
-- Reading a field that was set, and what a write leaves alone.
use Prim.Native.Nat.{bit_and}
use maja.Base.{
  ℕ, zero, suc, ◌-◌, ◌*◌, ◌/◌, ◌%◌, ◌^◌, ◌≤◌, ◌<◌, ◌≡◌, refl, ap, sym, ◌∙◌, List, Bool, true, false,
  inl, inr, Bool-cases, take-append, drop-append, length-append, length-drop, take, drop, ◌==◌,
  if◌then◌else◌, length, arith,
}
use maja.Base.Bits.{merge, merge_inside, merge_outside, merge-lt}
use maja.Base.Words.{from_bytes, to_bytes, from_bytes-to_bytes, length-to_bytes}
use native.Mathlib.Nat.{mod-eq_of_lt}
use maja.Field.{
  FieldSpec, u64_max, is_whole, mask_in, shl_in, extract, insert, read, write, raw, set,
}

-- A spec that the macro can make of an integer type of up to 64 bits or a byte array: the mask fits
-- the underlay, unless the field is the whole of it.
pub record IsSpec (spec : FieldSpec) : Type 0 where
  pub positive : 1 ≤ spec.size
  pub small : is_whole spec ≡ false → spec.size ≤ 8
  pub mask_fits : is_whole spec ≡ false → spec.mask < 256 ^ spec.size

-- The part of a value that fits into the field.
abbrev pub fit : FieldSpec → ℕ → ℕ
fit spec value =
    if is_whole spec
    then value
    else if spec.shift == 0
    then mask_in spec value spec.mask
    else mask_in spec (shl_in spec value) spec.mask / 2 ^ spec.shift

-- The bits of `size` octets, and a 64-bit complement that is cut to them.
octets_bits : (size : ℕ) → size ≤ 8 → 256 ^ size ≡ 2 ^ (8 * size)
octets_bits zero h = refl
octets_bits (suc zero) h = refl
octets_bits (suc (suc zero)) h = refl
octets_bits (suc (suc (suc zero))) h = refl
octets_bits (suc (suc (suc (suc zero)))) h = refl
octets_bits (suc (suc (suc (suc (suc zero))))) h = refl
octets_bits (suc (suc (suc (suc (suc (suc zero)))))) h = refl
octets_bits (suc (suc (suc (suc (suc (suc (suc zero))))))) h = refl
octets_bits (suc (suc (suc (suc (suc (suc (suc (suc zero)))))))) h = refl
octets_bits (suc (suc (suc (suc (suc (suc (suc (suc (suc n))))))))) h = absurd (omega arith)

cut_complement :
    (size mask : ℕ)
    → size ≤ 8
    → mask < 256 ^ size
    → (u64_max - mask) % 256 ^ size ≡ 256 ^ size - 1 - mask
cut_complement zero mask h k = omega arith
cut_complement (suc zero) mask h k = omega arith
cut_complement (suc (suc zero)) mask h k = omega arith
cut_complement (suc (suc (suc zero))) mask h k = omega arith
cut_complement (suc (suc (suc (suc zero)))) mask h k = omega arith
cut_complement (suc (suc (suc (suc (suc zero))))) mask h k = omega arith
cut_complement (suc (suc (suc (suc (suc (suc zero)))))) mask h k = omega arith
cut_complement (suc (suc (suc (suc (suc (suc (suc zero))))))) mask h k = omega arith
cut_complement (suc (suc (suc (suc (suc (suc (suc (suc zero)))))))) mask h k = omega arith
cut_complement (suc (suc (suc (suc (suc (suc (suc (suc (suc n))))))))) mask h k =
    absurd (omega arith)

if-apply : (f : ℕ → ℕ) (b : Bool) (x y : ℕ) → (if b then f x else f y) ≡ f (if b then x else y)
if-apply f true x y = refl
if-apply f false x y = refl

if-same : (b : Bool) (x : ℕ) → (if b then x else x) ≡ x
if-same true x = refl
if-same false x = refl

-- A write that is no plain copy is a masked merge.
abbrev placed : FieldSpec → ℕ → ℕ
placed spec value = if spec.shift == 0 then value else shl_in spec value

insert-merge :
    {spec : FieldSpec} (s : IsSpec spec) (prev_value value : ℕ)
    → is_whole spec ≡ false
    → insert spec prev_value value ≡ merge (8 * spec.size) prev_value (placed spec value) spec.mask
insert-merge {spec} s prev_value value part =
    let small = s.small part in
    let fits = s.mask_fits part in
    rw
      (
        part,
        cut_complement spec.size spec.mask small fits
            ∙ ap (λ (t : ℕ). t - 1 - spec.mask) (octets_bits spec.size small),
        mod-eq_of_lt fits,
      )
      (if-apply (λ x. merge (8 * spec.size) prev_value x spec.mask) (spec.shift == 0) value
        (shl_in spec value))

insert-lt :
    {spec : FieldSpec} (s : IsSpec spec) (prev_value value : ℕ)
    → value < 256 ^ spec.size
    → insert spec prev_value value < 256 ^ spec.size
insert-lt {spec} s prev_value value h = elim (Bool-cases (is_whole spec)) [
  | inl all ↦ rw all h
  | inr part ↦
      let bits = octets_bits spec.size (s.small part) in
      let fits : spec.mask < 2 ^ (8 * spec.size) = omega (arith, bits, s.mask_fits part) in
      omega (
        arith,
        bits,
        insert-merge s prev_value value part,
        merge-lt (8 * spec.size) prev_value (placed spec value) spec.mask fits,
      )
]

read-write :
    (spec : FieldSpec) (msb : Bool) (bytes : List ℕ) (value : ℕ)
    → value < 256 ^ spec.size
    → read spec msb (write spec msb bytes value) ≡ value
unfolding read write
read-write spec msb bytes value h =
    rw (take-append spec.size _ (drop spec.size bytes) (length-to_bytes msb spec.size value))
      (from_bytes-to_bytes msb spec.size value h)

shift_zero :
    (n m x y : ℕ)
    → (if n == 0 then bit_and x m else bit_and y m / 2 ^ n)
      ≡ bit_and (if n == 0 then x else y) m / 2 ^ n
shift_zero zero m x y = omega arith
shift_zero (suc n) m x y = ground arith

-- Off the whole field, `raw` masks and shifts, and a value that fits is masked and shifted back.
extract-part :
    {spec : FieldSpec} (s : IsSpec spec) (value : ℕ)
    → is_whole spec ≡ false
    → extract spec value ≡ bit_and value spec.mask / 2 ^ spec.shift
extract-part {spec} s value part =
    rw (part, mod-eq_of_lt (s.mask_fits part))
      (shift_zero spec.shift spec.mask value value
        ∙ ap (λ (t : ℕ). bit_and t spec.mask / 2 ^ spec.shift) (if-same (spec.shift == 0) value))

fit-part :
    {spec : FieldSpec} (s : IsSpec spec) (value : ℕ)
    → is_whole spec ≡ false
    → fit spec value ≡ bit_and (placed spec value) spec.mask / 2 ^ spec.shift
fit-part {spec} s value part =
    rw (part, mod-eq_of_lt (s.mask_fits part))
      (shift_zero spec.shift spec.mask value (shl_in spec value))

extract-insert :
    {spec : FieldSpec} (s : IsSpec spec) (prev_value value : ℕ)
    → extract spec (insert spec prev_value value) ≡ fit spec value
extract-insert {spec} s prev_value value = elim (Bool-cases (is_whole spec)) [
  | inl all ↦ rw all
  | inr part ↦
      let bits = octets_bits spec.size (s.small part) in
      let fits : spec.mask < 2 ^ (8 * spec.size) = omega (arith, bits, s.mask_fits part) in
      extract-part s (insert spec prev_value value) part
      ∙ ap (λ (t : ℕ). bit_and t spec.mask / 2 ^ spec.shift) (insert-merge s prev_value value part)
      ∙ ap (λ (t : ℕ). t / 2 ^ spec.shift)
          (merge_inside (8 * spec.size) prev_value (placed spec value) spec.mask fits)
      ∙ sym (fit-part s value part)
]

-- A field that is set reads back as the part of the value that fits into it, in either byte order,
-- for a specification whose mask fits its octets and a value of the underlay type.
pub raw-set :
    (spec : FieldSpec) (msb : Bool) (bytes : List ℕ) (value : ℕ)
    → IsSpec spec
    → value < 256 ^ spec.size
    → raw spec msb (set spec msb bytes value) ≡ fit spec value
unfolding raw set
raw-set spec msb bytes value s h =
    rw (read-write spec msb bytes (insert spec (read spec msb bytes) value) (insert-lt s _ value h))
      (extract-insert s (read spec msb bytes) value)

read-size :
    (spec spec' : FieldSpec) (msb : Bool) (bytes : List ℕ)
    → spec.size ≡ spec'.size
    → read spec msb bytes ≡ read spec' msb bytes
unfolding read
read-size spec spec' msb bytes same = ap (λ (n : ℕ). from_bytes msb (take n bytes)) same

-- Setting a field leaves another field of the same octets as it was, if their masks share no bit,
-- both are masked, their specifications fit their octets, and the value is one of the underlay
-- type.
pub raw-set_disjoint :
    (spec other : FieldSpec) (msb : Bool) (bytes : List ℕ) (value : ℕ)
    → IsSpec spec
    → IsSpec other
    → other.size ≡ spec.size
    → is_whole spec ≡ false
    → is_whole other ≡ false
    → bit_and spec.mask other.mask ≡ 0
    → value < 256 ^ spec.size
    → raw other msb (set spec msb bytes value) ≡ raw other msb bytes
unfolding raw set
raw-set_disjoint spec other msb bytes value s o same part opart disjoint h =
    let bits = octets_bits spec.size (s.small part) in
    let previous = read spec msb bytes in
    extract-part o _ opart
    ∙ ap (λ (t : ℕ). bit_and t other.mask / 2 ^ other.shift)
        (read-size other spec msb (set spec msb bytes value) same
          ∙ read-write spec msb bytes (insert spec previous value) (insert-lt s previous value h)
          ∙ insert-merge s previous value part)
    ∙ ap (λ (t : ℕ). t / 2 ^ other.shift)
        (merge_outside (8 * spec.size) previous (placed spec value) spec.mask other.mask
          (omega (arith, bits, s.mask_fits part)) (rw (← bits, ← same) (o.mask_fits opart))
          disjoint)
    ∙ ap (λ (t : ℕ). bit_and t other.mask / 2 ^ other.shift)
        (sym (read-size other spec msb bytes same))
    ∙ sym (extract-part o _ opart)

-- Setting a field in a slice that holds its octets keeps the length of the slice and every octet
-- behind the field.
pub set_rest :
    (spec : FieldSpec) (msb : Bool) (bytes : List ℕ) (value : ℕ)
    → spec.size ≤ length bytes
    → (length (set spec msb bytes value) ≡ length bytes)
      × (drop spec.size (set spec msb bytes value) ≡ drop spec.size bytes)
unfolding set write
set_rest spec msb bytes value h =
    let written = to_bytes msb spec.size (insert spec (read spec msb bytes) value) in
    (
      omega (
        arith,
        length-append written (drop spec.size bytes),
        length-to_bytes msb spec.size (insert spec (read spec msb bytes) value),
        length-drop spec.size bytes,
      ),
      drop-append spec.size written (drop spec.size bytes) (length-to_bytes msb spec.size _),
    )
