-- ===== src/Base/Words.antt =====
-- Byte strings as numbers: `from_be_bytes`, `to_be_bytes` and their little-endian forms.
use maja.Base.{
  ℕ, zero, suc, ◌+◌, ◌*◌, ◌/◌, ◌%◌, ◌^◌, ◌<◌, ◌≡◌, refl, ap, List, [], ◌∷◌, ◌++◌, arith,
}
use maja.Base.{Bool, true, false, length, length-reverse, ◌∙◌}
use mathlib.Core.List.{reverse, reverse-reverse, reverse-append}
use native.Mathlib.Nat.{pow-suc}

abbrev pub IsByte : ℕ → Type 0
IsByte b = b < 256

abbrev pub AllBytes : List ℕ → Type 0
AllBytes [] = Unit
AllBytes (b ∷ bs) = IsByte b × AllBytes bs

-- `u16::from_be_bytes([hi, lo])`.
abbrev pub be16 : ℕ → ℕ → ℕ
be16 hi lo = hi * 256 + lo

-- `u16::to_be_bytes` and `u32::to_be_bytes`.
abbrev pub to_be16 : ℕ → List ℕ
to_be16 n = n / 256 % 256 ∷ n % 256 ∷ []

abbrev pub to_be32 : ℕ → List ℕ
to_be32 n = n / 256 ^ 3 % 256 ∷ n / 256 ^ 2 % 256 ∷ n / 256 % 256 ∷ n % 256 ∷ []

pub AllBytes-append : (xs ys : List ℕ) → AllBytes xs → AllBytes ys → AllBytes (xs ++ ys)
AllBytes-append [] ys h k = k
AllBytes-append (x ∷ xs) ys h k = (h.0, AllBytes-append xs ys h.1 k)

-- A number from its bytes, the lowest first.
pub le_value : List ℕ → ℕ
le_value [] = 0
le_value (b ∷ bs) = b + 256 * le_value bs

-- The `n` bytes of a number, the lowest first.
unfoldable pub to_le : ℕ → ℕ → List ℕ
to_le zero v = []
to_le (suc n) v = v % 256 ∷ to_le n (v / 256)

pub length-to_le : (n v : ℕ) → length (to_le n v) ≡ n
unfolding to_le
length-to_le zero v = refl
length-to_le (suc n) v = ap suc (length-to_le n (v / 256))

pub to_le-AllBytes : (n v : ℕ) → AllBytes (to_le n v)
unfolding to_le
to_le-AllBytes zero v = tt
to_le-AllBytes (suc n) v = (omega arith, to_le-AllBytes n (v / 256))

pub le_value-to_le : (n v : ℕ) → v < 256 ^ n → le_value (to_le n v) ≡ v
unfolding le_value to_le
le_value-to_le zero v h = omega arith
le_value-to_le (suc n) v h =
    omega (arith, le_value-to_le n (v / 256) (omega (arith, pow-suc 256 n)))

pub le_value-lt : (bs : List ℕ) → AllBytes bs → le_value bs < 256 ^ length bs
unfolding le_value
le_value-lt [] h = omega arith
le_value-lt (b ∷ bs) h = omega (arith, pow-suc 256 (length bs), le_value-lt bs h.1)

-- Bytes of a number in either byte order, the big-endian one if `msb`.
unfoldable pub from_bytes : Bool → List ℕ → ℕ
unfolding le_value
from_bytes true bs = le_value (reverse bs)
from_bytes false bs = le_value bs

unfoldable pub to_bytes : Bool → ℕ → ℕ → List ℕ
unfolding to_le
to_bytes true n v = reverse (to_le n v)
to_bytes false n v = to_le n v

pub from_bytes-to_bytes :
    (msb : Bool) (n v : ℕ) → v < 256 ^ n → from_bytes msb (to_bytes msb n v) ≡ v
unfolding from_bytes to_bytes
from_bytes-to_bytes true n v h = rw reverse-reverse (le_value-to_le n v h)
from_bytes-to_bytes false n v h = le_value-to_le n v h

pub length-to_bytes : (msb : Bool) (n v : ℕ) → length (to_bytes msb n v) ≡ n
unfolding to_bytes
length-to_bytes true n v = length-reverse (to_le n v) ∙ length-to_le n v
length-to_bytes false n v = length-to_le n v

AllBytes-reverse : (bs : List ℕ) → AllBytes bs → AllBytes (reverse bs)
AllBytes-reverse [] h = tt
AllBytes-reverse (b ∷ bs) h =
    rw (reverse-append (b ∷ []) bs)
      (AllBytes-append (reverse bs) (b ∷ []) (AllBytes-reverse bs h.1) (h.0, tt))

pub to_bytes-AllBytes : (msb : Bool) (n v : ℕ) → AllBytes (to_bytes msb n v)
unfolding to_bytes
to_bytes-AllBytes true n v = AllBytes-reverse (to_le n v) (to_le-AllBytes n v)
to_bytes-AllBytes false n v = to_le-AllBytes n v

pub from_bytes-lt : (msb : Bool) (bs : List ℕ) → AllBytes bs → from_bytes msb bs < 256 ^ length bs
unfolding from_bytes
from_bytes-lt true bs h =
    rw (← length-reverse bs) (le_value-lt (reverse bs) (AllBytes-reverse bs h))
from_bytes-lt false bs h = le_value-lt bs h
