-- ===== src/Base/Bits.antt =====
-- The native `&` and `|` one binary digit at a time, and the laws of masked writes.
use Prim.Native.Nat.{max, digits, bit_and-bitwise, bit_or-bitwise}
use native.Mathlib.Nat.{pow-suc}
use maja.Base.{ℕ, zero, suc, ◌+◌, ◌-◌, ◌*◌, ◌/◌, ◌%◌, ◌^◌, ◌≤◌, ◌<◌, ◌≡◌, refl, ap, min, arith}
pub use Prim.Native.Nat.{bit_and, bit_or}

module _ (alone : ℕ → ℕ) (digit : ℕ → ℕ → ℕ) where
  -- Fuel beyond the number itself changes nothing.
  enough_fuel :
      (fuel more a b : ℕ)
      → a ≤ fuel
      → a ≤ more
      → digits alone digit fuel a b ≡ digits alone digit more a b
  enough_fuel fuel more zero b h k = both_end fuel more
    where
      both_end : (n m : ℕ) → digits alone digit n zero b ≡ digits alone digit m zero b
      both_end zero zero = refl
      both_end zero (suc m) = refl
      both_end (suc n) zero = refl
      both_end (suc n) (suc m) = refl
  enough_fuel zero more (suc a) b h k = absurd (omega arith)
  enough_fuel (suc fuel) zero (suc a) b h k = absurd (omega arith)
  enough_fuel (suc fuel) (suc more) (suc a) b h k =
      rw (enough_fuel fuel more (suc a / 2) (b / 2) (omega arith) (omega arith))

pub and_digit : (a b : ℕ) → bit_and a b ≡ bit_and (a / 2) (b / 2) * 2 + min (a % 2) (b % 2)
and_digit zero b = omega (arith, bit_and-bitwise 0 b, bit_and-bitwise 0 (b / 2))
and_digit (suc a) b = omega (
  arith,
  bit_and-bitwise (suc a) b,
  bit_and-bitwise (suc a / 2) (b / 2),
  enough_fuel (λ _. zero) min a (suc a / 2) (suc a / 2) (b / 2) (omega arith) (omega arith),
)

pub or_digit : (a b : ℕ) → bit_or a b ≡ bit_or (a / 2) (b / 2) * 2 + max (a % 2) (b % 2)
or_digit zero b = omega (arith, bit_or-bitwise 0 b, bit_or-bitwise 0 (b / 2))
or_digit (suc a) b = omega (
  arith,
  bit_or-bitwise (suc a) b,
  bit_or-bitwise (suc a / 2) (b / 2),
  enough_fuel (λ y. y) max a (suc a / 2) (suc a / 2) (b / 2) (omega arith) (omega arith),
)

and_half : (a b : ℕ) → bit_and a b / 2 ≡ bit_and (a / 2) (b / 2)
and_half a b = omega (arith, and_digit a b)

and_low : (a b : ℕ) → bit_and a b % 2 ≡ min (a % 2) (b % 2)
and_low a b = omega (arith, and_digit a b)

or_half : (a b : ℕ) → bit_or a b / 2 ≡ bit_or (a / 2) (b / 2)
or_half a b = omega (arith, or_digit a b)

or_low : (a b : ℕ) → bit_or a b % 2 ≡ max (a % 2) (b % 2)
or_low a b = omega (arith, or_digit a b)

-- `p & !mask | x & mask`, in words of `n` bits.
abbrev pub merge : ℕ → ℕ → ℕ → ℕ → ℕ
merge n p x mask = bit_or (bit_and p (2 ^ n - 1 - mask)) (bit_and x mask)

not_half : (n mask : ℕ) → mask < 2 ^ suc n → (2 ^ suc n - 1 - mask) / 2 ≡ 2 ^ n - 1 - mask / 2
not_half n mask h = omega (arith, pow-suc 2 n)

not_low : (n mask : ℕ) → mask < 2 ^ suc n → (2 ^ suc n - 1 - mask) % 2 ≡ 1 - mask % 2
not_low n mask h = omega (arith, pow-suc 2 n)

merge_half :
    (n p x mask : ℕ)
    → mask < 2 ^ suc n
    → merge (suc n) p x mask / 2 ≡ merge n (p / 2) (x / 2) (mask / 2)
merge_half n p x mask h = rw (or_half, and_half, and_half, not_half n mask h)

merge_low :
    (n p x mask : ℕ)
    → mask < 2 ^ suc n
    → merge (suc n) p x mask % 2 ≡ max (min (p % 2) (1 - mask % 2)) (min (x % 2) (mask % 2))
merge_low n p x mask h = rw (or_low, and_low, and_low, not_low n mask h)

bit_and-zero_below : (n a : ℕ) → a ≤ n → bit_and a 0 ≡ 0
bit_and-zero_below n zero h = refl
bit_and-zero_below zero (suc a) h = absurd (omega arith)
bit_and-zero_below (suc n) (suc a) h =
    omega (arith, and_digit (suc a) 0, bit_and-zero_below n (suc a / 2) (omega arith))

pub bit_and-zero : (a : ℕ) → bit_and a 0 ≡ 0
bit_and-zero a = bit_and-zero_below a a (omega arith)

-- A masked write reads back under its mask.
pub merge_inside :
    (n p x mask : ℕ) → mask < 2 ^ n → bit_and (merge n p x mask) mask ≡ bit_and x mask
merge_inside zero p x mask h =
    let none : mask ≡ 0 = omega arith in rw (none, bit_and-zero) (omega (arith, bit_and-zero x))
merge_inside (suc n) p x mask h =
    let ih = merge_inside n (p / 2) (x / 2) (mask / 2) (omega (arith, pow-suc 2 n)) in
    omega (
      arith,
      and_digit (merge (suc n) p x mask) mask,
      and_digit x mask,
      ap (λ (t : ℕ). bit_and t (mask / 2)) (merge_half n p x mask h),
      merge_low n p x mask h,
      ih,
    )

-- And it changes nothing under a mask that shares no bit with its own.
pub merge_outside :
    (n p x mask other : ℕ)
    → mask < 2 ^ n
    → other < 2 ^ n
    → bit_and mask other ≡ 0
    → bit_and (merge n p x mask) other ≡ bit_and p other
merge_outside zero p x mask other h k disjoint =
    let none : other ≡ 0 = omega arith in rw (none, bit_and-zero) (omega (arith, bit_and-zero p))
merge_outside (suc n) p x mask other h k disjoint =
    let ih =
      merge_outside n (p / 2) (x / 2) (mask / 2) (other / 2) (omega (arith, pow-suc 2 n))
        (omega (arith, pow-suc 2 n)) (omega (arith, and_digit mask other)) in
    omega (
      arith,
      and_digit (merge (suc n) p x mask) other,
      and_digit p other,
      and_digit mask other,
      ap (λ (t : ℕ). bit_and t (other / 2)) (merge_half n p x mask h),
      merge_low n p x mask h,
      ih,
    )

-- A masked write stays in range.
pub merge-lt : (n p x mask : ℕ) → mask < 2 ^ n → merge n p x mask < 2 ^ n
merge-lt zero p x mask h =
    let none : mask ≡ 0 = omega arith in rw (none, bit_and-zero p, bit_and-zero x) (omega arith)
merge-lt (suc n) p x mask h = omega (
  arith,
  pow-suc 2 n,
  merge-lt n (p / 2) (x / 2) (mask / 2) (omega (arith, pow-suc 2 n)),
  merge_half n p x mask h,
  merge_low n p x mask h,
)
