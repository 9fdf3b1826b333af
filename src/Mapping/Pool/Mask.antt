-- ===== src/Mapping/Pool/Mask.antt =====
-- `mask_map` of tools/maja-mergecap/src/map/pool.rs.
use native.Mathlib.Nat.{pow-suc}
use native.Mathlib.Nat
use maja.Base.{
  ℕ, zero, suc, ◌+◌, ◌-◌, ◌*◌, ◌/◌, ◌%◌, ◌^◌, ◌≤◌, ◌<◌, ◌≡◌, refl, ◌∙◌, ap, some, arith,
}
use maja.Base.Bits.{bit_and, bit_or, and_digit, or_digit, bit_and-zero}
use maja.Mapping.{
  Family, v4, v6, IpAddr, ipv4, ipv6, of_addr, addr_to_u128, Nets, Networks, host_bits,
}
use maja.Mapping.Pool.{mask_map, masked_to}
use maja.Mapping.Pool.Single.{plain}

power_pos : (k : ℕ) → 0 < 2 ^ k
power_pos zero = omega arith
power_pos (suc k) = omega (arith, pow-suc 2 k, power_pos k)

mod_half : (p a : ℕ) → 0 < p → a % (p * 2) ≡ a / 2 % p * 2 + a % 2
mod_half p a h =
    let low : a / 2 % p < p = Nat.mod-lt (a / 2) h in
    let whole : a ≡ p * 2 * (a / 2 / p) + (a / 2 % p * 2 + a % 2) =
      omega (arith, Nat.mod-add-div (a / 2) p) in
    ap (λ (t : ℕ). t % (p * 2)) whole
    ∙ Nat.mul-add-mod_self_left (p * 2) (a / 2 / p) (a / 2 % p * 2 + a % 2)
    ∙ Nat.mod-eq_of_lt (omega arith)

low_bits : (k a : ℕ) → bit_and a (2 ^ k - 1) ≡ a % 2 ^ k
low_bits zero a = omega (arith, bit_and-zero a)
low_bits (suc k) a =
    let half : (2 ^ k * 2 - 1) / 2 ≡ 2 ^ k - 1 = omega arith in
    rw (pow-suc 2 k) (
      omega (
        arith,
        and_digit a (2 ^ k * 2 - 1),
        ap (λ (t : ℕ). bit_and (a / 2) t) half,
        low_bits k (a / 2),
        power_pos k,
        mod_half (2 ^ k) a (power_pos k),
      ))

or_zero_below : (n a : ℕ) → a ≤ n → bit_or a 0 ≡ a
or_zero_below n zero h = refl
or_zero_below zero (suc a) h = absurd (omega arith)
or_zero_below (suc n) (suc a) h =
    omega (arith, or_digit (suc a) 0, or_zero_below n (suc a / 2) (omega arith))

or_low_bits : (k block x : ℕ) → x < 2 ^ k → bit_or (block * 2 ^ k) x ≡ block * 2 ^ k + x
or_low_bits zero block x h =
    let zero_left : x ≡ 0 = omega arith in
    rw zero_left (omega (arith, or_zero_below (block * 1) (block * 1) (omega arith)))
or_low_bits (suc k) block x h =
    let double : block * 2 ^ suc k ≡ block * 2 ^ k * 2 =
      rw (pow-suc 2 k, Nat.mul_assoc block (2 ^ k) 2) refl in
    let half : block * 2 ^ suc k / 2 ≡ block * 2 ^ k = omega arith in
    omega (
      arith,
      or_digit (block * 2 ^ suc k) x,
      ap (λ (t : ℕ). bit_or t (x / 2)) half,
      or_low_bits k block (x / 2) (omega (arith, pow-suc 2 k)),
    )

masked_to_lem :
    (f : Family) (addr : IpAddr) (free block : ℕ)
    → of_addr addr ≡ f
    → masked_to f addr (block * 2 ^ free) (2 ^ free - 1)
      ≡ some (plain f (block * 2 ^ free + addr_to_u128 addr % 2 ^ free))
unfolding masked_to
masked_to_lem v4 (ipv4 a) free block same =
    rw (low_bits free a, or_low_bits free block (a % 2 ^ free) (Nat.mod-lt a (power_pos free))) refl
masked_to_lem v6 (ipv6 a) free block same =
    rw (low_bits free a, or_low_bits free block (a % 2 ^ free) (Nat.mod-lt a (power_pos free))) refl
masked_to_lem v4 (ipv6 a) free block same = cc
masked_to_lem v6 (ipv4 a) free block same = cc

module _ (n : Nets) (laws : Networks n) where
  pub mask_map-low_bits :
      (to : n.Net) (addr : IpAddr)
      → of_addr addr ≡ n.of_net to
      → mask_map n to addr
        ≡ some (plain (n.of_net to) (n.network to + addr_to_u128 addr % 2 ^ host_bits n to))
  unfolding mask_map
  mask_map-low_bits to addr same =
      rw (laws.aligned to, laws.masked to)
        (masked_to_lem (n.of_net to) addr (host_bits n to) (laws.block to) same)
