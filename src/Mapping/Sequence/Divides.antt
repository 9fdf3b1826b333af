-- ===== src/Mapping/Sequence/Divides.antt =====
-- The greatest common divisor that the walk of tools/maja-mergecap/src/map/flow.rs looks for.
use mathlib.Core.WellFounded.{Acc}
use mathlib.Core.Path.{subst}
use Prim.Native.Nat.{◌∣◌}
use native.Mathlib.Nat
use maja.Base.{ℕ, zero, suc, ◌+◌, ◌*◌, ◌/◌, ◌%◌, ◌<◌, ◌≡◌, refl, arith}
use maja.Base.Order.{lt_wf}
use maja.Mapping.Sequence.{gcd_loop, gcd}

divides-remainder : (k a b c : ℕ) → k ∣ a * c → k ∣ b * c → k ∣ a % b * c
divides-remainder k a b c at_a at_b =
    (Nat.dvd-add_iff_right k (Nat.dvd-mul_right_of_dvd k at_b (a / b))).1 (subst (◌∣◌ k) parts at_a)
  where
    parts : a * c ≡ b * c * (a / b) + a % b * c
    parts = rw (Nat.mul_right_comm b c, ← Nat.add-mul, Nat.div-add-mod) refl

divides-gcd_loop : (k c a b : ℕ) (w : Acc ◌<◌ b) → k ∣ a * c → k ∣ b * c → k ∣ gcd_loop a b w * c
unfolding gcd_loop
divides-gcd_loop k c a zero w at_a at_b = at_a
divides-gcd_loop k c a (suc b) (Acc.intro _ below) at_a at_b =
    divides-gcd_loop k c (suc b) (a % suc b) (below (a % suc b) (omega arith)) at_b
      (divides-remainder k a (suc b) c at_a at_b)

-- A divisor of a product divides one factor if it has no common divisor with the other.
pub coprime_divides : (n step d : ℕ) → gcd step n ≡ 1 → n ∣ step * d → n ∣ d
unfolding gcd
coprime_divides n step d coprime h = rw Nat.one-mul at (
    subst (λ g. n ∣ g * d) coprime
      (divides-gcd_loop n d step n (lt_wf.apply n) h (Nat.dvd-mul_right n d)))
