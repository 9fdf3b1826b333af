-- ===== src/Checksum/Fold.antt =====
-- What `fold_checksum` computes of a 32-bit sum.
use maja.Base.{ℕ, zero, suc, ◌+◌, ◌-◌, ◌*◌, ◌/◌, ◌%◌, ◌^◌, ◌<◌, ◌≡◌, ◌∙◌, dec_lt, arith}
use maja.Base.{◌==◌, if◌then◌else◌}
use maja.Base.Order.{lt_wf}
use mathlib.Core.Logic.{dif_pos, dif_neg}
use mathlib.Core.WellFounded.{Acc}
use native.Mathlib.Bridge.{le_prop}
use maja.Checksum.{fold_shrinks, fold_loop, fold_checksum}

-- The one's-complement value of a sum: 0 for 0, else the representative of 1 to 65535.
abbrev pub ones_complement : ℕ → ℕ
ones_complement sum = if sum == 0 then 0 else (sum - 1) % 65535 + 1

ones_complement-fold :
    (sum : ℕ)
    → 0 < sum / 2 ^ 16
    → ones_complement (sum % 2 ^ 16 + sum / 2 ^ 16) ≡ ones_complement sum
ones_complement-fold sum h = ground arith

ones_complement_small : (sum : ℕ) → ¬ (0 < sum / 2 ^ 16) → sum ≡ ones_complement sum
ones_complement_small sum h = ground arith

fold_loop_lem :
    (bound sum : ℕ) (w : Acc ◌<◌ sum) → sum < bound → fold_loop sum w ≡ ones_complement sum
unfolding fold_loop
fold_loop_lem zero sum w h = absurd (omega arith)
fold_loop_lem (suc bound) sum (Acc.intro _ smaller) h = elim (dec_lt 0 (sum / 2 ^ 16)) [
  | yes p ↦ rw (dif_pos (dec_lt 0 (sum / 2 ^ 16)) le_prop p) (
      fold_loop_lem bound (sum % 2 ^ 16 + sum / 2 ^ 16) (smaller _ (fold_shrinks sum p))
        (omega arith)
      ∙ ones_complement-fold sum p)
  | no p ↦ rw (dif_neg (dec_lt 0 (sum / 2 ^ 16)) p) (ones_complement_small sum p)
]

-- The folding loop ends on every sum, and returns the complement of the one's-complement value of
-- the sum.
pub fold_checksum_lem : (sum : ℕ) → fold_checksum sum ≡ 65535 - ones_complement sum
unfolding fold_checksum
fold_checksum_lem sum = ground (arith, fold_loop_lem (suc sum) sum (lt_wf.apply sum) (omega arith))

-- A carry out of the low half counts as one.
pub ones_complement_carry :
    (sum carry : ℕ) → ones_complement (sum + 65536 * carry) ≡ ones_complement (sum + carry)
ones_complement_carry sum carry = ground arith
