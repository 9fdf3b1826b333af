-- ===== src/Checksum/Verify.antt =====
-- A receiver's check of a packet that carries its checksum.
use maja.Base.{ℕ, ◌+◌, ◌-◌, ◌^◌, ◌≤◌, ◌<◌, ◌≡◌, List, ◌∷◌, ◌++◌, arith}
use maja.Base.{length, length-append}
use maja.Base.Words.{AllBytes, to_be16, AllBytes-append}
use maja.Checksum.{internet_checksum}
use maja.Checksum.Fold.{ones_complement, fold_checksum_lem}
use maja.Checksum.Sum.{word_sum, IsEven, add_words-word_sum, word_sum-append, word_sum-le}

complement_lem : (sum : ℕ) → 65535 - ones_complement (0 + sum) + ones_complement sum ≡ 65535
complement_lem sum = ground arith

-- Adding the complement of a sum gives a sum of all ones, whose complement is zero.
complement_cancels :
    (sum c d : ℕ) → c + ones_complement sum ≡ 65535 → d + ones_complement (sum + c) ≡ 65535 → d ≡ 0
complement_cancels sum c d h k = ground arith

-- On at most 131073 bytes the 32-bit accumulator does not wrap.
pub internet_checksum_lem :
    (bytes : List ℕ)
    → AllBytes bytes
    → length bytes ≤ 131073
    → internet_checksum bytes + ones_complement (word_sum bytes) ≡ 65535
unfolding internet_checksum
internet_checksum_lem bytes h fits =
    rw (add_words-word_sum 0 bytes (omega (arith, word_sum-le bytes h)), fold_checksum_lem)
      (complement_lem (word_sum bytes))

word_sum_stored :
    (pre post : List ℕ) (c : ℕ)
    → IsEven pre
    → c < 2 ^ 16
    → word_sum (pre ++ (to_be16 c ++ post)) ≡ word_sum (pre ++ (0 ∷ 0 ∷ post)) + c
word_sum_stored pre post c e h =
    omega (arith, word_sum-append pre (to_be16 c ++ post) e, word_sum-append pre (0 ∷ 0 ∷ post) e)

-- Of a packet of bytes with two checksum octets at an even offset, in front of which and behind
-- which are at most 131071 bytes together, so that the 32-bit sum does not wrap: storing the
-- Internet checksum that the packet has with these octets zero into them makes the checksum of the
-- packet zero.
pub internet_checksum_verifies :
    (pre post : List ℕ)
    → IsEven pre
    → AllBytes pre
    → AllBytes post
    → length pre + length post ≤ 131071
    → internet_checksum (pre ++ (to_be16 (internet_checksum (pre ++ (0 ∷ 0 ∷ post))) ++ post)) ≡ 0
internet_checksum_verifies pre post e hpre hpost fits =
    let zeroed : List ℕ = pre ++ (0 ∷ 0 ∷ post) in
    let c = internet_checksum zeroed in
    let stored : List ℕ = pre ++ (to_be16 c ++ post) in
    let before : c + ones_complement (word_sum zeroed) ≡ 65535 =
      internet_checksum_lem zeroed (AllBytes-append pre _ hpre (omega arith, (omega arith, hpost)))
        (omega (arith, length-append pre (0 ∷ 0 ∷ post))) in
    let after : internet_checksum stored + ones_complement (word_sum stored) ≡ 65535 =
      internet_checksum_lem stored (AllBytes-append pre _ hpre (omega arith, (omega arith, hpost)))
        (omega (arith, length-append pre (to_be16 c ++ post))) in
    complement_cancels (word_sum zeroed) c (internet_checksum stored) before
      (rw (← word_sum_stored pre post c e (omega arith)) after)
