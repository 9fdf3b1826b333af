-- ===== src/Mapping/Sequence/Walk.antt =====
-- The walk of `Sequence` in tools/maja-mergecap/src/map/flow.rs, one draw after the other.
use Prim.Native.Nat.{◌∣◌}
use native.Mathlib.Nat
use mathlib.Core.Path.{subst}
use maja.Base.{
  ℕ, zero, suc, ◌+◌, ◌-◌, ◌*◌, ◌%◌, ◌^◌, ◌≤◌, ◌<◌, ◌≡◌, ◌≢◌, inl, inr, refl, sym, ap, ◌/◌, ◌∙◌,
  true, false, arith, ltb, leb, Bool-cases,
}
use maja.Mapping.{Random, InRange}
use maja.Mapping.Sequence.{Sequence, u64_max, is_step, find_step, new_sequence, next_index}
use maja.Mapping.Sequence.Pigeons.{all_reached}
use maja.Mapping.Sequence.Divides.{coprime_divides}

-- The walk after a number of draws.
unfoldable pub after : Sequence → ℕ → ℕ → Sequence
after s pool_len zero = s
after s pool_len (suc n) = (next_index (after s pool_len n) pool_len).1

Coprime : ℕ → ℕ → Type 0
Coprime n step = (d : ℕ) → n ∣ step * d → n ∣ d

-- What the first round of a walk needs: its sums keep to the 128 bits, and its step is coprime.
Lawful : ℕ → ℕ → ℕ → Type 0
Lawful n start step = ((i : ℕ) → i < n → start + i * step < 2 ^ 128) × Coprime n step

is_step-Coprime : (n step : ℕ) → is_step n step ≡ true → Coprime n step
unfolding Coprime
is_step-Coprime n step h d = coprime_divides n step d (ground arith)

one-Coprime : (n : ℕ) → Coprime n 1
unfolding Coprime
one-Coprime n d h = rw Nat.one-mul at h

find_step-Coprime :
    (n offset i count : ℕ)
    → 1 < n
    → (find_step n offset i count < n) × Coprime n (find_step n offset i count)
unfolding find_step
find_step-Coprime n offset i zero h = (h, one-Coprime n)
find_step-Coprime n offset i (suc count) h = elim (Bool-cases (is_step n ((offset + i) % n))) [
  | inl found ↦ rw found (omega arith, is_step-Coprime n _ found)
  | inr other ↦ rw other (find_step-Coprime n offset (i + 1) count h)
]

narrow_sum :
    (n start i step : ℕ) → n ≤ u64_max → start < n → i < n → step < n → start + i * step < 2 ^ 128
narrow_sum n start i step a b c d =
    let product : i * step ≤ (2 ^ 64 - 2) * (2 ^ 64 - 2) =
      Nat.mul-le-mul {n₁ = i} {m₁ = step} {n₂ = 2 ^ 64 - 2} {m₂ = 2 ^ 64 - 2} (omega arith)
        (omega arith) in
    omega arith

abbrev walk : ℕ → ℕ → ℕ → Sequence
walk start step drawn = record { start = start; step = step; drawn = drawn }

after-walk : (start step n i : ℕ) → i < 2 ^ 128 → after (walk start step 0) n i ≡ walk start step i
unfolding after next_index
after-walk start step n zero b = refl
after-walk start step n (suc i) b =
    rw (after-walk start step n i (omega arith)) (ap (walk start step) (omega arith))

abbrev pub index : Sequence → ℕ → ℕ → ℕ
index s n i = (next_index (after s n i) n).0.0

index-walk :
    (n start step i : ℕ)
    → n ≤ 2 ^ 128
    → Lawful n start step
    → i < n
    → index (walk start step 0) n i ≡ (start + i * step) % n
unfolding next_index Lawful
index-walk n start step i b law h =
    rw (after-walk start step n i (omega arith), Nat.mod-eq_of_lt h, Nat.mod-eq_of_lt (law.0 i h))
      refl

divides_difference : (n a b : ℕ) → a % n ≡ b % n → n ∣ b - a
divides_difference n a b h =
    subst (◌∣◌ n) quotients
      (Nat.dvd-sub n (Nat.dvd-mul_right n (b / n)) (Nat.dvd-mul_right n (a / n)))
  where
    quotients : n * (b / n) - n * (a / n) ≡ b - a
    quotients = omega (arith, Nat.mod-add-div a n, Nat.mod-add-div b n)

steps_between : (start step i j : ℕ) → (start + j * step) - (start + i * step) ≡ step * (j - i)
steps_between start step i j =
    rw (Nat.mul-sub step j i, Nat.mul_comm step j, Nat.mul_comm step i) (omega arith)

index_differs :
    (n start step i j : ℕ)
    → n ≤ 2 ^ 128
    → Lawful n start step
    → i < j
    → j < n
    → index (walk start step 0) n i ≢ index (walk start step 0) n j
unfolding Lawful Coprime
index_differs n start step i j b law lt h same =
    let equal : (start + i * step) % n ≡ (start + j * step) % n =
      sym (index-walk n start step i b law (omega arith))
      ∙ same
      ∙ index-walk n start step j b law h in
    let divides : n ∣ j - i =
      law.1 (j - i)
        (subst (◌∣◌ n) (steps_between start step i j) (divides_difference n _ _ equal)) in
    let long : n ≤ j - i = Nat.le_of_dvd (omega arith) divides in omega arith

-- The first round of a walk through a pool: each index is one of the pool, none comes twice, and all
-- of them come.
unfoldable pub Visits : ℕ → Sequence → Type 0
Visits n s =
    ((i : ℕ) → i < n → (index s n i < n) × ((next_index (after s n i) n).0.1 ≡ false))
    × ((i j : ℕ) → i < j → j < n → index s n i ≢ index s n j)
    × ((t : ℕ) → t < n → (i : ℕ) × (i < n) × (index s n i ≡ t))

walk-Visits : (n start step : ℕ) → n ≤ 2 ^ 128 → Lawful n start step → Visits n (walk start step 0)
unfolding Visits next_index Lawful
walk-Visits n start step b law =
    let inside : (i : ℕ) → i < n → index (walk start step 0) n i < n =
      λ i h. rw (index-walk n start step i b law h) (Nat.mod-lt _ (omega arith)) in
    let apart : (i j : ℕ)
        → i < j
        → j < n
        → index (walk start step 0) n i ≢ index (walk start step 0) n j =
      λ i j lt h. index_differs n start step i j b law lt h in
    (
      (λ i h. (inside i h, rw (after-walk start step n i (omega arith)) (ground arith))),
      apart,
      all_reached n (λ i. index (walk start step 0) n i) inside apart,
    )

Lawful-one : (n start : ℕ) → n ≤ 2 ^ 127 → start < n → Lawful n start 1
unfolding Lawful
Lawful-one n start b h = ((λ i lt. omega arith), one-Coprime n)

find_step-Lawful :
    (n offset start : ℕ)
    → 1 < n
    → n ≤ u64_max
    → start < n
    → Lawful n start (find_step n offset 1 (n - 1))
unfolding Lawful
find_step-Lawful n offset start long small start_below =
    let (below, coprime) = find_step-Coprime n offset 1 (n - 1) long in
    ((λ i lt. narrow_sum n start i _ small start_below lt below), coprime)

module _ (r : Random) (inside : InRange r) where
  -- A new walk through a pool of at least one and at most 2^127 addresses does not wrap around in
  -- its first round: its draws are indices of the pool, no two of them are the same, and every
  -- index of the pool is drawn. The generator keeps to its ranges.
  pub new_sequence-Visits :
      (rng : r.Rng) (n : ℕ) → 0 < n → n ≤ 2 ^ 127 → Visits n (new_sequence r rng n).0
  unfolding new_sequence Lawful
  new_sequence-Visits rng n h b = elim (Bool-cases (leb n 1)) [
    | inl single ↦ rw single (walk-Visits n 0 1 (omega arith) (Lawful-one n 0 b h))
    | inr several ↦ elim (Bool-cases (ltb u64_max n)) [
      | inl wide ↦
          rw (several, wide)
            (walk-Visits n _ 1 (omega arith) (Lawful-one n _ b (inside 0 n rng h).1))
      | inr small ↦
          let (offset, middle) = r.random_range 1 n rng in
          rw (several, small)
            (walk-Visits n _ _ (omega arith) (
              find_step-Lawful n offset (r.random_range 0 n middle).0 (ground arith) (ground arith)
                (inside 0 n middle h).1))
    ]
  ]

pub index-lt : (s : Sequence) (n i : ℕ) → 0 < n → index s n i < n
unfolding next_index
index-lt s n i h = Nat.mod-lt _ h
