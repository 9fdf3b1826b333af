-- ===== src/Mapping/Sequence/Pigeons.antt =====
-- Numbers below a bound that are all different, and as many as the bound, are all numbers below it.
use native.Mathlib.Decide.{ℕ_discrete}
use maja.Base.{
  ℕ, zero, suc, ◌-◌, ◌≤◌, ◌<◌, ◌≡◌, ◌≢◌, ◌⊎◌, ◌∙◌, inl, inr, sym, ap, refl, true, false, arith, ltb,
  ◌==◌, if◌then◌else◌, ==_iff, dec_lt,
}

-- The numbers but one, moved together.
squeeze : ℕ → ℕ → ℕ
squeeze hole x = if ltb hole x then x - 1 else x

squeeze-lt : (hole x m : ℕ) → x ≢ hole → x < suc m → hole < suc m → squeeze hole x < m
unfolding squeeze
squeeze-lt hole x m other below h = elim (dec_lt hole x) [
  | yes above ↦ ground arith
  | no under ↦ elim (ℕ_discrete x hole) [ yes same ↦ absurd (other same) | no _ ↦ ground arith ]
]

squeeze_injective : (hole x y : ℕ) → x ≢ hole → y ≢ hole → squeeze hole x ≡ squeeze hole y → x ≡ y
unfolding squeeze
squeeze_injective hole x y x_other y_other same = grind arith

no_injection :
    (m : ℕ) (g : ℕ → ℕ)
    → ((i : ℕ) → i ≤ m → g i < m)
    → ((i j : ℕ) → i < j → j ≤ m → g i ≢ g j)
    → zero ≡ suc zero
no_injection zero g below differ =
    let less : g 0 < 0 = below 0 (omega arith) in absurd (omega arith)
no_injection (suc m) g below differ =
    no_injection m (λ i. squeeze (g (suc m)) (g i))
      (λ i h.
        squeeze-lt (g (suc m)) (g i) m (differ i (suc m) (omega arith) (omega arith))
          (below i (omega arith)) (below (suc m) (omega arith)))
      (λ i j lt h same. differ i j lt (omega arith) (
        squeeze_injective (g (suc m)) (g i) (g j) (differ i (suc m) (omega arith) (omega arith))
          (differ j (suc m) (omega arith) (omega arith)) same))

search_for : (f : ℕ → ℕ) (t k : ℕ) → ((i : ℕ) × (i < k) × (f i ≡ t)) ⊎ ((i : ℕ) → i < k → f i ≢ t)
search_for f t zero = inr (λ i h. absurd (omega arith))
search_for f t (suc k) = elim (search_for f t k) [
  | inl (i, below, is) ↦ inl (i, omega arith, is)
  | inr none_yet ↦ elim (ℕ_discrete (f k) t) [
    | yes is ↦ inl (k, omega arith, is)
    | no other ↦ inr (λ i h. elim (ℕ_discrete i k) [
      | yes last ↦ λ same. other (ap f (sym last) ∙ same)
      | no before ↦ none_yet i (omega arith)
    ])
  ]
]

-- The numbers with one more behind them.
extend : ℕ → (ℕ → ℕ) → ℕ → ℕ → ℕ
extend n f t i = if i == n then t else f i

extend-last : (n : ℕ) (f : ℕ → ℕ) (t : ℕ) → extend n f t n ≡ t
unfolding extend
extend-last n f t = let last : (n == n) ≡ true = (==_iff n n).1 refl in rw last refl

extend-before : (n : ℕ) (f : ℕ → ℕ) (t i : ℕ) → i < n → extend n f t i ≡ f i
unfolding extend
extend-before n f t i h = let before : (i == n) ≡ false = ground arith in rw before refl

pub all_reached :
    (n : ℕ) (f : ℕ → ℕ)
    → ((i : ℕ) → i < n → f i < n)
    → ((i j : ℕ) → i < j → j < n → f i ≢ f j)
    → (t : ℕ) → t < n
    → (i : ℕ) × (i < n) × (f i ≡ t)
all_reached n f below differ t h = elim (search_for f t n) [
  | inl found ↦ found
  | inr missed ↦
      let g = extend n f t in
      let inside : (i : ℕ) → i ≤ n → g i < n = λ i le. elim (dec_lt i n) [
        | yes lt ↦ rw (extend-before n f t i lt) (below i lt)
        | no last ↦ let is : i ≡ n = omega arith in rw (is, extend-last n f t) h
      ] in
      let apart : (i j : ℕ) → i < j → j ≤ n → g i ≢ g j = λ i j lt le. elim (dec_lt j n) [
        | yes inner ↦ λ same.
            differ i j lt inner
              (sym (extend-before n f t i (omega arith)) ∙ same ∙ extend-before n f t j inner)
        | no last ↦ λ same.
            let is : j ≡ n = omega arith in
            missed i (omega arith)
              (sym (extend-before n f t i (omega arith)) ∙ same ∙ ap g is ∙ extend-last n f t)
      ] in
      let clash : zero ≡ suc zero = no_injection n g inside apart in absurd (omega arith)
]
