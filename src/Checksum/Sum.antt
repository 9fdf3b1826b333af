-- ===== src/Checksum/Sum.antt =====
-- The accumulator of `add_words` against the plain sum of the 16-bit words.
use maja.Base.{ℕ, ◌+◌, ◌*◌, ◌^◌, ◌≤◌, ◌<◌, ◌≡◌, refl, List, [], ◌∷◌, ◌++◌, arith, length}
use maja.Base.Words.{AllBytes, be16}
use maja.Checksum.{add_word, add_words}

-- The sum of the big-endian words, with no wrap-around.
abbrev pub word_sum : List ℕ → ℕ
word_sum [] = 0
word_sum (a ∷ []) = be16 a 0
word_sum (a ∷ b ∷ rest) = be16 a b + word_sum rest

-- An even number of bytes.
abbrev pub IsEven : List ℕ → Type 0
IsEven [] = Unit
IsEven (a ∷ []) = ⊥
IsEven (a ∷ b ∷ rest) = IsEven rest

pub add_words-word_sum :
    (sum : ℕ) (bytes : List ℕ)
    → sum + word_sum bytes < 2 ^ 32
    → add_words sum bytes ≡ sum + word_sum bytes
unfolding add_words
add_words-word_sum sum [] h = omega arith
add_words-word_sum sum (a ∷ []) h = omega arith
add_words-word_sum sum (a ∷ b ∷ rest) h =
    omega (arith, add_words-word_sum (add_word sum (be16 a b)) rest (omega arith))

pub add_words-append :
    (sum : ℕ) (xs ys : List ℕ)
    → IsEven xs
    → add_words sum (xs ++ ys) ≡ add_words (add_words sum xs) ys
unfolding add_words
add_words-append sum [] ys e = refl
add_words-append sum (a ∷ []) ys e = absurd e
add_words-append sum (a ∷ b ∷ rest) ys e = add_words-append (add_word sum (be16 a b)) rest ys e

pub word_sum-append : (xs ys : List ℕ) → IsEven xs → word_sum (xs ++ ys) ≡ word_sum xs + word_sum ys
word_sum-append [] ys e = omega arith
word_sum-append (a ∷ []) ys e = absurd e
word_sum-append (a ∷ b ∷ rest) ys e = omega (arith, word_sum-append rest ys e)

pub word_sum-le :
    (bytes : List ℕ) → AllBytes bytes → 2 * word_sum bytes ≤ 65535 * (length bytes + 1)
word_sum-le [] h = omega arith
word_sum-le (a ∷ []) h = omega arith
word_sum-le (a ∷ b ∷ rest) h = omega (arith, word_sum-le rest h.1.1)
