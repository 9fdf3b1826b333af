-- ===== src/Options/Tiles.antt =====
-- What the iterator makes of every sequence of bytes: a specification by the shape of the bytes, and
-- the iterator meets it.
use mathlib.Core.List.{append_assoc, append-nil}
use mathlib.Core.Path.{subst}
use maja.Base.{
  Bool, ℕ, zero, suc, ◌+◌, ◌-◌, ◌≤◌, ◌<◌, ◌≡◌, refl, sym, ap, ◌∙◌, ◌⊎◌, inl, inr, true, false, ◌||◌,
  Bool-cases, List, [], ◌∷◌, ◌++◌, arith, ltb, ◌==◌, length, length-append, drop, take, drop-append,
  take-append-drop, length-take, length-drop, ltb→lt,
}
use maja.Context.{slice}
use maja.Options.{Item, end_of_options, no_operation, option, malformed, options_of, collect}
use maja.Options.Step.{iterator, at, next-nil, next-cons, at-move, collect-done, slice-content}

-- The items that some bytes stand for.
pub data Tiles : List ℕ → List Item → Type 0 where
  finished : Tiles [] []
  stop : (padding : List ℕ) → Tiles (0 ∷ padding) (end_of_options ∷ [])
  skip :
      (more : List ℕ) (items : List Item)
      → Tiles more items
      → Tiles (1 ∷ more) (no_operation ∷ items)
  plain :
      (kind len : ℕ) (content more : List ℕ) (items : List Item)
      → 2 ≤ kind
      → length content + 2 ≡ len
      → Tiles more items
      → Tiles (kind ∷ len ∷ (content ++ more)) (option kind len content ∷ items)
  cut_off : (kind : ℕ) → 2 ≤ kind → Tiles (kind ∷ []) (malformed kind (kind ∷ []) ∷ [])
  wrong_length :
      (kind len : ℕ) (rest : List ℕ)
      → 2 ≤ kind
      → (len < 2) ⊎ (length rest + 2 < len)
      → Tiles (kind ∷ len ∷ rest) (malformed kind (kind ∷ len ∷ rest) ∷ [])

-- One option that is whole, and the rest.
plain-step :
    (fuel : ℕ) (before content more : List ℕ) (kind len : ℕ)
    → 2 ≤ kind
    → length content + 2 ≡ len
    → Tiles more (collect fuel (at (before ++ (kind ∷ len ∷ content)) more))
    → Tiles (kind ∷ len ∷ (content ++ more)) (
        option kind len (
          slice
            (before ++ (kind ∷ len ∷ (content ++ more)))
            (length before + 2)
            (length before + len))
        ∷ collect fuel
            (iterator (before ++ (kind ∷ len ∷ (content ++ more))) (length before + len)))
plain-step fuel before content more kind len k h tail =
    rw
      (
        slice-content before content more kind len h,
        at-move before (kind ∷ len ∷ content) more len (omega arith),
      )
      (plain kind len content more _ k h tail)

bad_length : (len rest : ℕ) → (ltb len 2 ≡ true) ⊎ (rest + 2 < len) → (len < 2) ⊎ (rest + 2 < len)
bad_length len rest (inl h) = inl (ltb→lt len 2 h)
bad_length len rest (inr h) = inr h

not_zero : (n : ℕ) → (suc (suc n) == 0) ≡ false
not_zero n = ground arith

not_one : (n : ℕ) → (suc (suc n) == 1) ≡ false
not_one n = ground arith

collect-Tiles :
    (fuel : ℕ) (before remaining : List ℕ)
    → length remaining < fuel
    → Tiles remaining (collect fuel (at before remaining))
unfolding collect
collect-Tiles zero before remaining h = absurd (omega arith)
collect-Tiles (suc fuel) before [] h = rw (next-nil before) finished
collect-Tiles (suc fuel) before (zero ∷ rest) h =
    rw (next-cons before rest 0)
      (rw (collect-done fuel (before ++ (0 ∷ rest)) (length before + 1)) (stop rest))
collect-Tiles (suc fuel) before (suc zero ∷ rest) h = rw (next-cons before rest 1) (
    rw (at-move before (1 ∷ []) rest 1 refl)
      (skip rest _ (collect-Tiles fuel (before ++ (1 ∷ [])) rest (omega arith))))
collect-Tiles (suc fuel) before (suc (suc n) ∷ []) h = rw (next-cons before [] (suc (suc n))) (
    rw (not_zero n, not_one n)
      (rw
        (
          drop-append (length before) before (suc (suc n) ∷ []) refl,
          collect-done fuel (before ++ (suc (suc n) ∷ [])) (length before),
        )
        (cut_off (suc (suc n)) (omega arith))))
collect-Tiles (suc fuel) before (suc (suc n) ∷ len ∷ rest) h =
    let kind : ℕ = suc (suc n) in
    let all : List ℕ = before ++ (kind ∷ len ∷ rest) in
    let l = length-append before (kind ∷ len ∷ rest) in
    rw (next-cons before (len ∷ rest) kind) (
      rw (not_zero n, not_one n)
        (elim (Bool-cases (ltb len 2 || ltb (length all) (length before + len))) [
          | inl bad ↦ rw bad (
              rw
                (
                  drop-append (length before) before (kind ∷ len ∷ rest) refl,
                  collect-done fuel all (length before),
                )
                (wrong_length kind len rest (omega arith)
                  (bad_length len (length rest) (ground arith))))
          | inr good ↦
              let size : 2 ≤ len = ground arith in
              let room : len ≤ length rest + 2 = ground arith in
              rw good (
                subst
                  (λ (r : List ℕ). Tiles (kind ∷ len ∷ r) (
                    option kind len
                      (slice (before ++ (kind ∷ len ∷ r)) (length before + 2) (length before + len))
                    ∷ collect fuel (iterator (before ++ (kind ∷ len ∷ r)) (length before + len))))
                  (take-append-drop (len - 2) rest)
                  (plain-step fuel before (take (len - 2) rest) (drop (len - 2) rest) kind len
                    (omega arith) (omega (arith, length-take (len - 2) rest))
                    (collect-Tiles fuel (before ++ (kind ∷ len ∷ take (len - 2) rest))
                      (drop (len - 2) rest) (omega (arith, length-drop (len - 2) rest)))))
        ]))

-- On every sequence of bytes the iterator over TCP or IPv4 options ends, and its items are those
-- the bytes stand for, by a specification of the shape of the bytes: an end of options ends it, a
-- kind of 1 is one byte, an option has its length, and a length that is missing, below two or too
-- long gives one malformed item with the rest.
pub collect_lem : (bytes : List ℕ) → Tiles bytes (collect (suc (length bytes)) (options_of bytes))
collect_lem bytes = collect-Tiles (suc (length bytes)) [] bytes (omega arith)

-- The bytes of an item.
abbrev pub encode : Item → List ℕ
encode end_of_options = 0 ∷ []
encode no_operation = 1 ∷ []
encode (option kind len content) = kind ∷ len ∷ content
encode (malformed kind rest) = rest

abbrev pub encode_all : List Item → List ℕ
encode_all [] = []
encode_all (item ∷ items) = encode item ++ encode_all items

-- The last item is an end of options.
abbrev pub is_ended : List Item → Bool
is_ended [] = false
is_ended (end_of_options ∷ []) = true
is_ended (item ∷ []) = false
is_ended (item ∷ second ∷ items) = is_ended (second ∷ items)

is_ended-cons :
    (item : Item) (items : List Item) → is_ended items ≡ true → is_ended (item ∷ items) ≡ true
is_ended-cons item [] h = absurd (cc)
is_ended-cons item (second ∷ items) h = h

-- The bytes are those of the items, and what follows an end of options.
abbrev pub Complete : List ℕ → List Item → Type 0
Complete bytes items =
    (padding : List ℕ) × (bytes ≡ encode_all items ++ padding)
    × ((padding ≡ []) ⊎ (is_ended items ≡ true))

Complete-cons :
    (item : Item) (bytes : List ℕ) (items : List Item)
    → Complete bytes items
    → Complete (encode item ++ bytes) (item ∷ items)
Complete-cons item bytes items (padding, e, inl none_left) = (
  padding,
  ap (λ (b : List ℕ). encode item ++ b) e
      ∙ sym (append_assoc (encode item) (encode_all items) padding),
  inl none_left,
)
Complete-cons item bytes items (padding, e, inr ended) = (
  padding,
  ap (λ (b : List ℕ). encode item ++ b) e
      ∙ sym (append_assoc (encode item) (encode_all items) padding),
  inr (is_ended-cons item items ended),
)

Tiles-Complete : (bytes : List ℕ) (items : List Item) → Tiles bytes items → Complete bytes items
Tiles-Complete _ _ finished = ([], refl, inl refl)
Tiles-Complete _ _ (stop padding) = (padding, refl, inr refl)
Tiles-Complete _ _ (skip more items t) =
    Complete-cons no_operation more items (Tiles-Complete more items t)
Tiles-Complete _ _ (plain kind len content more items k h t) =
    Complete-cons (option kind len content) more items (Tiles-Complete more items t)
Tiles-Complete _ _ (cut_off kind k) = ([], refl, inl refl)
Tiles-Complete _ _ (wrong_length kind len rest k h) = (
  [],
  ap (λ (b : List ℕ). kind ∷ len ∷ b) (sym (append-nil rest) ∙ sym (append-nil (rest ++ []))),
  inl refl,
)

-- The iterator over TCP or IPv4 options loses no byte: the bytes are those of its items, one after
-- the other, and there is something behind them only if the last item is an end of options.
pub collect-Complete :
    (bytes : List ℕ) → Complete bytes (collect (suc (length bytes)) (options_of bytes))
collect-Complete bytes = Tiles-Complete bytes _ (collect_lem bytes)
