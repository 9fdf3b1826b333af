-- ===== src/Validate/Store.antt =====
-- A checksum that is stored, and what it leaves as it was.
use mathlib.Core.Path.{ap₂}
use mathlib.Core.List.{append-nil}
use maja.Base.{
  ℕ, zero, suc, ◌+◌, ◌-◌, ◌/◌, ◌%◌, ◌^◌, ◌≤◌, ◌<◌, ◌≡◌, refl, sym, ap, ◌∙◌, true, List, [], ◌∷◌,
  ◌++◌, arith, length, length-append, length-take, length-drop, take, drop, take-append,
  drop-append,
}
use maja.Base.Words.{from_bytes, to_bytes, to_le, from_bytes-to_bytes, length-to_bytes}
use maja.Field.{FieldSpec, raw}
use maja.Checksum.{Range, unless_zeroed}
use maja.Checksum.Zeroing.{clear}
use maja.Layers.{field}
use maja.Validate.{stored, store, checksum_range}

-- Two octets that are put over those at `at`.
abbrev put : ℕ → ℕ → ℕ → List ℕ → List ℕ
put at a b bytes = take at bytes ++ (a ∷ b ∷ drop (suc (suc at)) bytes)

store-put :
    (at value : ℕ) (bytes : List ℕ)
    → store at value bytes ≡ put at (value / 256 % 256) (value % 256) bytes
unfolding store to_bytes to_le
store-put at value bytes = refl

zeroed_at :
    (zeroed : Range) (j x : ℕ) → zeroed.start ≤ j → j < zeroed.end → unless_zeroed zeroed j x ≡ 0
zeroed_at zeroed j x h k = ground arith

same_zeroed :
    (zeroed : Range) (j x y : ℕ)
    → zeroed.start ≤ j
    → j < zeroed.end
    → unless_zeroed zeroed j x ≡ unless_zeroed zeroed j y
same_zeroed zeroed j x y h k = zeroed_at zeroed j x h k ∙ sym (zeroed_at zeroed j y h k)

clear-put :
    (i at n a b : ℕ) (zeroed : Range) (bytes : List ℕ)
    → zeroed.start ≡ i + at
    → zeroed.end ≡ i + at + 2
    → at + 2 ≤ length bytes
    → clear i (take n (put at a b bytes)) zeroed ≡ clear i (take n bytes) zeroed
clear-put i at zero a b zeroed bytes s e room = refl
clear-put i zero (suc n) a b zeroed [] s e room = absurd (omega arith)
clear-put i zero (suc n) a b zeroed (x ∷ []) s e room = absurd (omega arith)
clear-put i zero (suc zero) a b zeroed (x ∷ y ∷ rest) s e room =
    ap (λ (t : ℕ). t ∷ []) (same_zeroed zeroed i a x (omega arith) (omega arith))
clear-put i zero (suc (suc n)) a b zeroed (x ∷ y ∷ rest) s e room =
    ap₂ (λ (t u : ℕ). t ∷ u ∷ clear (i + 1 + 1) (take n rest) zeroed)
      (same_zeroed zeroed i a x (omega arith) (omega arith))
      (same_zeroed zeroed (i + 1) b y (omega arith) (omega arith))
clear-put i (suc at) (suc n) a b zeroed [] s e room = absurd (omega arith)
clear-put i (suc at) (suc n) a b zeroed (x ∷ rest) s e room =
    ap (λ (t : List ℕ). unless_zeroed zeroed i x ∷ t)
      (clear-put (i + 1) at n a b zeroed rest (omega arith) (omega arith) (omega arith))

-- A checksum that reads its own range as zero does not see what is stored there.
pub clear-store :
    (at n value : ℕ) (bytes : List ℕ)
    → at + 2 ≤ length bytes
    → clear 0 (take n (store at value bytes)) (checksum_range at)
      ≡ clear 0 (take n bytes) (checksum_range at)
clear-store at n value bytes room =
    ap (λ (t : List ℕ). clear 0 (take n t) (checksum_range at)) (store-put at value bytes)
    ∙ clear-put 0 at n (value / 256 % 256) (value % 256) (checksum_range at) bytes (omega arith)
        (omega arith) room

pub length-store :
    (at value : ℕ) (bytes : List ℕ)
    → at + 2 ≤ length bytes
    → length (store at value bytes) ≡ length bytes
unfolding store
length-store at value bytes room = omega (
  arith,
  length-append (take at bytes) (to_bytes true 2 value ++ drop (suc (suc at)) bytes),
  length-append (to_bytes true 2 value) (drop (suc (suc at)) bytes),
  length-take at bytes,
  length-to_bytes true 2 value,
  length-drop (suc (suc at)) bytes,
)

-- The value reads back.
pub stored-store :
    (at value : ℕ) (bytes : List ℕ)
    → at + 2 ≤ length bytes
    → value < 2 ^ 16
    → stored at (store at value bytes) ≡ value
unfolding store field raw from_bytes
stored-store at value bytes room h =
    let written : List ℕ = to_bytes true 2 value in
    let behind : List ℕ = drop (suc (suc at)) bytes in
    let e : at + 2 - at ≡ 2 = omega arith in
    let whole_word : take 2 written ≡ written =
      ap (take 2) (sym (append-nil written))
      ∙ take-append 2 written [] (length-to_bytes true 2 value) in
    rw (drop-append at (take at bytes) (written ++ behind) (omega (arith, length-take at bytes)), e)
      (rw (take-append 2 written behind (length-to_bytes true 2 value), whole_word)
        (from_bytes-to_bytes true 2 value (omega arith)))

take-put :
    (at n a b : ℕ) (bytes : List ℕ)
    → n ≤ at
    → at ≤ length bytes
    → take n (put at a b bytes) ≡ take n bytes
take-put at zero a b bytes h k = refl
take-put zero (suc n) a b bytes h k = absurd (omega arith)
take-put (suc at) (suc n) a b [] h k = absurd (omega arith)
take-put (suc at) (suc n) a b (x ∷ rest) h k =
    ap (λ (t : List ℕ). x ∷ t) (take-put at n a b rest (omega arith) (omega arith))

slice-put :
    (at start n a b : ℕ) (bytes : List ℕ)
    → start + n ≤ at
    → at ≤ length bytes
    → take n (drop start (put at a b bytes)) ≡ take n (drop start bytes)
slice-put at zero n a b bytes h k = take-put at n a b bytes (omega arith) k
slice-put zero (suc start) n a b bytes h k = absurd (omega arith)
slice-put (suc at) (suc start) n a b [] h k = absurd (omega arith)
slice-put (suc at) (suc start) n a b (x ∷ rest) h k =
    slice-put at start n a b rest (omega arith) (omega arith)

-- A field in front of the checksum keeps its value.
pub field-store :
    (spec : FieldSpec) (start at value : ℕ) (bytes : List ℕ)
    → start + spec.size ≤ at
    → at ≤ length bytes
    → field spec start (store at value bytes) ≡ field spec start bytes
unfolding field
field-store spec start at value bytes h k =
    let e : start + spec.size - start ≡ spec.size = omega arith in
    ap (raw spec true) (
      rw e (
        ap (λ (t : List ℕ). take spec.size (drop start t)) (store-put at value bytes)
        ∙ slice-put at start spec.size (value / 256 % 256) (value % 256) bytes h k))

take-put_in :
    (at n a b : ℕ) (bytes : List ℕ)
    → at + 2 ≤ n
    → n ≤ length bytes
    → take n (put at a b bytes) ≡ put at a b (take n bytes)
take-put_in zero (suc (suc n)) a b (x ∷ y ∷ rest) h k = refl
take-put_in zero (suc (suc n)) a b (x ∷ []) h k = absurd (omega arith)
take-put_in zero (suc (suc n)) a b [] h k = absurd (omega arith)
take-put_in zero (suc zero) a b bytes h k = absurd (omega arith)
take-put_in zero zero a b bytes h k = absurd (omega arith)
take-put_in (suc at) zero a b bytes h k = absurd (omega arith)
take-put_in (suc at) (suc n) a b [] h k = absurd (omega arith)
take-put_in (suc at) (suc n) a b (x ∷ rest) h k =
    ap (λ (t : List ℕ). x ∷ t) (take-put_in at n a b rest (omega arith) (omega arith))

-- Storing inside of a prefix.
pub take-store :
    (at n value : ℕ) (bytes : List ℕ)
    → at + 2 ≤ n
    → n ≤ length bytes
    → take n (store at value bytes) ≡ store at value (take n bytes)
take-store at n value bytes h k =
    ap (take n) (store-put at value bytes)
    ∙ take-put_in at n (value / 256 % 256) (value % 256) bytes h k
    ∙ sym (store-put at value (take n bytes))

-- What is in front of the checksum stays.
pub take-drop-store :
    (at start n value : ℕ) (bytes : List ℕ)
    → start + n ≤ at
    → at ≤ length bytes
    → take n (drop start (store at value bytes)) ≡ take n (drop start bytes)
take-drop-store at start n value bytes h k =
    ap (λ (t : List ℕ). take n (drop start t)) (store-put at value bytes)
    ∙ slice-put at start n (value / 256 % 256) (value % 256) bytes h k

drop-put :
    (start at place a b : ℕ) (bytes : List ℕ)
    → place ≡ start + at
    → start ≤ length bytes
    → drop start (put place a b bytes) ≡ put at a b (drop start bytes)
drop-put zero at place a b bytes e h =
    let same : place ≡ at = omega arith in ap (λ (i : ℕ). put i a b bytes) same
drop-put (suc start) at zero a b bytes e h = absurd (omega arith)
drop-put (suc start) at (suc place) a b [] e h = absurd (omega arith)
drop-put (suc start) at (suc place) a b (x ∷ rest) e h =
    drop-put start at place a b rest (omega arith) (omega arith)

-- Storing inside of a part.
pub take-drop-store_in :
    (start at n value : ℕ) (bytes : List ℕ)
    → at + 2 ≤ n
    → start + n ≤ length bytes
    → take n (drop start (store (start + at) value bytes))
      ≡ store at value (take n (drop start bytes))
take-drop-store_in start at n value bytes h k =
    ap (λ (t : List ℕ). take n (drop start t)) (store-put (start + at) value bytes)
    ∙ ap (take n) (
        drop-put start at (start + at) (value / 256 % 256) (value % 256) bytes refl (omega arith)
        ∙ sym (store-put at value (drop start bytes)))
    ∙ take-store at n value (drop start bytes) h (omega (arith, length-drop start bytes))

take-drop-take :
    {A : Type 0} (i k n : ℕ) (xs : List A)
    → i + k ≤ n
    → take k (drop i (take n xs)) ≡ take k (drop i xs)
take-drop-take zero zero n xs h = refl
take-drop-take zero (suc k) zero xs h = absurd (omega arith)
take-drop-take zero (suc k) (suc n) [] h = refl
take-drop-take {A = A} zero (suc k) (suc n) (x ∷ xs) h =
    ap (λ (t : List A). x ∷ t) (take-drop-take zero k n xs (omega arith))
take-drop-take (suc i) k zero xs h = absurd (omega arith)
take-drop-take (suc i) k (suc n) [] h = refl
take-drop-take (suc i) k (suc n) (x ∷ xs) h = take-drop-take i k n xs (omega arith)

-- A field of a prefix that has it.
pub field-take :
    (spec : FieldSpec) (start n : ℕ) (bytes : List ℕ)
    → start + spec.size ≤ n
    → field spec start (take n bytes) ≡ field spec start bytes
unfolding field
field-take spec start n bytes h =
    let e : start + spec.size - start ≡ spec.size = omega arith in
    ap (raw spec true) (rw e (take-drop-take start spec.size n bytes h))

drop-put_behind :
    (at start a b : ℕ) (bytes : List ℕ)
    → at + 2 ≤ start
    → start ≤ length bytes
    → drop start (put at a b bytes) ≡ drop start bytes
drop-put_behind at zero a b bytes h k = absurd (omega arith)
drop-put_behind at (suc start) a b [] h k = absurd (omega arith)
drop-put_behind zero (suc zero) a b (x ∷ rest) h k = absurd (omega arith)
drop-put_behind zero (suc (suc start)) a b (x ∷ []) h k = absurd (omega arith)
drop-put_behind zero (suc (suc start)) a b (x ∷ y ∷ rest) h k = refl
drop-put_behind (suc at) (suc start) a b (x ∷ rest) h k =
    drop-put_behind at start a b rest (omega arith) (omega arith)

-- What is behind the checksum stays.
pub take-drop-store_behind :
    (at start n value : ℕ) (bytes : List ℕ)
    → at + 2 ≤ start
    → start ≤ length bytes
    → take n (drop start (store at value bytes)) ≡ take n (drop start bytes)
take-drop-store_behind at start n value bytes h k =
    ap (λ (t : List ℕ). take n (drop start t)) (store-put at value bytes)
    ∙ ap (take n) (drop-put_behind at start (value / 256 % 256) (value % 256) bytes h k)
