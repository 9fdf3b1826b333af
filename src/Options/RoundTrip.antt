-- ===== src/Options/RoundTrip.antt =====
-- Writing items and iterating over them, src/packet/layer/tcp/option.rs and
-- src/packet/layer/ip/v4/option.rs.
use maja.Base.{
  ℕ, zero, suc, ◌+◌, ◌≤◌, ◌<◌, ◌≡◌, refl, ap, inl, inr, true, false, ◌||◌, ◌⊎◌, List, [], ◌∷◌, ◌++◌,
  arith, ltb, ◌==◌, length, length-append,
}
use maja.Options.{Item, end_of_options, no_operation, option, options_of, collect}
use maja.Options.Tiles.{Tiles, finished, stop, skip, plain, cut_off, wrong_length, encode_all}
use maja.Options.Step.{at, next-nil, next-cons, at-move, collect-done, slice-content}
use maja.Base.{drop-append}

not_small : (kind : ℕ) → 2 ≤ kind → ((kind == 0) ≡ false) × ((kind == 1) ≡ false)
not_small kind k = (ground arith, ground arith)

is_bad :
    (len rest offset all : ℕ)
    → all ≡ offset + (rest + 2)
    → (len < 2) ⊎ (rest + 2 < len)
    → (ltb len 2 || ltb all (offset + len)) ≡ true
is_bad len rest offset all e (inl h) = ground arith
is_bad len rest offset all e (inr h) = ground arith

is_good :
    (len rest offset all : ℕ)
    → all ≡ offset + (rest + 2)
    → 2 ≤ len
    → len ≤ rest + 2
    → (ltb len 2 || ltb all (offset + len)) ≡ false
is_good len rest offset all e h k = ground arith

-- The shape of the bytes determines what the iterator gives.
Tiles-collect :
    {bytes : List ℕ} {items : List Item}
    → Tiles bytes items
    → (fuel : ℕ) (before : List ℕ) → length bytes < fuel
    → collect fuel (at before bytes) ≡ items
unfolding collect
Tiles-collect t zero before h = absurd (omega arith)
Tiles-collect finished (suc fuel) before h = rw (next-nil before) refl
Tiles-collect (stop padding) (suc fuel) before h =
    rw (next-cons before padding 0)
      (rw (collect-done fuel (before ++ (0 ∷ padding)) (length before + 1)) refl)
Tiles-collect (skip more items t) (suc fuel) before h = rw (next-cons before more 1) (
    rw (at-move before (1 ∷ []) more 1 refl) (
      ap (λ (r : List Item). no_operation ∷ r)
        (Tiles-collect t fuel (before ++ (1 ∷ [])) (omega arith))))
Tiles-collect (plain kind len content more items k l t) (suc fuel) before h =
    let small = not_small kind k in
    let room =
      is_good len (length (content ++ more)) (length before)
        (length (before ++ (kind ∷ len ∷ (content ++ more))))
        (omega (arith, length-append before (kind ∷ len ∷ (content ++ more)))) (omega arith)
        (omega (arith, length-append content more)) in
    rw (next-cons before (len ∷ (content ++ more)) kind) (
      rw (small.0, small.1)
        (rw room (
          rw
            (
              slice-content before content more kind len l,
              at-move before (kind ∷ len ∷ content) more len (omega arith),
            )
            (ap (λ (r : List Item). option kind len content ∷ r)
              (Tiles-collect t fuel (before ++ (kind ∷ len ∷ content))
                (omega (arith, length-append content more)))))))
Tiles-collect (cut_off kind k) (suc fuel) before h =
    let small = not_small kind k in
    rw (next-cons before [] kind) (
      rw (small.0, small.1)
        (rw
          (
            drop-append (length before) before (kind ∷ []) refl,
            collect-done fuel (before ++ (kind ∷ [])) (length before),
          )
          refl))
Tiles-collect (wrong_length kind len rest k bad) (suc fuel) before h =
    let small = not_small kind k in
    let over =
      is_bad len (length rest) (length before) (length (before ++ (kind ∷ len ∷ rest)))
        (omega (arith, length-append before (kind ∷ len ∷ rest))) bad in
    rw (next-cons before (len ∷ rest) kind) (
      rw (small.0, small.1)
        (rw over (
          rw
            (
              drop-append (length before) before (kind ∷ len ∷ rest) refl,
              collect-done fuel (before ++ (kind ∷ len ∷ rest)) (length before),
            )
            refl)))

-- Items with the length that their content has, and an end of options as the last one at most.
pub data Writable : List Item → Type 0 where
  nothing : Writable []
  ending : Writable (end_of_options ∷ [])
  filler : (items : List Item) → Writable items → Writable (no_operation ∷ items)
  whole :
      (kind len : ℕ) (content : List ℕ) (items : List Item)
      → 2 ≤ kind
      → length content + 2 ≡ len
      → Writable items
      → Writable (option kind len content ∷ items)

encode-Tiles : {items : List Item} → Writable items → Tiles (encode_all items) items
encode-Tiles nothing = finished
encode-Tiles ending = stop []
encode-Tiles (filler items w) = skip (encode_all items) items (encode-Tiles w)
encode-Tiles (whole kind len content items k l w) =
    plain kind len content (encode_all items) items k l (encode-Tiles w)

-- Items that are written one after the other are read back as they are by the iterator over TCP or
-- IPv4 options, if every option has a kind of at least two and the length of its content, none is
-- malformed, and at most the last one is an end of options.
pub collect-encode :
    (items : List Item)
    → Writable items
    → collect (suc (length (encode_all items))) (options_of (encode_all items)) ≡ items
collect-encode items w =
    Tiles-collect (encode-Tiles w) (suc (length (encode_all items))) [] (omega arith)
