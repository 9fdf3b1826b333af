-- ===== src/Craft/Options.antt =====
-- Headers with options: `measure_header_len` of src/packet/layer/ip/v4/craft.rs and
-- src/packet/layer/tcp/craft.rs, which differ in the names that they report, and how `write` copies
-- the options.
use Prim.Native.String.{String}
use maja.Base.{
  ℕ, ◌+◌, ◌*◌, ◌/◌, ◌%◌, ◌≤◌, ◌<◌, ◌≡◌, ◌≢◌, refl, sym, ◌∙◌, true, inl, inr, Bool-cases, Option,
  none, List, arith, ltb, leb, leb→le, if◌then◌else◌, length,
}
use maja.Craft.{
  CraftError, Result, ok, err, panic, ◌>>=◌, checked_add_len, length_overflow, invalid_length,
  invalid_field,
}
use maja.Craft.Measured.{ok_of_bind, checked_add_len-ok, calm_bind, checked_add_len-calm}
use maja.Craft.Header.{
  Edit, Within, unwrap_or, copy_at, copy-Keeps, fill, fill-length, fill-Filled, Filled, Keeps-trans,
  copy_at-length, no_panic,
}

-- `next_multiple_of(4)`.
abbrev pub padded : ℕ → ℕ
padded n = (n + 3) / 4 * 4

is_err :
    {A : Type 0} (r : Result A) → r ≢ panic → ((a : A) → r ≢ ok a) → (e : CraftError) × (r ≡ err e)
is_err (ok a) h k = absurd (k a refl)
is_err (err e) h k = (e, refl)
is_err panic h k = absurd (h refl)

module _ (protocol field reason : String) where
  -- The checks of a header length in words, `u8`.
  abbrev pub check_words : ℕ → ℕ → Result ℕ
  check_words min_header_len words =
      if ltb words 5
      then err (invalid_field protocol field words reason)
      else if ltb 15 words
      then err (length_overflow protocol field words 15)
      else if ltb (words * 4) min_header_len
      then err (invalid_length protocol field (words * 4) min_header_len)
      else ok (words * 4)

  -- `min_header_len / 4` is cut to a `u8`.
  unfoldable pub header_len : Option ℕ → List ℕ → Result ℕ
  header_len words options =
      checked_add_len protocol field 20 (padded (length options)) >>= λ min_header_len.
      check_words min_header_len (unwrap_or words (min_header_len / 4 % 256))

  check_words-ok :
      (min words n : ℕ)
      → check_words min words ≡ ok n
      → (n ≡ words * 4) × (min ≤ n) × (20 ≤ n) × (n ≤ 60)
  check_words-ok min words n e = ground arith

  check_words-calm : (min words : ℕ) → check_words min words ≢ panic
  check_words-calm min words e = ground arith

  pub header_len-calm : (words : Option ℕ) (options : List ℕ) → header_len words options ≢ panic
  unfolding header_len
  header_len-calm words options =
      calm_bind (checked_add_len protocol field 20 (padded (length options))) _
        (checked_add_len-calm protocol field 20 (padded (length options)))
        (λ min. check_words-calm min (unwrap_or words (min / 4 % 256)))

  -- A header that is measured is a whole number of words that holds its options.
  pub header_len-ok :
      (words : Option ℕ) (options : List ℕ) (n : ℕ)
      → header_len words options ≡ ok n
      → (n % 4 ≡ 0) × (20 + length options ≤ n) × (20 ≤ n) × (n ≤ 60)
  unfolding header_len
  header_len-ok words options n e =
      let (min, e1, e2) =
        ok_of_bind _ (checked_add_len protocol field 20 (padded (length options))) e in
      let same = checked_add_len-ok protocol field 20 (padded (length options)) min e1 in
      let (a, b, c, d) = check_words-ok min (unwrap_or words (min / 4 % 256)) n e2 in
      (omega arith, omega arith, c, d)

  -- Without an explicit length, options of at most 40 bytes are padded, and all others are refused,
  -- although the number of words is cut to eight bits before it is checked.
  pub header_len-none :
      (options : List ℕ)
      → (length options ≤ 40 → header_len none options ≡ ok (20 + padded (length options)))
        × (40 < length options → (e : CraftError) × (header_len none options ≡ err e))
  unfolding header_len
  header_len-none options = (
    fits,
    λ long.
        is_err (header_len none options) (header_len-calm none options)
          (λ n e. absurd (omega (arith, header_len-ok none options n e))),
  )
    where
      fits : length options ≤ 40 → header_len none options ≡ ok (20 + padded (length options))
      fits h = ground arith

-- A layer with options: they are copied behind the fixed part, and then the header is filled. The
-- accessors reach up to byte 20 of `bytes[..n]`.
abbrev pub fill_with_options : List ℕ → ℕ → List Edit → ℕ → (List ℕ → ℕ) → List ℕ → Result (List ℕ)
fill_with_options options n edits at checksum bytes = copy_at 20 options bytes >>= λ copied.
    if leb 20 n then fill n edits at checksum copied else panic

module _ (options : List ℕ) (n at : ℕ) (edits : List Edit) (checksum : List ℕ → ℕ)
    (bytes : List ℕ) where
  pub fill_with_options-Filled :
      20 + length options ≤ n
      → Within n edits
      → at + 2 ≤ n
      → n ≤ length bytes
      → Filled n at checksum bytes (fill_with_options options n edits at checksum bytes)
  fill_with_options-Filled o within h room =
      let (copied, e, first) = copy-Keeps 20 n options bytes o room in
      let reach : leb 20 n ≡ true = ground arith in
      let f = fill-Filled n at edits checksum copied within h (omega (arith, first.same_length)) in
      record {
        filled = f.filled;
        result = rw e (rw reach f.result);
        kept = Keeps-trans first f.kept;
        kept_all = Keeps-trans first f.kept_all;
      }

  pub fill_with_options-length :
      (written : List ℕ)
      → (20 ≤ n → Within n edits × (at + 2 ≤ n))
      → fill_with_options options n edits at checksum bytes ≡ ok written
      → length written ≡ length bytes
  fill_with_options-length written within e =
      let (copied, e1, e2) = ok_of_bind _ (copy_at 20 options bytes) e in
      elim (Bool-cases (leb 20 n)) [
        | inl reach ↦
            let (inside, h) = within (leb→le 20 n reach) in
            fill-length n at edits checksum copied written inside h (sym (rw reach refl) ∙ e2)
            ∙ copy_at-length 20 options bytes copied e1
        | inr short ↦ absurd (no_panic (rw short at e2))
      ]
