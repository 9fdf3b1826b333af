-- ===== src/Context/Child.antt =====
-- What becomes of a child that fails, and of raw bytes that are recorded twice.
use maja.Base.{
  ℕ, ◌-◌, ◌≡◌, refl, ◌∙◌, ap, Bool, true, false, Bool-cases, inl, inr, List, [], ◌∷◌, ◌++◌, arith,
  ltb, length, take, take-append, if◌then◌else◌,
}
use maja.Protocol.{Protocol}
use maja.Context.{
  ParseError, truncated, malformed, unsupported_link_type, stuck, Result, ok, err, Layer,
  ParseContext, Done, ParseFn, end, can_push_layer, ends_with_raw, parse_raw, recover,
  parse_child_with,
}
use maja.Context.Outcome.{Outcome}

-- The truncation gives the context of the parent back.
cut_back :
    {start : ℕ} (c c' : ParseContext) (e : ParseError)
    → Outcome {A = Done} start c (err e, c')
    → record c' { layers = take (length c.layers) c'.layers } ≡ c
cut_back c c' e o =
    rw
      (
        ap (take (length c.layers)) o.layers_grow
            ∙ take-append (length c.layers) c.layers o.added refl,
        o.bytes_kept,
        o.options_kept,
        o.end_kept,
      )
      refl

pick_true : {A : Type 0} (x y : A) (b : Bool) → b ≡ true → (if b then x else y) ≡ x
pick_true x y true h = refl
pick_true x y false h = absurd (ground arith)

recover-err :
    {start : ℕ} (offset : ℕ) (c c' : ParseContext) (e : ParseError)
    → c.options.fallback_to_raw_on_child_error ≡ true
    → Outcome {A = Done} start c (err e, c')
    → recover c offset (err e, c') ≡ parse_raw offset c
recover-err offset c c' stuck back o = absurd (o.real refl)
recover-err offset c c' (truncated p a b d) back o =
    pick_true _ _ c.options.fallback_to_raw_on_child_error back
    ∙ ap (parse_raw offset) (cut_back c c' (truncated p a b d) o)
recover-err offset c c' (malformed p a b) back o =
    pick_true _ _ c.options.fallback_to_raw_on_child_error back
    ∙ ap (parse_raw offset) (cut_back c c' (malformed p a b) o)
recover-err offset c c' (unsupported_link_type t) back o =
    pick_true _ _ c.options.fallback_to_raw_on_child_error back
    ∙ ap (parse_raw offset) (cut_back c c' (unsupported_link_type t) o)

parse_raw-ok : (offset : ℕ) (c : ParseContext) → (parse_raw offset c).0 ≡ ok tt
unfolding parse_raw
parse_raw-ok offset c = refl

-- A child that fails leaves what the raw remainder alone would leave.
pub parse_child_with-err :
    {start : ℕ} (parse_fn : ParseFn) (offset : ℕ) (c c' : ParseContext) (e : ParseError)
    → c.options.fallback_to_raw_on_child_error ≡ true
    → parse_fn offset c ≡ (err e, c')
    → Outcome start c (parse_fn offset c)
    → parse_child_with parse_fn offset c ≡ parse_raw offset c
unfolding parse_child_with
parse_child_with-err {start} parse_fn offset c c' e back fails o =
    elim (Bool-cases (can_push_layer c)) [
      | inr full ↦ rw full refl
      | inl can ↦ rw (can, fails) (recover-err {start = start} offset c c' e back (rw fails at o))
    ]

pub parse_child_with-ok :
    {start : ℕ} (parse_fn : ParseFn) (offset : ℕ) (c : ParseContext)
    → c.options.fallback_to_raw_on_child_error ≡ true
    → Outcome start c (parse_fn offset c)
    → (parse_child_with parse_fn offset c).0 ≡ ok tt
unfolding parse_child_with
parse_child_with-ok {start} parse_fn offset c back o = elim (Bool-cases (can_push_layer c)) [
  | inr full ↦ rw full (parse_raw-ok offset c)
  | inl can ↦ rw can (go (parse_fn offset c) o)
]
  where
    go : (r : Result Done × ParseContext) → Outcome start c r → (recover c offset r).0 ≡ ok tt
    go (ok tt, c') o = refl
    go (err e, c') o =
        ap (λ (r : Result Done × ParseContext). r.0) (recover-err offset c c' e back o)
        ∙ parse_raw-ok offset c

ends_with_raw-append :
    (ls : List Layer) (offset len : ℕ)
    → ends_with_raw
        (ls ++ (record { protocol = Protocol.raw; offset = offset; len = len } ∷ []))
        offset
        len
      ≡ true
unfolding ends_with_raw
ends_with_raw-append [] offset len = ground arith
ends_with_raw-append (l ∷ []) offset len = ground arith
ends_with_raw-append (l ∷ m ∷ ls) offset len = ends_with_raw-append (m ∷ ls) offset len

-- Recording the same raw remainder twice gives the same result and the same context as recording
-- it once.
parse_raw_twice :
    (offset : ℕ) (c : ParseContext) → parse_raw offset (parse_raw offset c).1 ≡ parse_raw offset c
unfolding parse_raw
parse_raw_twice offset c = elim (Bool-cases (ltb offset (end c))) [
  | inr nothing ↦ rw (nothing, nothing) refl
  | inl left ↦ elim (Bool-cases (ends_with_raw c.layers offset (end c - offset))) [
    | inl there ↦ rw (left, there) (rw (left, there) refl)
    | inr missing ↦
        rw (left, missing) (rw (left, ends_with_raw-append c.layers offset (end c - offset)) refl)
  ]
]
