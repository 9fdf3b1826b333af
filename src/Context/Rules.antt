-- ===== src/Context/Rules.antt =====
-- A rule for each way in which the parsers of src/packet/layer put the child, the fallback and the
-- registry of `ParseContext` together.
use maja.Base.{
  ℕ, ◌+◌, ◌≤◌, ◌<◌, ◌≡◌, refl, ◌∙◌, ap, Bool, true, false, Option, none, some, List, ◌++◌,
  Bool-cases, length, take, take-append, if◌then◌else◌, inl, inr,
}
use maja.Protocol.{Protocol, id}
use maja.Context.{
  ParseError, truncated, malformed, unsupported_link_type, stuck, Result, ok, err, Layer,
  ParseContext, Parser, Done, ParseFn, pure, end, can_push_layer, push_layer, parse_raw, recover,
  parse_child_with, dispatch_registered, registered,
}
use maja.Context.Outcome.{
  Outcome, Shallow, Outcome-same, Outcome-weaken, Outcome-push, Outcome-raw, end-same,
}

-- A context that differs in nothing.
Outcome-cong :
    {A : Type 0} {start : ℕ} {c c' : ParseContext} {r : Result A × ParseContext}
    → c'.bytes ≡ c.bytes
    → c'.options ≡ c.options
    → c'.declared_end ≡ c.declared_end
    → c'.layers ≡ c.layers
    → Outcome start c' r
    → Outcome start c r
Outcome-cong {start = start} {c = c} {c' = c'} b o e l out = record {
  bytes_kept = out.bytes_kept ∙ b;
  options_kept = out.options_kept ∙ o;
  end_kept = out.end_kept ∙ e;
  added = out.added;
  layers_grow = out.layers_grow ∙ ap (λ (ls : List Layer). ls ++ out.added) l;
  ordered = rw (end-same c c' b e) at out.ordered;
  shallow = out.shallow;
  real = out.real;
}

-- What a parser that failed has added is cut off, and the payload is raw.
Outcome-fallback :
    {start : ℕ} (offset : ℕ) (c c' : ParseContext) (e : ParseError)
    → start ≤ offset
    → Shallow c
    → Outcome {A = Done} start c (err e, c')
    → Outcome start c (parse_raw offset (record c' { layers = take (length c.layers) c'.layers }))
Outcome-fallback {start} offset c c' e low h out =
    let cut : ParseContext = record c' { layers = take (length c.layers) c'.layers } in
    let same : cut.layers ≡ c.layers =
      ap (take (length c.layers)) out.layers_grow
      ∙ take-append (length c.layers) c.layers out.added refl in
    let shallow : Shallow cut = rw (out.options_kept, same) h in
    Outcome-cong out.bytes_kept out.options_kept out.end_kept same
      (Outcome-raw start offset cut low shallow)

pub Outcome-if :
    {A : Type 0} {start : ℕ} {c : ParseContext} (b : Bool) {x y : Result A × ParseContext}
    → Outcome start c x
    → Outcome start c y
    → Outcome start c (if b then x else y)
Outcome-if true p q = p
Outcome-if false p q = q

Outcome-recover :
    {start : ℕ} (offset : ℕ) (c : ParseContext) (r : Result Done × ParseContext)
    → start ≤ offset
    → Shallow c
    → Outcome start c r
    → Outcome start c (recover c offset r)
Outcome-recover offset c (ok done, c') low h out = out
Outcome-recover offset c (err stuck, c') low h out = out
Outcome-recover offset c (err (truncated p o n a), c') low h out =
    Outcome-if c.options.fallback_to_raw_on_child_error
      (Outcome-fallback offset c c' (truncated p o n a) low h out) out
Outcome-recover offset c (err (malformed p f w), c') low h out =
    Outcome-if c.options.fallback_to_raw_on_child_error
      (Outcome-fallback offset c c' (malformed p f w) low h out) out
Outcome-recover offset c (err (unsupported_link_type t), c') low h out =
    Outcome-if c.options.fallback_to_raw_on_child_error
      (Outcome-fallback offset c c' (unsupported_link_type t) low h out) out

-- A child adds its layers, or raw ones where it fails or the depth is reached.
pub Outcome-child :
    {start : ℕ} (parse_fn : ParseFn) (offset : ℕ) (c : ParseContext)
    → start ≤ offset
    → Shallow c
    → Outcome offset c (parse_fn offset c)
    → Outcome start c (parse_child_with parse_fn offset c)
unfolding parse_child_with
Outcome-child parse_fn offset c low h out = elim (Bool-cases (can_push_layer c)) [
  | inl can ↦ rw can (Outcome-recover offset c (parse_fn offset c) low h (Outcome-weaken low out))
  | inr full ↦ rw full (Outcome-raw _ offset c low h)
]

-- The parsers that a parser calls, with fuel for every byte left in the region.
abbrev pub Serves : (Protocol → ParseFn) → ℕ → Type 0
Serves parse fuel =
    (p : Protocol) (offset : ℕ) (c : ParseContext)
    → Shallow c
    → offset ≤ end c
    → end c < offset + fuel
    → Outcome offset c (parse p offset c)

pub Outcome-registered :
    {start : ℕ} (parse : Protocol → ParseFn) (fuel : ℕ)
    → Serves parse fuel
    → (parent : Protocol) (code offset : ℕ) (other : Parser Done) (c : ParseContext)
    → start ≤ offset
    → Shallow c
    → offset ≤ end c
    → end c < offset + fuel
    → Outcome start c (other c)
    → Outcome start c (dispatch_registered parse parent code offset other c)
Outcome-registered {start} parse fuel serves parent code offset other c low h inside enough out =
    go (registered c.options.registry (id parent) code)
  where
    go :
        (found : Option Protocol)
        → Outcome {A = Done} start c
            (elim found [ none ↦ other c | some child ↦ parse_child_with (parse child) offset c ])
    go none = out
    go (some child) =
        Outcome-child (parse child) offset c low h (serves child offset c h inside enough)

-- A layer that nothing follows.
pub Outcome-last :
    (p : Protocol) (offset len : ℕ) (c : ParseContext)
    → Shallow c
    → 1 ≤ len
    → offset + len ≤ end c
    → Outcome offset c (push_layer p offset len c)
unfolding push_layer
Outcome-last p offset len c h pos room =
    Outcome-push c p offset len (pure tt) h pos room
      (λ c' h' same. Outcome-same (offset + len) c' (ok tt) h' (λ e. cc))

-- A test between two parsers.
pub Outcome-choose :
    {start : ℕ} {c : ParseContext} (b : Bool) (x y : Parser Done)
    → Outcome start c (x c)
    → Outcome start c (y c)
    → Outcome start c ((if b then x else y) c)
Outcome-choose true x y p q = p
Outcome-choose false x y p q = q
