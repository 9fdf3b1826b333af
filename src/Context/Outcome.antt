-- ===== src/Context/Outcome.antt =====
-- What a parser may do to the context: one predicate on a result, and a rule for each operation.
use maja.Base.{
  ℕ, ◌+◌, ◌-◌, ◌≤◌, ◌≡◌, ◌≢◌, refl, sym, ◌∙◌, ap, true, Option, none, some, List, [], ◌∷◌, ◌++◌,
  arith, Bool-cases, ltb, ltb→lt, length, if◌then◌else◌, inl, inr,
}
use mathlib.Core.List.{append-nil, append_assoc}
use mathlib.Core.Path.{ap₂}
use maja.Protocol.{Protocol, is}
use maja.Context.{
  stuck, Result, ok, err, Layer, ParseContext, Parser, end_of, ◌>>◌, end, can_push_layer,
  append_layer, push_layer, ends_with_raw, parse_raw,
}

-- Layers in wire order: each is a range of at least one byte that starts at `start` or behind the
-- layer before it, and none reaches past `stop`.
abbrev pub Ordered : ℕ → ℕ → List Layer → Type 0
Ordered start stop [] = Unit
Ordered start stop (l ∷ ls) =
    (start ≤ l.offset)
    × (1 ≤ l.len)
    × (l.offset + l.len ≤ stop)
    × Ordered (l.offset + l.len) stop ls

-- The layers that are not raw.
abbrev pub structured : List Layer → ℕ
structured [] = 0
structured (l ∷ ls) = (if is l.protocol Protocol.raw then 0 else 1) + structured ls

-- The structured layers keep to `max_depth`.
abbrev pub WithinDepth : Option ℕ → List Layer → Type 0
WithinDepth none layers = Unit
WithinDepth (some depth) layers = structured layers ≤ depth

abbrev pub Shallow : ParseContext → Type 0
Shallow c = WithinDepth c.options.max_depth c.layers

-- A parser that was called at `start` in the context `c` has left the context `r.1`: the bytes, the
-- options and the declared end are those of `c`, layers were only added, in wire order between
-- `start` and the end of the region, the depth is kept to, and the result is a real one.
pub record Outcome {A : Type 0} (start : ℕ) (c : ParseContext) (r : Result A × ParseContext)
    : Type 0 where
  pub bytes_kept : r.1.bytes ≡ c.bytes
  pub options_kept : r.1.options ≡ c.options
  pub end_kept : r.1.declared_end ≡ c.declared_end
  pub added : List Layer
  pub layers_grow : r.1.layers ≡ c.layers ++ added
  pub ordered : Ordered start (end c) added
  pub shallow : Shallow r.1
  pub real : r.0 ≢ err stuck

-- The region is the same.
pub end-same :
    (c c' : ParseContext) → c'.bytes ≡ c.bytes → c'.declared_end ≡ c.declared_end → end c' ≡ end c
end-same c c' p q = ap₂ end_of q p

Ordered-weaken : (a b stop : ℕ) (ls : List Layer) → a ≤ b → Ordered b stop ls → Ordered a stop ls
Ordered-weaken a b stop [] h o = tt
Ordered-weaken a b stop (l ∷ ls) h o = (omega arith, o.1, o.2, o.3)

module _ {A : Type 0} where
  -- Nothing was added.
  pub Outcome-same :
      (start : ℕ) (c : ParseContext) (r : Result A)
      → Shallow c
      → r ≢ err stuck
      → Outcome start c (r, c)
  Outcome-same start c r h real = record {
    bytes_kept = refl;
    options_kept = refl;
    end_kept = refl;
    added = [];
    layers_grow = sym (append-nil c.layers);
    ordered = tt;
    shallow = h;
    real = real;
  }

  pub Outcome-weaken :
      {a b : ℕ} {c : ParseContext} {r : Result A × ParseContext}
      → a ≤ b
      → Outcome b c r
      → Outcome a c r
  Outcome-weaken {a} {b} {c} h o = record {
    bytes_kept = o.bytes_kept;
    options_kept = o.options_kept;
    end_kept = o.end_kept;
    added = o.added;
    layers_grow = o.layers_grow;
    ordered = Ordered-weaken a b (end c) o.added h o.ordered;
    shallow = o.shallow;
    real = o.real;
  }

structured-append : (xs ys : List Layer) → structured (xs ++ ys) ≡ structured xs + structured ys
structured-append [] ys = omega arith
structured-append (x ∷ xs) ys = omega (arith, structured-append xs ys)

structured-le-length : (xs : List Layer) → structured xs ≤ length xs
structured-le-length [] = omega arith
structured-le-length (x ∷ xs) = ground (arith, structured-le-length xs)

-- A layer is pushed only where the depth allows it.
Shallow-push :
    (c : ParseContext) (p : Protocol) (offset len : ℕ)
    → Shallow c
    → can_push_layer c ≡ true
    → Shallow (append_layer c p offset len)
Shallow-push c p offset len h can = at c.options.max_depth h can
  where
    at :
        (depth : Option ℕ)
        → WithinDepth depth c.layers
        → (elim depth [ none ↦ true | some d ↦ ltb (length c.layers) d ]) ≡ true
        → WithinDepth depth (append_layer c p offset len).layers
    at none h can = tt
    at (some d) h can = ground (
      arith,
      structured-append c.layers (record { protocol = p; offset = offset; len = len } ∷ []),
      structured-le-length c.layers,
    )

pub Ordered-widen :
    (a stop stop' : ℕ) (ls : List Layer) → stop ≤ stop' → Ordered a stop ls → Ordered a stop' ls
Ordered-widen a stop stop' [] h o = tt
Ordered-widen a stop stop' (l ∷ ls) h o =
    (o.0, o.1, omega arith, Ordered-widen (l.offset + l.len) stop stop' ls h o.3)

pub Ordered-append :
    (a mid stop : ℕ) (xs ys : List Layer)
    → a ≤ mid
    → mid ≤ stop
    → Ordered a mid xs
    → Ordered mid stop ys
    → Ordered a stop (xs ++ ys)
Ordered-append a mid stop [] ys h k ox oy = Ordered-weaken a mid stop ys h oy
Ordered-append a mid stop (l ∷ ls) ys h k ox oy =
    (ox.0, ox.1, omega arith, Ordered-append (l.offset + l.len) mid stop ls ys ox.2 k ox.3 oy)

-- The context `c'` is `c` with the layers `added`, between `start` and `mid`; what comes behind
-- starts at `mid`.
pub Outcome-after :
    {A : Type 0} {start mid : ℕ} {c c' : ParseContext} {r : Result A × ParseContext}
    (added : List Layer)
    → c'.bytes ≡ c.bytes
    → c'.options ≡ c.options
    → c'.declared_end ≡ c.declared_end
    → c'.layers ≡ c.layers ++ added
    → start ≤ mid
    → mid ≤ end c
    → Ordered start mid added
    → Outcome mid c' r
    → Outcome start c r
Outcome-after {start = start} {mid = mid} {c = c} {c' = c'} added b o e l h k ord out = record {
  bytes_kept = out.bytes_kept ∙ b;
  options_kept = out.options_kept ∙ o;
  end_kept = out.end_kept ∙ e;
  added = added ++ out.added;
  layers_grow =
      out.layers_grow
      ∙ ap (λ (ls : List Layer). ls ++ out.added) l
      ∙ append_assoc c.layers added out.added;
  ordered =
      Ordered-append start mid (end c) added out.added h k ord
        (rw (end-same c c' b e) at out.ordered);
  shallow = out.shallow;
  real = out.real;
}

-- `push_layer` adds its layer, if the depth allows it, and leaves the rest of the context alone.
pub Outcome-push :
    {A : Type 0} (c : ParseContext) (p : Protocol) (offset len : ℕ) (k : Parser A)
    → Shallow c
    → 1 ≤ len
    → offset + len ≤ end c
    → ((c' : ParseContext) → Shallow c' → end c' ≡ end c → Outcome (offset + len) c' (k c'))
    → Outcome offset c ((push_layer p offset len >> k) c)
unfolding push_layer
Outcome-push c p offset len k h pos room behind = elim (Bool-cases (can_push_layer c)) [
  | inl can ↦ rw can (
      Outcome-after (record { protocol = p; offset = offset; len = len } ∷ []) refl refl refl refl
        (omega arith) room (omega arith)
        (behind (append_layer c p offset len) (Shallow-push c p offset len h can) refl))
  | inr full ↦ rw full (Outcome-weaken (omega arith) (behind c h refl))
]

Shallow-raw :
    (c : ParseContext) (offset len : ℕ)
    → Shallow c
    → Shallow (append_layer c Protocol.raw offset len)
Shallow-raw c offset len h = at c.options.max_depth h
  where
    at :
        (depth : Option ℕ)
        → WithinDepth depth c.layers
        → WithinDepth depth (append_layer c Protocol.raw offset len).layers
    at none h = tt
    at (some d) h = omega (
      arith,
      structured-append c.layers
          (record { protocol = Protocol.raw; offset = offset; len = len } ∷ []),
    )

pub Outcome-raw :
    (start offset : ℕ) (c : ParseContext)
    → start ≤ offset
    → Shallow c
    → Outcome start c (parse_raw offset c)
unfolding parse_raw
Outcome-raw start offset c low h = elim (Bool-cases (ltb offset (end c))) [
  | inr none_left ↦ rw none_left (Outcome-same start c (ok tt) h (λ e. cc))
  | inl some_left ↦ elim (Bool-cases (ends_with_raw c.layers offset (end c - offset))) [
    | inl there ↦ rw (some_left, there) (Outcome-same start c (ok tt) h (λ e. cc))
    | inr missing ↦
        let l : Layer = record { protocol = Protocol.raw; offset = offset; len = end c - offset } in
        let lt = ltb→lt offset (end c) some_left in
        rw (some_left, missing)
          (Outcome-after (l ∷ []) refl refl refl refl (omega arith) (omega arith) (omega arith) (
            Outcome-same (end c) (append_layer c Protocol.raw offset (end c - offset)) (ok tt)
              (Shallow-raw c offset (end c - offset) h) (λ e. cc)))
  ]
]
