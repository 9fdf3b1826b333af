-- ===== src/Context/Within.antt =====
-- The declared end of `ParseContext` in src/packet.rs, which a parser narrows for its payload and
-- sets back.
use maja.Base.{ℕ, ◌≤◌, ◌≡◌, refl, min, Option, none, some, arith}
use maja.Context.{
  Result, ok, err, ParseContext, Parser, Done, end_of, and_then, ◌>>◌, pure, end, parse_raw, narrow,
  within, trailer,
}
use maja.Context.Outcome.{Outcome, Shallow, Outcome-after, Outcome-raw, Ordered-widen}

end-narrow :
    (c : ParseContext) (stop : ℕ)
    → end (record c { declared_end = narrow c.declared_end (some stop) }) ≡ min stop (end c)
end-narrow c stop = at c.declared_end
  where
    at :
        (outer : Option ℕ)
        → end_of (narrow outer (some stop)) c.bytes ≡ min stop (end_of outer c.bytes)
    at none = omega arith
    at (some outer) = omega arith

-- The region is narrowed for the payload and set back, and the rest of the outer region is raw.
Outcome-within-some :
    {start : ℕ} (stop : ℕ) (body : Parser Done) (c : ParseContext)
    → start ≤ stop
    → start ≤ end c
    → Outcome start
        (record c { declared_end = narrow c.declared_end (some stop) })
        (body (record c { declared_end = narrow c.declared_end (some stop) }))
    → Outcome start c ((within (some stop) body >> trailer (some stop)) c)
unfolding within
Outcome-within-some {start} stop body c low inside out =
    go (body (record c { declared_end = narrow c.declared_end (some stop) })) out
  where
    inner : ParseContext
    inner = record c { declared_end = narrow c.declared_end (some stop) }

    back :
        (r : Result Done × ParseContext)
        → Outcome start inner r
        → Outcome start c (r.0, record r.1 { declared_end = c.declared_end })
    back r o = record {
      bytes_kept = o.bytes_kept;
      options_kept = o.options_kept;
      end_kept = refl;
      added = o.added;
      layers_grow = o.layers_grow;
      ordered =
          Ordered-widen start (end inner) (end c) o.added (omega (arith, end-narrow c stop))
            o.ordered;
      shallow = o.shallow;
      real = o.real;
    }

    go :
        (r : Result Done × ParseContext)
        → Outcome start inner r
        → Outcome start c
            (and_then (λ done. parse_raw stop) (r.0, record r.1 { declared_end = c.declared_end }))
    go (err e, c') o = back (err e, c') o
    go (ok done, c') o =
        Outcome-after o.added o.bytes_kept o.options_kept refl o.layers_grow
          (omega (arith, end-narrow c stop)) (omega (arith, end-narrow c stop)) o.ordered
          (Outcome-raw (end inner) stop (record c' { declared_end = c.declared_end })
            (omega (arith, end-narrow c stop)) o.shallow)

narrow-none : (outer : Option ℕ) → narrow outer none ≡ outer
narrow-none none = refl
narrow-none (some e) = refl

Outcome-restored :
    {start : ℕ} {c : ParseContext} (r : Result Done × ParseContext)
    → Outcome start c r
    → Outcome start c (r.0, record r.1 { declared_end = c.declared_end })
Outcome-restored r o = record {
  bytes_kept = o.bytes_kept;
  options_kept = o.options_kept;
  end_kept = refl;
  added = o.added;
  layers_grow = o.layers_grow;
  ordered = o.ordered;
  shallow = o.shallow;
  real = o.real;
}

pub Outcome-within :
    {start : ℕ} (stop : Option ℕ) (body : Parser Done) (c : ParseContext)
    → ((e : ℕ) → stop ≡ some e → start ≤ e)
    → start ≤ end c
    → Shallow c
    → ((c' : ParseContext)
        → Shallow c'
        → start ≤ end c'
        → end c' ≤ end c
        → Outcome start c' (body c'))
    → Outcome start c ((within stop body >> trailer stop) c)
unfolding within
Outcome-within (some stop) body c low inside h good =
    Outcome-within-some stop body c (low stop refl) inside (
      good (record c { declared_end = narrow c.declared_end (some stop) }) h
        (omega (arith, end-narrow c stop, low stop refl)) (omega (arith, end-narrow c stop)))
Outcome-within {start} none body c low inside h good =
    rw (narrow-none c.declared_end) (go (body c) (good c h inside (omega arith)))
  where
    go :
        (r : Result Done × ParseContext)
        → Outcome start c r
        → Outcome start c
            (and_then (λ done. pure tt) (r.0, record r.1 { declared_end = c.declared_end }))
    go (err e, c') o = Outcome-restored (err e, c') o
    go (ok done, c') o = Outcome-restored (ok done, c') o
