-- ===== src/Context/Require.antt =====
-- `require` of `ParseContext` in src/packet.rs: the cases of its result, and a parser that starts
-- with it.
use maja.Base.{
  le→leb, le→not_ltb, ℕ, ◌+◌, ◌≤◌, ◌≡◌, ◌≢◌, refl, Bool, true, false, ◌&&◌, Option, none, some,
  List, arith, Bool-cases, ltb, leb, length, inl, inr,
}
use maja.Protocol.{Protocol}
use maja.Context.{
  ParseError, truncated, stuck, ok, err, ParseContext, Parser, Done, end_of, ◌>>=◌, end, require,
  slice, truncated_at, usize_max,
}
use maja.Context.Outcome.{Outcome, Shallow, Outcome-same}

-- What `require` returns: the header, which is inside of the region, or the error of a short packet.
pub data Required (p : Protocol) (offset len : ℕ) (c : ParseContext) : Type 0 where
  found :
      (header : List ℕ)
      → offset + len ≤ end c
      → offset + len ≤ usize_max
      → require p offset len c ≡ (ok header, c)
      → Required p offset len c
  short :
      (e : ParseError) → e ≢ stuck → require p offset len c ≡ (err e, c) → Required p offset len c

not_stuck :
    {p : Protocol} {offset needed available : ℕ} → truncated p offset needed available ≢ stuck
not_stuck e = cc

pub require_cases : (p : Protocol) (offset len : ℕ) (c : ParseContext) → Required p offset len c
unfolding require
require_cases p offset len c = elim (Bool-cases (leb (offset + len) usize_max)) [
  | inr over ↦ short (truncated_at p offset len (end c)) not_stuck (rw over refl)
  | inl fits ↦ elim (Bool-cases (ltb (end c) (offset + len))) [
    | inl beyond ↦ short (truncated_at p offset len (end c)) not_stuck (rw (fits, beyond) refl)
    | inr room ↦
        elim (Bool-cases (leb offset (offset + len) && leb (offset + len) (length c.bytes))) [
          | inl inside ↦
              found (slice c.bytes offset (offset + len)) (ground arith) (ground arith)
                (rw (fits, room, inside) refl)
          | inr outside ↦
              short (truncated_at p offset len (end c)) not_stuck (rw (fits, room, outside) refl)
        ]
  ]
]

pub Outcome-require_fits :
    {start : ℕ} (p : Protocol) (offset len : ℕ) (c : ParseContext) (k : List ℕ → Parser Done)
    → Shallow c
    → ((header : List ℕ)
        → offset + len ≤ end c
        → offset + len ≤ usize_max
        → Outcome start c (k header c))
    → Outcome start c ((require p offset len >>= k) c)
Outcome-require_fits {start} p offset len c k h good = elim (require_cases p offset len c) [
  | found header room fits e ↦ rw e (good header room fits)
  | short e real same ↦ rw same (Outcome-same start c _ h (λ q. real (cc)))
]

pub Outcome-require :
    {start : ℕ} (p : Protocol) (offset len : ℕ) (c : ParseContext) (k : List ℕ → Parser Done)
    → Shallow c
    → ((header : List ℕ) → offset + len ≤ end c → Outcome start c (k header c))
    → Outcome start c ((require p offset len >>= k) c)
Outcome-require p offset len c k h good =
    Outcome-require_fits p offset len c k h (λ header room fits. good header room)

and_true : (a b : Bool) → a ≡ true → b ≡ true → (a && b) ≡ true
and_true true b h k = k
and_true false b h k = absurd (ground arith)

-- The region ends inside of the bytes.
pub end-le : (c : ParseContext) → end c ≤ length c.bytes
end-le c = at c.declared_end
  where
    at : (e : Option ℕ) → end_of e c.bytes ≤ length c.bytes
    at none = omega arith
    at (some e) = omega arith

-- A range inside of the region is found.
pub require-ok :
    (p : Protocol) (offset len : ℕ) (c : ParseContext)
    → offset + len ≤ end c
    → end c ≤ usize_max
    → require p offset len c ≡ (ok (slice c.bytes offset (offset + len)), c)
unfolding require
require-ok p offset len c room fits =
    let inside : leb offset (offset + len) && leb (offset + len) (length c.bytes) ≡ true =
      and_true _ _ (le→leb offset (offset + len) (omega arith))
        (le→leb (offset + len) (length c.bytes) (omega (arith, end-le c))) in
    rw (le→leb (offset + len) usize_max (omega arith), le→not_ltb (end c) (offset + len) room)
      (rw inside refl)
