-- ===== src/Craft/Built.antt =====
-- Stacks of lawful layers, src/packet/craft.rs: once they are measured they are built, and their
-- layers cover the packet.
use mathlib.Core.List.{append-nil}
use maja.Base.{
  ℕ, zero, suc, ◌+◌, ◌-◌, ◌≤◌, ◌≡◌, refl, ap, ◌∙◌, List, [], ◌∷◌, ◌++◌, arith, length, take, drop,
  length-drop, length-take, length-append,
}
use maja.Context.{slice}
use maja.Craft.{ok, CraftContext, CraftLayer, MeasuredLayer, child_len, child_plan_of, child_of}
use maja.Craft.Measured.{Measures}
use maja.Craft.Laws.{KeepsLength, Lawful, All}
use maja.Craft.Nested.{nest, length-nest}

abbrev pub total : List MeasuredLayer → ℕ
total ms = child_len (child_plan_of ms)

pub All-keeps : (ls : List CraftLayer) → All Lawful ls → All KeepsLength ls
All-keeps [] h = tt
All-keeps (l ∷ ls) h = (h.0.keeps, All-keeps ls h.1)

drop_all : (n : ℕ) (xs : List ℕ) → length xs ≤ n → drop n xs ≡ []
drop_all zero [] h = refl
drop_all (suc n) [] h = refl
drop_all zero (x ∷ xs) h = absurd (omega arith)
drop_all (suc n) (x ∷ xs) h = drop_all n xs (omega arith)

take_all : (n : ℕ) (xs : List ℕ) → length xs ≤ n → take n xs ≡ xs
take_all zero [] h = refl
take_all (suc n) [] h = refl
take_all zero (x ∷ xs) h = absurd (omega arith)
take_all (suc n) (x ∷ xs) h = ap (λ (t : List ℕ). x ∷ t) (take_all n xs (omega arith))

-- The outer layer wraps the inner stack: what stands behind its own bytes is the inner stack.
unfoldable pub Wraps :
    CraftLayer → List CraftLayer → MeasuredLayer → List MeasuredLayer → List ℕ → List ℕ → Type 0
Wraps l ls m ms bytes written =
    (inner : List ℕ) × (nest ls ms (drop m.plan.layer_len bytes) ≡ ok inner)
    × (l.write m.context m.plan (child_of m ms) (take m.plan.layer_len bytes ++ inner) ≡ ok written)
    × (drop m.plan.layer_len written ≡ inner)

drop-take-append : (n : ℕ) (xs ys : List ℕ) → n ≤ length xs → drop n (take n xs ++ ys) ≡ ys
drop-take-append zero xs ys h = refl
drop-take-append (suc n) [] ys h = absurd (omega arith)
drop-take-append (suc n) (x ∷ xs) ys h = drop-take-append n xs ys (omega arith)

nest-cons :
    (l : CraftLayer) (ls : List CraftLayer) (m : MeasuredLayer) (ms : List MeasuredLayer)
    (bytes inner : List ℕ)
    → Lawful l
    → l.measure m.context (child_plan_of ms) ≡ ok m.plan
    → length bytes ≡ m.plan.total_len
    → nest ls ms (drop m.plan.layer_len bytes) ≡ ok inner
    → length inner ≡ total ms
    → (written : List ℕ) × (nest (l ∷ ls) (m ∷ ms) bytes ≡ ok written)
      × Wraps l ls m ms bytes written
unfolding nest Wraps
nest-cons l ls m ms bytes inner law measured n e size =
    let start : ℕ = m.plan.layer_len in
    let stop : ℕ = m.plan.layer_len + total ms in
    let (exact, fits) = law.exact m.context (child_plan_of ms) m.plan measured in
    let around : List ℕ = take start bytes ++ inner in
    let len : length around ≡ m.plan.total_len =
      omega (arith, length-append (take start bytes) inner, length-take start bytes) in
    let (written, w, kept) =
      law.writes m.context (child_plan_of ms) m.plan (child_of m ms) around measured len in
    let behind : drop stop bytes ≡ [] = drop_all stop bytes (omega arith) in
    let mid : slice bytes start stop ≡ drop start bytes =
      take_all (stop - start) (drop start bytes) (omega (arith, length-drop start bytes)) in
    (
      written,
      rw (mid, e) (rw (behind, append-nil inner) w),
      (inner, e, w, kept ∙ drop-take-append start bytes inner (omega arith)),
    )

inner_len :
    (c : CraftContext) (l : CraftLayer) (ls : List CraftLayer) (m : MeasuredLayer)
    (ms : List MeasuredLayer) (bytes : List ℕ)
    → All Lawful (l ∷ ls)
    → Measures c (l ∷ ls) (m ∷ ms)
    → length bytes ≡ m.plan.total_len
    → length (drop m.plan.layer_len bytes) ≡ total ms
inner_len c l ls m ms bytes k h n =
    omega (arith, (k.0.exact c (child_plan_of ms) m.plan h.0).0, length-drop m.plan.layer_len bytes)

pub nest-Wraps :
    (c : CraftContext) (l : CraftLayer) (ls : List CraftLayer) (m : MeasuredLayer)
    (ms : List MeasuredLayer) (bytes : List ℕ)
    → All Lawful (l ∷ ls)
    → Measures c (l ∷ ls) (m ∷ ms)
    → length bytes ≡ m.plan.total_len
    → ((inner : List ℕ) × (nest ls ms (drop m.plan.layer_len bytes) ≡ ok inner))
    → (written : List ℕ) × (nest (l ∷ ls) (m ∷ ms) bytes ≡ ok written)
      × Wraps l ls m ms bytes written
nest-Wraps c l ls m ms bytes k h n (inner, e) =
    let len = inner_len c l ls m ms bytes k h n in
    nest-cons l ls m ms bytes inner k.0 (rw h.2 h.0) n e (
      length-nest (l.child_context c) ls ms (drop m.plan.layer_len bytes) inner (All-keeps ls k.1)
        h.4 len e
      ∙ len)

-- The writing pass cannot fail.
pub nest-total :
    (c : CraftContext) (ls : List CraftLayer) (ms : List MeasuredLayer) (bytes : List ℕ)
    → All Lawful ls
    → Measures c ls ms
    → length bytes ≡ total ms
    → (written : List ℕ) × (nest ls ms bytes ≡ ok written)
unfolding nest
nest-total c [] [] bytes k h n = (bytes, refl)
nest-total c [] (m ∷ ms) bytes k h n = absurd h
nest-total c (l ∷ ls) [] bytes k h n = absurd h
nest-total c (l ∷ ls) (m ∷ ms) bytes k h n =
    let (written, e, w) = nest-Wraps c l ls m ms bytes k h n (
      nest-total (l.child_context c) ls ms (drop m.plan.layer_len bytes) k.1 h.4
        (inner_len c l ls m ms bytes k h n)) in
    (written, e)
