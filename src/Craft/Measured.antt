-- ===== src/Craft/Measured.antt =====
-- What the measuring pass of src/packet/craft.rs gives: plans that contain their children, at
-- offsets one behind the other.
use Prim.Native.String.{String}
use mathlib.Core.Path.{subst}
use maja.Base.{ℕ, ◌+◌, ◌≤◌, ◌≡◌, ◌≢◌, refl, sym, ap, Option, none, some, List, [], ◌∷◌, arith}
use maja.Craft.{
  Result, ok, err, panic, ◌>>=◌, CraftContext, CraftChildPlan, CraftPlan, CraftLayer, MeasuredLayer,
  child_len, validate_plan, child_plan_of, measure_layers, set_layer_offsets, measure,
  checked_add_len,
}

-- Where two steps succeed, the first one did, and so did the second one on its value.
pub ok_of_bind :
    {X Y : Type 0} {y : Y} (next : X → Result Y) (first : Result X)
    → (first >>= next) ≡ ok y
    → (x : X) × (first ≡ ok x) × (next x ≡ ok y)
ok_of_bind next panic q = cc
ok_of_bind next (err e) q = cc
ok_of_bind next (ok x) q = (x, refl, q)

pub ok_inj : {A : Type 0} {a b : A} → ok a ≡ ok b → a ≡ b
ok_inj h = cc

-- The plans of a stack in a context, each around that of the layer inside of it.
abbrev pub Measures : CraftContext → List CraftLayer → List MeasuredLayer → Type 0
Measures c [] [] = Unit
Measures c [] (m ∷ ms) = ⊥
Measures c (l ∷ ls) [] = ⊥
Measures c (l ∷ ls) (m ∷ ms) =
    (l.measure c (child_plan_of ms) ≡ ok m.plan)
    × (m.protocol ≡ l.protocol)
    × (m.context ≡ c)
    × (m.plan.layer_len + child_len (child_plan_of ms) ≤ m.plan.total_len)
    × Measures (l.child_context c) ls ms

-- The layers start one behind the other, the first one at `offset`.
abbrev pub Placed : ℕ → List MeasuredLayer → Type 0
Placed offset [] = Unit
Placed offset (m ∷ ms) = (m.offset ≡ offset) × Placed (offset + m.plan.layer_len) ms

validate_plan-ok :
    (l : CraftLayer) (plan : CraftPlan) (child : Option CraftChildPlan)
    → validate_plan l plan child ≡ ok tt
    → plan.layer_len + child_len child ≤ plan.total_len
unfolding validate_plan
validate_plan-ok l plan none h = ground arith
validate_plan-ok l plan (some child) h = ground arith

pub measure_layers-Measures :
    (c : CraftContext) (ls : List CraftLayer) (ms : List MeasuredLayer)
    → measure_layers c ls ≡ ok ms
    → Measures c ls ms
unfolding measure_layers
measure_layers-Measures c [] [] h = tt
measure_layers-Measures c [] (m ∷ ms) h = cc
measure_layers-Measures c (l ∷ ls) ms h =
    let (inner, e, h1) = ok_of_bind _ (measure_layers (l.child_context c) ls) h in
    let (plan, e1, h2) = ok_of_bind _ (l.measure c (child_plan_of inner)) h1 in
    let (u, e2, h3) = ok_of_bind _ (validate_plan l plan (child_plan_of inner)) h2 in
    subst (Measures c (l ∷ ls)) (ok_inj h3) (
      e1,
      refl,
      refl,
      validate_plan-ok l plan (child_plan_of inner) e2,
      measure_layers-Measures (l.child_context c) ls inner e,
    )

pub set_layer_offsets-child :
    (offset : ℕ) (ms placed : List MeasuredLayer)
    → set_layer_offsets offset ms ≡ ok placed
    → child_plan_of placed ≡ child_plan_of ms
unfolding set_layer_offsets
set_layer_offsets-child offset [] placed h = ap child_plan_of (sym (ok_inj h))
set_layer_offsets-child offset (m ∷ ms) placed h =
    let (next, e, h1) =
      ok_of_bind _ (checked_add_len "packet" "offset" offset m.plan.layer_len) h in
    let (rest, e1, h2) = ok_of_bind _ (set_layer_offsets next ms) h1 in
    ap child_plan_of (sym (ok_inj h2))

pub checked_add_len-ok : (p f : String) (a b n : ℕ) → checked_add_len p f a b ≡ ok n → n ≡ a + b
checked_add_len-ok p f a b n h = ground arith

-- Setting the offsets changes nothing else.
pub set_layer_offsets-Placed :
    (c : CraftContext) (ls : List CraftLayer) (offset : ℕ) (ms placed : List MeasuredLayer)
    → Measures c ls ms
    → set_layer_offsets offset ms ≡ ok placed
    → Measures c ls placed × Placed offset placed
unfolding set_layer_offsets
set_layer_offsets-Placed c [] offset [] placed h e =
    subst (λ (p : List MeasuredLayer). Measures c [] p × Placed offset p) (ok_inj e) (tt, tt)
set_layer_offsets-Placed c [] offset (m ∷ ms) placed h e = absurd h
set_layer_offsets-Placed c (l ∷ ls) offset [] placed h e = absurd h
set_layer_offsets-Placed c (l ∷ ls) offset (m ∷ ms) placed h e =
    let (next, e1, h1) =
      ok_of_bind _ (checked_add_len "packet" "offset" offset m.plan.layer_len) e in
    let (rest, e2, h2) = ok_of_bind _ (set_layer_offsets next ms) h1 in
    let (inner, placed_inner) =
      set_layer_offsets-Placed (l.child_context c) ls next ms rest h.4 e2 in
    let same = set_layer_offsets-child next ms rest e2 in
    subst (λ (p : List MeasuredLayer). Measures c (l ∷ ls) p × Placed offset p) (ok_inj h2)
      (
        (rw same h.0, h.1, h.2, rw same h.3, inner),
        (
          refl,
          subst (λ (o : ℕ). Placed o rest)
              (checked_add_len-ok "packet" "offset" offset m.plan.layer_len next e1) placed_inner,
        ),
      )

pub measure-Measures :
    (c : CraftContext) (ls : List CraftLayer) (ms : List MeasuredLayer)
    → measure c ls ≡ ok ms
    → Measures c ls ms × Placed 0 ms
unfolding measure
measure-Measures c ls ms h =
    let (raw, e, h1) = ok_of_bind _ (measure_layers c ls) h in
    set_layer_offsets-Placed c ls 0 raw ms (measure_layers-Measures c ls raw e) h1

-- A step that does not panic, after one that does not.
pub calm_bind :
    {A B : Type 0} (m : Result A) (f : A → Result B)
    → m ≢ panic
    → ((a : A) → f a ≢ panic)
    → (m >>= f) ≢ panic
calm_bind (ok a) f h k e = k a e
calm_bind (err x) f h k e = cc
calm_bind panic f h k e = h refl

pub checked_add_len-calm : (p f : String) (a b : ℕ) → checked_add_len p f a b ≢ panic
checked_add_len-calm p f a b e = ground arith
