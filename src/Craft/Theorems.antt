-- ===== src/Craft/Theorems.antt =====
-- What `PacketStack` of src/packet/craft.rs promises: packets that their layers cover, no failure
-- after measuring, and stacks that contain stacks.
use mathlib.Core.Path.{subst}
use native.Mathlib.Nat.{zero-add}
use maja.Base.{
  ℕ, ◌+◌, ◌≡◌, ◌≢◌, refl, sym, ap, ◌∙◌, Option, none, some, List, [], ◌∷◌, map, arith, length,
  replicate, length-replicate,
}
use maja.Protocol.{Protocol}
use maja.Context.{Layer}
use maja.Packet.{Packet}
use maja.Craft.{
  Result, ok, err, panic, ◌>>=◌, CraftContext, CraftLayer, MeasuredLayer, child_len, child_plan_of,
  measure_layers, measure, write_measured, collect_layers, CraftPlan, CraftChildPlan, first_total,
  build_in, validate_plan, default_context, stack_to_bytes, build,
}
use maja.Craft.Measured.{
  calm_bind, Measures, Placed, ok_of_bind, ok_inj, measure_layers-Measures,
  set_layer_offsets-Placed, set_layer_offsets-child,
}
use maja.Craft.Laws.{Lawful, All}
use maja.Craft.Nested.{length-nest}
use maja.Craft.Built.{total, All-keeps}
use maja.Craft.Stack.{Built, built}

-- Every layer starts where the one before it ends, and the last one ends at `stop`.
abbrev pub Covers : ℕ → List Layer → ℕ → Type 0
Covers offset [] stop = offset ≡ stop
Covers offset (l ∷ ls) stop = (l.offset ≡ offset) × Covers (offset + l.len) ls stop

-- What measuring decides, building does.
abbrev pub Decides : Result (List MeasuredLayer) → Result Packet → Type 0
Decides (ok ms) r = (p : Packet) × (r ≡ ok p)
Decides (err e) r = r ≡ err e
Decides panic r = ⊥

abbrev protocols : List Layer → List Protocol
protocols = map (λ l. l.protocol)

abbrev stack_protocols : List CraftLayer → List Protocol
stack_protocols = map (λ l. l.protocol)

collect-Covers :
    (c : CraftContext) (ls : List CraftLayer) (offset : ℕ) (ms : List MeasuredLayer)
    → All Lawful ls
    → Measures c ls ms
    → Placed offset ms
    → (protocols (collect_layers ms) ≡ stack_protocols ls)
      × Covers offset (collect_layers ms) (offset + total ms)
collect-Covers c [] offset [] k h p = (refl, omega arith)
collect-Covers c [] offset (m ∷ ms) k h p = absurd h
collect-Covers c (l ∷ ls) offset [] k h p = absurd h
collect-Covers c (l ∷ ls) offset (m ∷ ms) k h p =
    let (names, covers) =
      collect-Covers (l.child_context c) ls (offset + m.plan.layer_len) ms k.1 h.4 p.1 in
    let e : offset + m.plan.layer_len + total ms ≡ offset + m.plan.total_len =
      omega (arith, (k.0.exact c (child_plan_of ms) m.plan h.0).0) in
    (
      ap (λ (ps : List Protocol). m.protocol ∷ ps) names
          ∙ ap (λ (q : Protocol). q ∷ stack_protocols ls) h.1,
      (p.0, subst (Covers (offset + m.plan.layer_len) (collect_layers ms)) e covers),
    )

-- A measured stack, in any context.
Built-packet :
    (c : CraftContext) (l : CraftLayer) (ls : List CraftLayer) (ms : List MeasuredLayer)
    (p : Packet) (k : All Lawful (l ∷ ls))
    → Built c (l ∷ ls) ms
    → Measures c (l ∷ ls) ms
    → build_in c (l ∷ ls) ≡ ok p
    → (protocols p.layers ≡ stack_protocols (l ∷ ls)) × Covers 0 p.layers (length p.bytes)
Built-packet c l ls ms p k b h e =
    let (h', q) = set_layer_offsets-Placed c (l ∷ ls) 0 ms b.placed h b.offsets in
    subst
      (λ (p : Packet).
        (protocols p.layers ≡ stack_protocols (l ∷ ls)) × Covers 0 p.layers (length p.bytes))
      (ok_inj (sym b.packet ∙ e)) (covers_written (collect-Covers c (l ∷ ls) 0 b.placed k h' q))
  where
    same : 0 + total b.placed ≡ length b.written
    same =
        zero-add (total b.placed)
        ∙ ap child_len (set_layer_offsets-child 0 ms b.placed b.offsets)
        ∙ sym (
            length-nest c (l ∷ ls) ms (replicate (total ms) 0) b.written (All-keeps (l ∷ ls) k) h
              (length-replicate (total ms) 0) b.nested
            ∙ length-replicate (total ms) 0)

    covers_written :
        (protocols (collect_layers b.placed) ≡ stack_protocols (l ∷ ls))
          × Covers 0 (collect_layers b.placed) (0 + total b.placed)
        → (protocols (collect_layers b.placed) ≡ stack_protocols (l ∷ ls))
          × Covers 0 (collect_layers b.placed) (length b.written)
    covers_written (names, covers) = (names, subst (Covers 0 (collect_layers b.placed)) same covers)

pub measured :
    (c : CraftContext) (ls : List CraftLayer) (p : Packet)
    → build_in c ls ≡ ok p
    → (ms : List MeasuredLayer) × (measure_layers c ls ≡ ok ms)
unfolding build_in measure
measured c [] p e = cc
measured c (l ∷ ls) p e =
    let (placed, e1, h1) = ok_of_bind _ (measure c (l ∷ ls)) e in
    let (ms, e2, h2) = ok_of_bind _ (measure_layers c (l ∷ ls)) e1 in (ms, e2)

-- The layer table of a packet that is built of lawful layers has the protocols of the stack, in
-- its order, and covers the packet: every layer starts where the one before it ends, the first at
-- zero, and the last one ends with the packet.
pub build-Covers :
    (ls : List CraftLayer) (p : Packet)
    → All Lawful ls
    → build ls ≡ ok p
    → (protocols p.layers ≡ stack_protocols ls) × Covers 0 p.layers (length p.bytes)
unfolding build_in
build-Covers [] p k e = cc
build-Covers (l ∷ ls) p k e =
    let (ms, m) = measured default_context (l ∷ ls) p e in
    Built-packet default_context l ls ms p k (built default_context l ls ms k m)
      (measure_layers-Measures default_context (l ∷ ls) ms m) e

validate_plan-calm :
    (l : CraftLayer) (plan : CraftPlan) (child : Option CraftChildPlan)
    → validate_plan l plan child ≢ panic
unfolding validate_plan
validate_plan-calm l plan none e = ground arith
validate_plan-calm l plan (some child) e = ground arith

measure_layers-calm :
    (c : CraftContext) (ls : List CraftLayer) → All Lawful ls → measure_layers c ls ≢ panic
unfolding measure_layers
measure_layers-calm c [] k = λ e. cc
measure_layers-calm c (l ∷ ls) k =
    calm_bind (measure_layers (l.child_context c) ls) _
      (measure_layers-calm (l.child_context c) ls k.1)
      (λ ms. calm_bind (l.measure c (child_plan_of ms)) _ (k.0.calm c (child_plan_of ms)) (λ plan.
        calm_bind (validate_plan l plan (child_plan_of ms)) _
          (validate_plan-calm l plan (child_plan_of ms)) (λ u e. cc)))

-- For a stack of lawful layers, building succeeds if measuring does, and otherwise gives the error
-- of measuring: neither the offsets nor the writing pass can fail, and nothing panics.
pub build-Decides :
    (l : CraftLayer) (ls : List CraftLayer)
    → All Lawful (l ∷ ls)
    → Decides (measure_layers default_context (l ∷ ls)) (build (l ∷ ls))
unfolding build_in measure
build-Decides l ls k = go (measure_layers default_context (l ∷ ls)) refl
  where
    go :
        (r : Result (List MeasuredLayer))
        → measure_layers default_context (l ∷ ls) ≡ r
        → Decides r (build (l ∷ ls))
    go (ok ms) e = (_, (built default_context l ls ms k e).packet)
    go (err x) e = rw e refl
    go panic e = measure_layers-calm default_context (l ∷ ls) k e

-- `PacketStack::to_bytes` gives the bytes of the packet that `build` gives, and fails as it does.
pub stack_to_bytes-build :
    (ls : List CraftLayer) → stack_to_bytes ls ≡ (build ls >>= λ p. ok p.bytes)
unfolding stack_to_bytes build_in
stack_to_bytes-build [] = refl
stack_to_bytes-build (l ∷ ls) = go (measure default_context (l ∷ ls))
  where
    wrote :
        (ms : List MeasuredLayer) (r : Result (List ℕ))
        → r ≡ (
            (r >>= λ bytes. ok (record { bytes = bytes; layers = collect_layers ms }))
            >>= λ (p : Packet). ok p.bytes)
    wrote ms (ok bytes) = refl
    wrote ms (err e) = refl
    wrote ms panic = refl

    go :
        (r : Result (List MeasuredLayer))
        → (r >>= λ ms. first_total ms >>= λ n. write_measured (l ∷ ls) ms (replicate n 0)) ≡ (
            (r >>= λ ms. first_total ms >>= λ n.
            write_measured (l ∷ ls) ms (replicate n 0) >>= λ bytes.
            ok (record { bytes = bytes; layers = collect_layers ms }))
            >>= λ (p : Packet). ok p.bytes)
    go (ok []) = refl
    go (ok (m ∷ ms)) =
        wrote (m ∷ ms) (write_measured (l ∷ ls) (m ∷ ms) (replicate m.plan.total_len 0))
    go (err e) = refl
    go panic = refl
