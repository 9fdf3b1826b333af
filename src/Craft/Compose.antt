-- ===== src/Craft/Compose.antt =====
-- A stack inside of a layer, src/packet/craft.rs: the outer layer stands in front of what the inner
-- stack is on its own.
use mathlib.Core.Path.{subst}
use maja.Base.{
  get_elem?, ℕ, zero, suc, ◌+◌, ◌-◌, ◌≡◌, refl, sym, ap, ◌∙◌, Option, some, List, [], ◌∷◌, ◌++◌,
  map, arith, length, take, drop, replicate, length-replicate, length-append, length-take,
  length-drop,
}
use maja.Protocol.{Protocol}
use maja.Context.{Layer}
use maja.Packet.{Packet}
use maja.Craft.{
  ok, CraftContext, CraftLayer, MeasuredLayer, child_plan_of, child_of, checked_add_len,
  measure_layers, set_layer_offsets, collect_layers, CraftPlan, CraftChildPlan, CraftChild,
  build_in, validate_plan,
}
use maja.Craft.Measured.{ok_of_bind, ok_inj, measure_layers-Measures, checked_add_len-ok}
use maja.Craft.Laws.{Lawful, All}
use maja.Craft.Nested.{nest, length-nest}
use maja.Craft.Built.{total, nest-Wraps, Wraps, All-keeps, nest-total}
use maja.Craft.Stack.{built}
use maja.Craft.Theorems.{measured}

-- A layer of the stack inside of another layer.
abbrev pub shift : ℕ → Layer → Layer
shift n l = record l { offset = n + l.offset }

shift_offsets :
    (d offset start : ℕ) (ms placed unplaced : List MeasuredLayer)
    → start ≡ d + offset
    → set_layer_offsets start ms ≡ ok placed
    → set_layer_offsets offset ms ≡ ok unplaced
    → collect_layers placed ≡ map (shift d) (collect_layers unplaced)
unfolding set_layer_offsets
shift_offsets d offset start [] placed unplaced s h k =
    ap collect_layers (sym (ok_inj h))
    ∙ ap (λ (u : List MeasuredLayer). map (shift d) (collect_layers u)) (ok_inj k)
shift_offsets d offset start (m ∷ ms) placed unplaced s h k =
    let (next, e, h1) = ok_of_bind _ (checked_add_len "packet" "offset" start m.plan.layer_len) h in
    let (rest, e1, h2) = ok_of_bind _ (set_layer_offsets next ms) h1 in
    let (next', f, k1) =
      ok_of_bind _ (checked_add_len "packet" "offset" offset m.plan.layer_len) k in
    let (rest', f1, k2) = ok_of_bind _ (set_layer_offsets next' ms) k1 in
    let n = checked_add_len-ok "packet" "offset" start m.plan.layer_len next e in
    let n' = checked_add_len-ok "packet" "offset" offset m.plan.layer_len next' f in
    ap collect_layers (sym (ok_inj h2))
    ∙ ap
        (λ (o : ℕ).
          record { protocol = m.protocol; offset = o; len = m.plan.layer_len }
          ∷ collect_layers rest)
        s
    ∙ ap
        (λ (ls : List Layer).
          record { protocol = m.protocol; offset = d + offset; len = m.plan.layer_len } ∷ ls)
        (shift_offsets d next' next ms rest rest' (omega arith) e1 f1)
    ∙ ap (λ (u : List MeasuredLayer). map (shift d) (collect_layers u)) (ok_inj k2)

drop-replicate : (n m : ℕ) → drop {A = ℕ} n (replicate m 0) ≡ replicate (m - n) 0
drop-replicate zero m = let e : m - 0 ≡ m = omega arith in rw e refl
drop-replicate (suc n) zero = let e : 0 - suc n ≡ 0 = omega arith in rw e refl
drop-replicate (suc n) (suc m) =
    let e : suc m - suc n ≡ m - n = omega arith in rw e (drop-replicate n m)

-- What the packet of a stack with `l` around `ls` is, next to the packet of `ls`.
pub record Around (c : CraftContext) (l : CraftLayer) (ls : List CraftLayer) (p : Packet)
    : Type 0 where
  pub inner : Packet
  pub built_inner : build_in (l.child_context c) ls ≡ ok inner
  pub header_len : ℕ
  pub behind : drop header_len p.bytes ≡ inner.bytes
  pub table :
      p.layers
      ≡ record { protocol = l.protocol; offset = 0; len = header_len }
        ∷ map (shift header_len) inner.layers

measured_cons :
    (c : CraftContext) (l : CraftLayer) (ls : List CraftLayer) (ms : List MeasuredLayer)
    → measure_layers c (l ∷ ls) ≡ ok ms
    → (m : MeasuredLayer) × (inner : List MeasuredLayer) × (ms ≡ m ∷ inner)
      × (measure_layers (l.child_context c) ls ≡ ok inner)
unfolding measure_layers
measured_cons c l ls ms h =
    let (inner, e, h1) = ok_of_bind _ (measure_layers (l.child_context c) ls) h in
    let (plan, e1, h2) = ok_of_bind _ (l.measure c (child_plan_of inner)) h1 in
    let (u, e2, h3) = ok_of_bind _ (validate_plan l plan (child_plan_of inner)) h2 in
    (_, inner, sym (ok_inj h3), e)

placed_cons :
    (m : MeasuredLayer) (ms placed unplaced : List MeasuredLayer)
    → set_layer_offsets 0 (m ∷ ms) ≡ ok placed
    → set_layer_offsets 0 ms ≡ ok unplaced
    → collect_layers placed
      ≡ record { protocol = m.protocol; offset = 0; len = m.plan.layer_len }
        ∷ map (shift m.plan.layer_len) (collect_layers unplaced)
unfolding set_layer_offsets
placed_cons m ms placed unplaced h k =
    let (next, e, h1) = ok_of_bind _ (checked_add_len "packet" "offset" 0 m.plan.layer_len) h in
    let (rest, e1, h2) = ok_of_bind _ (set_layer_offsets next ms) h1 in
    let n = checked_add_len-ok "packet" "offset" 0 m.plan.layer_len next e in
    ap collect_layers (sym (ok_inj h2))
    ∙ ap
        (λ (ls : List Layer).
          record { protocol = m.protocol; offset = 0; len = m.plan.layer_len } ∷ ls)
        (shift_offsets m.plan.layer_len 0 next ms rest unplaced (omega arith) e1 k)

around :
    (c : CraftContext) (l i : CraftLayer) (ls : List CraftLayer) (m : MeasuredLayer)
    (ms : List MeasuredLayer) (p : Packet)
    → All Lawful (l ∷ i ∷ ls)
    → measure_layers c (l ∷ i ∷ ls) ≡ ok (m ∷ ms)
    → measure_layers (l.child_context c) (i ∷ ls) ≡ ok ms
    → build_in c (l ∷ i ∷ ls) ≡ ok p
    → Around c l (i ∷ ls) p
unfolding Wraps
around c l i ls m ms p k e e' h =
    let b = built c l (i ∷ ls) (m ∷ ms) k e in
    let b' = built (l.child_context c) i ls ms k.1 e' in
    let hm = measure_layers-Measures c (l ∷ i ∷ ls) (m ∷ ms) e in
    let zeros : List ℕ = replicate m.plan.total_len 0 in
    let len = m.plan.layer_len in
    let size : m.plan.total_len - len ≡ total ms =
      omega (arith, (k.0.exact c (child_plan_of ms) m.plan hm.0).0) in
    let child : nest (i ∷ ls) ms (drop len zeros) ≡ ok b'.written =
      ap (nest (i ∷ ls) ms)
        (drop-replicate len m.plan.total_len ∙ ap (λ (n : ℕ). replicate n 0) size)
      ∙ b'.nested in
    let (written, w, wraps) =
      nest-Wraps c l (i ∷ ls) m ms zeros k hm (length-replicate m.plan.total_len 0)
        (b'.written, child) in
    let (inner, n, u, kept) = wraps in
    subst (Around c l (i ∷ ls)) (ok_inj (sym b.packet ∙ h)) (record {
      inner = record { bytes = b'.written; layers = collect_layers b'.placed };
      built_inner = b'.packet;
      header_len = len;
      behind = ap (drop len) (ok_inj (sym b.nested ∙ w)) ∙ kept ∙ ok_inj (sym n ∙ child);
      table =
          placed_cons m ms b.placed b'.placed b.offsets b'.offsets
          ∙ ap
              (λ (q : Protocol).
                record { protocol = q; offset = 0; len = len }
                ∷ map (shift len) (collect_layers b'.placed))
              hm.1;
    })

-- If a stack of two or more lawful layers is built, the stack inside of the outermost layer is
-- built on its own too, in the context that this layer gives; its bytes are those behind the outer
-- layer, and its layer table, moved by the outer layer's length, follows the outer layer in the
-- table.
pub build_in-Around :
    (c : CraftContext) (l i : CraftLayer) (ls : List CraftLayer) (p : Packet)
    → All Lawful (l ∷ i ∷ ls)
    → build_in c (l ∷ i ∷ ls) ≡ ok p
    → Around c l (i ∷ ls) p
build_in-Around c l i ls p k h =
    let (ms, e) = measured c (l ∷ i ∷ ls) p h in
    let (m, inner, q, e') = measured_cons c l (i ∷ ls) ms e in
    around c l i ls m inner p k (e ∙ ap ok q) e' h

-- The outermost layer writes last.
pub record Outermost (c : CraftContext) (l : CraftLayer) (p : Packet) : Type 0 where
  pub child_plan : Option CraftChildPlan
  pub plan : CraftPlan
  pub child : Option CraftChild
  pub before : List ℕ
  pub is_measured : l.measure c child_plan ≡ ok plan
  pub size : length before ≡ plan.total_len
  pub first :
      get_elem? p.layers 0
      ≡ some (record { protocol = l.protocol; offset = 0; len = plan.layer_len })
  pub is_written : l.write c plan child before ≡ ok p.bytes

first_layer :
    (m : MeasuredLayer) (ms placed : List MeasuredLayer)
    → set_layer_offsets 0 (m ∷ ms) ≡ ok placed
    → get_elem? (collect_layers placed) 0
      ≡ some (record { protocol = m.protocol; offset = 0; len = m.plan.layer_len })
unfolding set_layer_offsets
first_layer m ms placed h =
    let (next, e, h1) = ok_of_bind _ (checked_add_len "packet" "offset" 0 m.plan.layer_len) h in
    let (rest, e1, h2) = ok_of_bind _ (set_layer_offsets next ms) h1 in
    ap (λ (p : List MeasuredLayer). get_elem? (collect_layers p) 0) (sym (ok_inj h2))

outermost :
    (c : CraftContext) (l : CraftLayer) (ls : List CraftLayer) (m : MeasuredLayer)
    (ms : List MeasuredLayer) (p : Packet)
    → All Lawful (l ∷ ls)
    → measure_layers c (l ∷ ls) ≡ ok (m ∷ ms)
    → build_in c (l ∷ ls) ≡ ok p
    → Outermost c l p
unfolding Wraps
outermost c l ls m ms p k e h =
    let b = built c l ls (m ∷ ms) k e in
    let hm = measure_layers-Measures c (l ∷ ls) (m ∷ ms) e in
    let zeros : List ℕ = replicate m.plan.total_len 0 in
    let len = m.plan.layer_len in
    let size : length (drop len zeros) ≡ total ms = omega (
      arith,
      length-drop len zeros,
      length-replicate {A = ℕ} m.plan.total_len 0,
      (k.0.exact c (child_plan_of ms) m.plan hm.0).0,
    ) in
    let deep = nest-total (l.child_context c) ls ms (drop len zeros) k.1 hm.4 size in
    let (written, w, wraps) =
      nest-Wraps c l ls m ms zeros k hm (length-replicate m.plan.total_len 0) deep in
    let (inner, n, u, kept) = wraps in
    let u' : l.write c m.plan (child_of m ms) (take len zeros ++ inner) ≡ ok written =
      subst
        (λ (d : CraftContext).
          l.write d m.plan (child_of m ms) (take len zeros ++ inner) ≡ ok written)
        hm.2 u in
    let inner_size =
      length-nest (l.child_context c) ls ms (drop len zeros) inner (All-keeps ls k.1) hm.4 size n in
    subst (Outermost c l) (ok_inj (sym b.packet ∙ h)) (record {
      child_plan = child_plan_of ms;
      plan = m.plan;
      child = child_of m ms;
      before = take len zeros ++ inner;
      is_measured = hm.0;
      size = omega (
        arith,
        length-append (take len zeros) inner,
        length-take len zeros,
        inner_size,
        length-replicate {A = ℕ} m.plan.total_len 0,
        length-drop len zeros,
        hm.3,
      );
      first =
          first_layer m ms b.placed b.offsets
          ∙ ap
              (λ (q : Protocol). some (record { protocol = q; offset = 0; len = m.plan.layer_len }))
              hm.1;
      is_written = u' ∙ sym w ∙ b.nested;
    })

pub build_in-Outermost :
    (c : CraftContext) (l : CraftLayer) (ls : List CraftLayer) (p : Packet)
    → All Lawful (l ∷ ls)
    → build_in c (l ∷ ls) ≡ ok p
    → Outermost c l p
build_in-Outermost c l ls p k h =
    let (ms, e) = measured c (l ∷ ls) p h in
    let (m, inner, q, e') = measured_cons c l ls ms e in
    outermost c l ls m inner p k (e ∙ ap ok q) h
