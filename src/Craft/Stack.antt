-- ===== src/Craft/Stack.antt =====
-- `PacketStack::build` of src/packet/craft.rs on lawful layers.
use mathlib.Core.List.{append-nil}
use maja.Base.{
  ℕ, ◌+◌, ◌≤◌, ◌≡◌, refl, sym, ap, ◌∙◌, true, List, [], ◌∷◌, arith, leb, length, replicate,
  length-replicate,
}
use maja.Context.{usize_max}
use maja.Craft.{
  ok, CraftContext, CraftLayer, MeasuredLayer, child_len, child_plan_of, child_of, checked_add_len,
  measure_layers, set_layer_offsets, measure, write_measured, collect_layers, first_total, build_in,
}
use maja.Craft.Measured.{
  Measures, Placed, ok_of_bind, ok_inj, measure_layers-Measures, set_layer_offsets-Placed,
  set_layer_offsets-child,
}
use maja.Craft.Laws.{Lawful, All}
use maja.Craft.Nested.{nest, write_measured-nest}
use maja.Craft.Built.{total, nest-total, All-keeps}

-- An offset inside of the packet does not overflow.
offsets_total :
    (c : CraftContext) (ls : List CraftLayer) (offset : ℕ) (ms : List MeasuredLayer)
    → Measures c ls ms
    → offset + total ms ≤ usize_max
    → (placed : List MeasuredLayer) × (set_layer_offsets offset ms ≡ ok placed)
unfolding set_layer_offsets
offsets_total c [] offset [] h fits = ([], refl)
offsets_total c [] offset (m ∷ ms) h fits = absurd h
offsets_total c (l ∷ ls) offset [] h fits = absurd h
offsets_total c (l ∷ ls) offset (m ∷ ms) h fits =
    let e : leb (offset + m.plan.layer_len) usize_max ≡ true = ground (arith, h.3) in
    let (rest, q) =
      offsets_total (l.child_context c) ls (offset + m.plan.layer_len) ms h.4
        (omega (arith, h.3)) in
    (record m { offset = offset } ∷ rest, rw e (rw q refl))

child_of-placed :
    (m : MeasuredLayer) (offset next : ℕ) (ms placed : List MeasuredLayer)
    → set_layer_offsets next ms ≡ ok placed
    → child_of (record m { offset = offset }) placed ≡ child_of m ms
unfolding set_layer_offsets
child_of-placed m offset next [] placed h =
    ap (child_of (record m { offset = offset })) (sym (ok_inj h))
child_of-placed m offset next (i ∷ ms) placed h =
    let (after, e, h1) = ok_of_bind _ (checked_add_len "packet" "offset" next i.plan.layer_len) h in
    let (rest, e1, h2) = ok_of_bind _ (set_layer_offsets after ms) h1 in
    ap (child_of (record m { offset = offset })) (sym (ok_inj h2))

-- What is written does not depend on the offsets.
nest-offsets :
    (ls : List CraftLayer) (offset : ℕ) (ms placed : List MeasuredLayer) (bytes : List ℕ)
    → set_layer_offsets offset ms ≡ ok placed
    → nest ls placed bytes ≡ nest ls ms bytes
unfolding set_layer_offsets nest
nest-offsets ls offset [] placed bytes h =
    ap (λ (p : List MeasuredLayer). nest ls p bytes) (sym (ok_inj h))
nest-offsets [] offset (m ∷ ms) placed bytes h =
    let (next, e, h1) =
      ok_of_bind _ (checked_add_len "packet" "offset" offset m.plan.layer_len) h in
    let (rest, e1, h2) = ok_of_bind _ (set_layer_offsets next ms) h1 in
    ap (λ (p : List MeasuredLayer). nest [] p bytes) (sym (ok_inj h2))
nest-offsets (l ∷ ls) offset (m ∷ ms) placed bytes h =
    let (next, e, h1) =
      ok_of_bind _ (checked_add_len "packet" "offset" offset m.plan.layer_len) h in
    let (rest, e1, h2) = ok_of_bind _ (set_layer_offsets next ms) h1 in
    ap (λ (p : List MeasuredLayer). nest (l ∷ ls) p bytes) (sym (ok_inj h2))
    ∙ rw (set_layer_offsets-child next ms rest e1, child_of-placed m offset next ms rest e1)
        (rw (nest-offsets ls next ms rest _ e1) refl)

total-fits :
    (c : CraftContext) (ls : List CraftLayer) (ms : List MeasuredLayer)
    → All Lawful ls
    → Measures c ls ms
    → total ms ≤ usize_max
total-fits c [] [] k h = omega arith
total-fits c [] (m ∷ ms) k h = absurd h
total-fits c (l ∷ ls) [] k h = absurd h
total-fits c (l ∷ ls) (m ∷ ms) k h = (k.0.exact c (child_plan_of ms) m.plan h.0).1

first_total-placed :
    (offset : ℕ) (m : MeasuredLayer) (ms placed : List MeasuredLayer)
    → set_layer_offsets offset (m ∷ ms) ≡ ok placed
    → first_total placed ≡ ok m.plan.total_len
unfolding set_layer_offsets
first_total-placed offset m ms placed h =
    let (next, e, h1) =
      ok_of_bind _ (checked_add_len "packet" "offset" offset m.plan.layer_len) h in
    let (rest, e1, h2) = ok_of_bind _ (set_layer_offsets next ms) h1 in
    ap first_total (sym (ok_inj h2))

-- A stack that is built, by its plans and the nested description.
pub record Built (c : CraftContext) (ls : List CraftLayer) (ms : List MeasuredLayer) : Type 0 where
  pub placed : List MeasuredLayer
  pub written : List ℕ
  pub offsets : set_layer_offsets 0 ms ≡ ok placed
  pub nested : nest ls ms (replicate (total ms) 0) ≡ ok written
  pub packet : build_in c ls ≡ ok (record { bytes = written; layers = collect_layers placed })

write_measured_all :
    (c : CraftContext) (ls : List CraftLayer) (ms : List MeasuredLayer) (body written : List ℕ)
    → All Lawful ls
    → Measures c ls ms
    → Placed 0 ms
    → length body ≡ total ms
    → nest ls ms body ≡ ok written
    → write_measured ls ms body ≡ ok written
write_measured_all c ls ms body written k h p n e =
    ap (write_measured ls ms) (sym (append-nil body))
    ∙ write_measured-nest c ls ms 0 [] body [] (All-keeps ls k) h p refl n
        (omega (arith, total-fits c ls ms k h))
    ∙ rw e (ap ok (append-nil written))

pub built :
    (c : CraftContext) (l : CraftLayer) (ls : List CraftLayer) (ms : List MeasuredLayer)
    → All Lawful (l ∷ ls)
    → measure_layers c (l ∷ ls) ≡ ok ms
    → Built c (l ∷ ls) ms
unfolding build_in measure
built c l ls [] k e = absurd (measure_layers-Measures c (l ∷ ls) [] e)
built c l ls (m ∷ ms) k e =
    let h = measure_layers-Measures c (l ∷ ls) (m ∷ ms) e in
    let (placed, q) =
      offsets_total c (l ∷ ls) 0 (m ∷ ms) h (omega (arith, total-fits c (l ∷ ls) (m ∷ ms) k h)) in
    let zeros : List ℕ = replicate m.plan.total_len 0 in
    let (written, w) =
      nest-total c (l ∷ ls) (m ∷ ms) zeros k h (length-replicate m.plan.total_len 0) in
    let (h', p) = set_layer_offsets-Placed c (l ∷ ls) 0 (m ∷ ms) placed h q in
    let same = set_layer_offsets-child 0 (m ∷ ms) placed q in
    let all : write_measured (l ∷ ls) placed zeros ≡ ok written =
      write_measured_all c (l ∷ ls) placed zeros written k h' p
        (length-replicate m.plan.total_len 0 ∙ sym (ap child_len same))
        (nest-offsets (l ∷ ls) 0 (m ∷ ms) placed zeros q ∙ w) in
    record {
      placed = placed;
      written = written;
      offsets = q;
      nested = w;
      packet = rw (e, q) (rw (first_total-placed 0 m ms placed q) (rw all refl));
    }
