-- ===== src/Craft/Nested.antt =====
-- The writing pass of src/packet/craft.rs, which works on offsets into one buffer, against a
-- description in which every layer has a buffer of its own and that of its child inside of it.
use mathlib.Core.List.{append_assoc}
use maja.Base.{
  ℕ, ◌+◌, ◌-◌, ◌≤◌, ◌≡◌, refl, sym, ap, ◌∙◌, true, ◌&&◌, List, [], ◌∷◌, ◌++◌, arith, leb, length,
  take, drop, length-append, length-take, length-drop, take-append, drop-append, take-append-drop,
  drop-drop,
}
use maja.Context.{usize_max, slice}
use maja.Craft.{
  Result, ok, err, panic, ◌>>=◌, CraftContext, CraftLayer, MeasuredLayer, child_len,
  checked_add_len, child_plan_of, child_of, on_slice, write_measured,
}
use maja.Craft.Measured.{Measures, Placed, ok_of_bind, ok_inj}
use maja.Craft.Laws.{KeepsLength, All}

-- Each layer is written around the bytes of the stack inside of it.
unfoldable pub nest : List CraftLayer → List MeasuredLayer → List ℕ → Result (List ℕ)
nest layers [] bytes = ok bytes
nest [] (m ∷ ms) bytes = panic
nest (l ∷ ls) (m ∷ ms) bytes =
    let stop = m.plan.layer_len + child_len (child_plan_of ms) in
    nest ls ms (slice bytes m.plan.layer_len stop) >>= λ inner.
    l.write m.context m.plan (child_of m ms)
      (take m.plan.layer_len bytes ++ (inner ++ drop stop bytes))

on_slice-middle :
    (start stop : ℕ) (f : List ℕ → Result (List ℕ)) (pre middle post : List ℕ)
    → length pre ≡ start
    → start + length middle ≡ stop
    → on_slice start stop f (pre ++ (middle ++ post))
      ≡ (f middle >>= λ written. ok (pre ++ (written ++ post)))
unfolding on_slice
on_slice-middle start stop f pre middle post h k =
    let inside : (leb start stop && leb stop (length (pre ++ (middle ++ post)))) ≡ true =
      ground (arith, length-append pre (middle ++ post), length-append middle post) in
    let n : stop - start ≡ length middle = omega arith in
    let behind : drop stop (pre ++ (middle ++ post)) ≡ post =
      ap (drop stop) (sym (append_assoc pre middle post))
      ∙ drop-append stop (pre ++ middle) post (omega (arith, length-append pre middle)) in
    rw (inside, n, drop-append start pre (middle ++ post) h)
      (rw
        (
          take-append (length middle) middle post refl,
          take-append start pre (middle ++ post) h,
          behind,
        )
        refl)

split_three :
    (start stop : ℕ) (bytes : List ℕ)
    → start ≤ stop
    → stop ≤ length bytes
    → take start bytes ++ (slice bytes start stop ++ drop stop bytes) ≡ bytes
split_three start stop bytes h k =
    let e : drop (stop - start) (drop start bytes) ≡ drop stop bytes =
      drop-drop start (stop - start) stop bytes (omega arith) in
    rw (← e)
      (rw (take-append-drop (stop - start) (drop start bytes)) (take-append-drop start bytes))

length-slice :
    (start stop : ℕ) (bytes : List ℕ)
    → start ≤ stop
    → stop ≤ length bytes
    → length (slice bytes start stop) ≡ stop - start
length-slice start stop bytes h k =
    omega (arith, length-take (stop - start) (drop start bytes), length-drop start bytes)

-- The buffer of a layer, made of its own part, that of the child and the rest.
length-around :
    (start stop : ℕ) (bytes inner : List ℕ)
    → start ≤ stop
    → stop ≤ length bytes
    → length inner ≡ stop - start
    → length (take start bytes ++ (inner ++ drop stop bytes)) ≡ length bytes
length-around start stop bytes inner h k e = omega (
  arith,
  length-append (take start bytes) (inner ++ drop stop bytes),
  length-append inner (drop stop bytes),
  length-take start bytes,
  length-drop stop bytes,
)

pub length-nest :
    (c : CraftContext) (ls : List CraftLayer) (ms : List MeasuredLayer) (bytes written : List ℕ)
    → All KeepsLength ls
    → Measures c ls ms
    → length bytes ≡ child_len (child_plan_of ms)
    → nest ls ms bytes ≡ ok written
    → length written ≡ length bytes
unfolding nest
length-nest c [] [] bytes written k h n e = ap length (sym (ok_inj e))
length-nest c [] (m ∷ ms) bytes written k h n e = absurd h
length-nest c (l ∷ ls) [] bytes written k h n e = absurd h
length-nest c (l ∷ ls) (m ∷ ms) bytes written k h n e =
    let start = m.plan.layer_len in
    let stop = m.plan.layer_len + child_len (child_plan_of ms) in
    let (inner, e1, e2) = ok_of_bind _ (nest ls ms (slice bytes start stop)) e in
    let size = length-slice start stop bytes (omega arith) (omega (arith, h.3)) in
    let same =
      length-nest (l.child_context c) ls ms (slice bytes start stop) inner k.1 h.4
        (omega (arith, size)) e1 in
    k.0.length_kept m.context m.plan (child_of m ms) _ written e2
    ∙ length-around start stop bytes inner (omega arith) (omega (arith, h.3))
        (omega (arith, size, same))

module _ (l : CraftLayer) (m : MeasuredLayer) (ms : List MeasuredLayer) where
  -- The outer layer writes over its own part, after the inner ones.
  abbrev outer : ℕ → List ℕ → Result (List ℕ)
  outer offset inner = checked_add_len l.name "total_len" offset m.plan.total_len >>= λ stop.
      on_slice offset stop (l.write m.context m.plan (child_of m ms)) inner

  outer-middle :
      (offset : ℕ) (pre middle post : List ℕ)
      → length pre ≡ offset
      → length middle ≡ m.plan.total_len
      → offset + m.plan.total_len ≤ usize_max
      → outer offset (pre ++ (middle ++ post)) ≡ (
          l.write m.context m.plan (child_of m ms) middle >>= λ written.
          ok (pre ++ (written ++ post)))
  outer-middle offset pre middle post h k fits =
      let e : leb (offset + m.plan.total_len) usize_max ≡ true = ground arith in
      rw e (
        on_slice-middle offset (offset + m.plan.total_len)
          (l.write m.context m.plan (child_of m ms)) pre middle post h (omega arith))

  -- The same, with what the inner layers have written.
  outer-around :
      (offset start stop : ℕ) (pre body post : List ℕ) (r : Result (List ℕ))
      → ((inner : List ℕ) → r ≡ ok inner → length inner ≡ stop - start)
      → start ≤ stop
      → stop ≤ length body
      → length pre ≡ offset
      → length body ≡ m.plan.total_len
      → offset + m.plan.total_len ≤ usize_max
      → ((r >>= λ inner. ok ((pre ++ take start body) ++ (inner ++ (drop stop body ++ post))))
          >>= λ inner. outer offset inner)
        ≡ ((r >>= λ inner.
              l.write m.context m.plan
                (child_of m ms)
                (take start body ++ (inner ++ drop stop body)))
            >>= λ written. ok (pre ++ (written ++ post)))
  outer-around offset start stop pre body post (err e) size h k p n fits = refl
  outer-around offset start stop pre body post panic size h k p n fits = refl
  outer-around offset start stop pre body post (ok inner) size h k p n fits =
      ap (outer offset) (
        append_assoc pre (take start body) (inner ++ (drop stop body ++ post))
        ∙ ap (λ (b : List ℕ). pre ++ b)
            (ap (λ (b : List ℕ). take start body ++ b)
                (sym (append_assoc inner (drop stop body) post))
              ∙ sym (append_assoc (take start body) (inner ++ drop stop body) post)))
      ∙ outer-middle offset pre (take start body ++ (inner ++ drop stop body)) post p
          (length-around start stop body inner h k (size inner refl) ∙ n) fits

regroup :
    (start stop : ℕ) (pre body post : List ℕ)
    → start ≤ stop
    → stop ≤ length body
    → pre ++ (body ++ post)
      ≡ (pre ++ take start body) ++ (slice body start stop ++ (drop stop body ++ post))
regroup start stop pre body post h k =
    ap (λ (b : List ℕ). pre ++ (b ++ post)) (sym (split_three start stop body h k))
    ∙ ap (λ (b : List ℕ). pre ++ b)
        (append_assoc (take start body) (slice body start stop ++ drop stop body) post
          ∙ ap (λ (b : List ℕ). take start body ++ b)
              (append_assoc (slice body start stop) (drop stop body) post))
    ∙ sym (append_assoc pre (take start body) (slice body start stop ++ (drop stop body ++ post)))

-- The writing pass, which works on absolute offsets into one buffer, does to a region of the
-- buffer what the nested description does to a buffer of the region's length, in which every layer
-- is written around the bytes of the stack inside of it, and leaves what is around the region: for
-- layers that keep the length of their slice, plans that contain their children, and a region that
-- is addressable.
pub write_measured-nest :
    (c : CraftContext) (ls : List CraftLayer) (ms : List MeasuredLayer) (offset : ℕ)
    (pre body post : List ℕ)
    → All KeepsLength ls
    → Measures c ls ms
    → Placed offset ms
    → length pre ≡ offset
    → length body ≡ child_len (child_plan_of ms)
    → offset + length body ≤ usize_max
    → write_measured ls ms (pre ++ (body ++ post))
      ≡ (nest ls ms body >>= λ written. ok (pre ++ (written ++ post)))
unfolding write_measured nest
write_measured-nest c [] [] offset pre body post k h p e n fits = refl
write_measured-nest c [] (m ∷ ms) offset pre body post k h p e n fits = absurd h
write_measured-nest c (l ∷ ls) [] offset pre body post k h p e n fits = absurd h
write_measured-nest c (l ∷ ls) (m ∷ ms) offset pre body post k h p e n fits =
    let start : ℕ = m.plan.layer_len in
    let stop : ℕ = m.plan.layer_len + child_len (child_plan_of ms) in
    let room : stop ≤ length body = omega (arith, h.3) in
    let size : length (slice body start stop) ≡ stop - start =
      length-slice start stop body (omega arith) room in
    rw p.0 (
      ap (λ (b : List ℕ). write_measured ls ms b >>= outer l m ms offset)
        (regroup start stop pre body post (omega arith) room)
      ∙ ap (λ (r : Result (List ℕ)). r >>= outer l m ms offset)
          (write_measured-nest (l.child_context c) ls ms (offset + start) (pre ++ take start body)
            (slice body start stop) (drop stop body ++ post) k.1 h.4 p.1
            (omega (arith, length-append pre (take start body), length-take start body))
            (omega (arith, size)) (omega (arith, size)))
      ∙ outer-around l m ms offset start stop pre body post (nest ls ms (slice body start stop))
          (λ inner q.
            length-nest (l.child_context c) ls ms (slice body start stop) inner k.1 h.4
              (omega (arith, size)) q
            ∙ size)
          (omega arith) room e n (omega arith))
