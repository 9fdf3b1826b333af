-- ===== src/Packet/Lookup.antt =====
-- The lookup of layers by protocol and index.
use mathlib.Core.List.{reverse, reverse-cons}
use mathlib.Core.Option
use mathlib.Core.Option.{some-injective}
use maja.Base.{
  le→leb, ℕ, zero, suc, ◌+◌, ◌-◌, ◌≤◌, ◌<◌, ◌≡◌, ◌≢◌, refl, sym, ap, ◌∙◌, true, Bool-cases, inl,
  inr, Option, none, some, List, [], ◌∷◌, ◌++◌, arith, dec_lt, length, length-reverse, get_elem?,
}
use maja.Protocol.{Protocol, is}
use maja.Context.{Layer, ParseOptions, slice}
use maja.Context.Outcome.{Ordered, WithinDepth}
use maja.Parse.{Custom}
use maja.Parse.Total.{WellBehaved}
use maja.Packet.{
  Packet, ℤ, pos, negsuc, fresh, matching, nth_layer, nth_layer_bytes, bytes_of, try_parse,
}
use maja.Packet.Parsed.{Parsed, try_parse-Parsed}

get_elem?-append_left :
    {A : Type 0} (xs ys : List A) (i : ℕ) → i < length xs → get_elem? (xs ++ ys) i ≡ get_elem? xs i
get_elem?-append_left [] ys i h = absurd (omega arith)
get_elem?-append_left (x ∷ xs) ys zero h = refl
get_elem?-append_left (x ∷ xs) ys (suc i) h = get_elem?-append_left xs ys i (omega arith)

get_elem?-append_right :
    {A : Type 0} (xs ys : List A) (i : ℕ)
    → length xs ≤ i
    → get_elem? (xs ++ ys) i ≡ get_elem? ys (i - length xs)
get_elem?-append_right [] ys i h = ap (get_elem? ys) (omega arith)
get_elem?-append_right (x ∷ xs) ys zero h = absurd (omega arith)
get_elem?-append_right (x ∷ xs) ys (suc i) h =
    get_elem?-append_right xs ys i (omega arith) ∙ ap (get_elem? ys) (omega arith)

get_elem?-reverse :
    {A : Type 0} (xs : List A) (i : ℕ)
    → i < length xs
    → get_elem? (reverse xs) i ≡ get_elem? xs (length xs - 1 - i)
get_elem?-reverse [] i h = absurd (omega arith)
get_elem?-reverse (x ∷ xs) i h = rw (reverse-cons x xs) (elim (dec_lt i (length xs)) [
  | yes inside ↦
      let e : suc (length xs - 1 - i) ≡ suc (length xs) - 1 - i = omega arith in
      get_elem?-append_left (reverse xs) (x ∷ []) i (omega (arith, length-reverse xs))
      ∙ get_elem?-reverse xs i inside
      ∙ ap (get_elem? (x ∷ xs)) e
  | no outside ↦
      let e : i - length (reverse xs) ≡ 0 = omega (arith, length-reverse xs) in
      let f : 0 ≡ suc (length xs) - 1 - i = omega arith in
      get_elem?-append_right (reverse xs) (x ∷ []) i (omega (arith, length-reverse xs))
      ∙ ap (get_elem? (x ∷ [])) e
      ∙ ap (get_elem? (x ∷ xs)) f
])

-- If a packet has n layers of a protocol, the one at the index i below n, from the innermost
-- layer, is the one at the index i - n, from the outermost layer.
nth_layer_duality :
    (packet : Packet) (p : Protocol) (i : ℕ)
    → i < length (matching p packet.layers)
    → nth_layer packet p (pos i)
      ≡ nth_layer packet p (negsuc (length (matching p packet.layers) - 1 - i))
unfolding nth_layer
nth_layer_duality packet p i h = get_elem?-reverse (matching p packet.layers) i h

-- A layer of the protocol, in the list.
abbrev Found : Protocol → List Layer → Layer → Type 0
Found p ls l = (is l.protocol p ≡ true) × (j : ℕ) × (get_elem? ls j ≡ some l)

Found-later :
    (p : Protocol) (m : Layer) (ls : List Layer) (l : Layer) → Found p ls l → Found p (m ∷ ls) l
Found-later p m ls l f = (f.0, suc f.1, f.2)

matching-Found :
    (p : Protocol) (ls : List Layer) (i : ℕ) (l : Layer)
    → get_elem? (matching p ls) i ≡ some l
    → Found p ls l
matching-Found p [] i l h = absurd (ground arith)
matching-Found p (m ∷ ls) i l h = elim (Bool-cases (is m.protocol p)) [
  | inr no_match ↦ Found-later p m ls l (matching-Found p ls i l (rw no_match at h))
  | inl match ↦
      first match i (rw match at h) (λ k q. Found-later p m ls l (matching-Found p ls k l q))
]
  where
    first :
        is m.protocol p ≡ true
        → (k : ℕ) → get_elem? (m ∷ matching p ls) k ≡ some l
        → ((k' : ℕ) → get_elem? (matching p ls) k' ≡ some l → Found p (m ∷ ls) l)
        → Found p (m ∷ ls) l
    first match zero q rest = (rw⁻¹ (some-injective m l q) match, 0, q)
    first match (suc k) q rest = rest k q

get_elem?-some :
    {A : Type 0} (xs : List A) (i : ℕ) (x : A) → get_elem? xs i ≡ some x → i < length xs
get_elem?-some [] i x h = absurd (ground arith)
get_elem?-some (y ∷ ys) zero x h = omega arith
get_elem?-some (y ∷ ys) (suc i) x h = omega (arith, get_elem?-some ys i x h)

-- A lookup that succeeds gives a layer of the packet, and one of the protocol that was asked for.
pub nth_layer-Found :
    (packet : Packet) (p : Protocol) (index : ℤ) (l : Layer)
    → nth_layer packet p index ≡ some l
    → Found p packet.layers l
unfolding nth_layer
nth_layer-Found packet p (negsuc i) l h = matching-Found p packet.layers i l h
nth_layer-Found packet p (pos i) l h =
    let found = matching p packet.layers in
    let inside = get_elem?-some (reverse found) i l h in
    matching-Found p packet.layers (length found - 1 - i) l
      (sym (get_elem?-reverse found i (omega (arith, length-reverse found))) ∙ h)

Ordered-bounds :
    (start stop : ℕ) (ls : List Layer) (j : ℕ) (l : Layer)
    → Ordered start stop ls
    → get_elem? ls j ≡ some l
    → l.offset + l.len ≤ stop
Ordered-bounds start stop [] j l o h = absurd (ground arith)
Ordered-bounds start stop (m ∷ ls) zero l o h = rw⁻¹ (some-injective m l h) o.2
Ordered-bounds start stop (m ∷ ls) (suc j) l o h =
    Ordered-bounds (m.offset + m.len) stop ls j l o.3 h

WithinDepth-nil : (depth : Option ℕ) → WithinDepth depth []
WithinDepth-nil none = tt
WithinDepth-nil (some d) = omega arith

bytes_of-some :
    (l : Layer) (bytes : List ℕ)
    → l.offset + l.len ≤ length bytes
    → bytes_of l bytes ≡ some (slice bytes l.offset (l.offset + l.len))
bytes_of-some l bytes h =
    rw
      (le→leb l.offset (l.offset + l.len) (omega arith), le→leb (l.offset + l.len) (length bytes) h)
      refl

some-none : {A : Type 0} {x : A} → some x ≢ none
some-none e = cc

-- After a fresh packet is parsed, with well-behaved custom parsers, looking up the bytes of a
-- layer never slices out of bounds, for any bytes, options, root, protocol and index.
pub nth_layer_bytes-try_parse :
    (custom : Custom)
    → WellBehaved custom
    → (options : ParseOptions) (bytes : List ℕ) (root p : Protocol) (index : ℤ)
    → nth_layer_bytes (try_parse custom options (fresh bytes) root).1 p index ≢ some none
unfolding nth_layer_bytes
nth_layer_bytes-try_parse custom good options bytes root p index =
    go (nth_layer after p index) (nth_layer-Found after p index)
  where
    after : Packet
    after = (try_parse custom options (fresh bytes) root).1

    parsed : Parsed options (fresh bytes) (try_parse custom options (fresh bytes) root)
    parsed =
        try_parse-Parsed custom good options (fresh bytes) root (WithinDepth-nil options.max_depth)

    go :
        (found : Option Layer)
        → ((l : Layer) → found ≡ some l → Found p after.layers l)
        → Option.map (λ l. bytes_of l after.bytes) found ≢ some none
    go none located e = cc
    go (some l) located e =
        let f = located l refl in
        let bounds =
          Ordered-bounds 0 (length bytes) parsed.added f.1 l parsed.ordered
            (rw parsed.layers_grow at f.2) in
        absurd (
          some-none (
            sym (bytes_of-some l bytes bounds)
            ∙ ap (bytes_of l) (sym parsed.bytes_kept)
            ∙ some-injective _ _ e))
