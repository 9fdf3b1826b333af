-- ===== src/Mapping/Segment/Overwrite.antt =====
-- Octets that are written over others in a packet, and the fields that they leave.
use mathlib.Core.List.{append-nil}
use maja.Base.{
  ℕ, zero, suc, ◌+◌, ◌-◌, ◌^◌, ◌≤◌, ◌<◌, ◌≡◌, refl, sym, ap, ◌∙◌, ◌⊎◌, inl, inr, true, List, [],
  ◌∷◌, ◌++◌, arith, length, length-append, length-take, length-drop, take, drop, take-append,
  drop-append, drop-drop,
}
use maja.Base.Words.{from_bytes, to_bytes, from_bytes-to_bytes, length-to_bytes}
use maja.Field.{FieldSpec, whole, raw}
use maja.Context.{Layer}
use maja.Layers.{field}
use maja.Validate.Store.{field-take}
use maja.Mapping.Envelope.{bytes_in}
use maja.Mapping.Segment.{overwrite}

take_front :
    {A : Type 0} (start n at : ℕ) (xs ys : List A)
    → start + n ≤ at
    → at ≤ length xs
    → take n (drop start (take at xs ++ ys)) ≡ take n (drop start xs)
take_front zero zero at xs ys h k = refl
take_front zero (suc n) zero xs ys h k = absurd (omega arith)
take_front zero (suc n) (suc at) [] ys h k = absurd (omega arith)
take_front {A = A} zero (suc n) (suc at) (x ∷ xs) ys h k =
    ap (λ (t : List A). x ∷ t) (take_front zero n at xs ys (omega arith) (omega arith))
take_front (suc start) n zero xs ys h k = absurd (omega arith)
take_front (suc start) n (suc at) [] ys h k = absurd (omega arith)
take_front (suc start) n (suc at) (x ∷ xs) ys h k =
    take_front start n at xs ys (omega arith) (omega arith)

pub length-overwrite :
    (at : ℕ) (octets bytes : List ℕ)
    → at + length octets ≤ length bytes
    → length (overwrite at octets bytes) ≡ length bytes
unfolding overwrite
length-overwrite at octets bytes room = omega (
  arith,
  length-append (take at bytes) (octets ++ drop (at + length octets) bytes),
  length-append octets (drop (at + length octets) bytes),
  length-take at bytes,
  length-drop (at + length octets) bytes,
)

-- The octets in front of those, and the octets behind them.
abbrev pub Apart : ℕ → ℕ → ℕ → ℕ → Type 0
Apart start n at len = (start + n ≤ at) ⊎ (at + len ≤ start)

pub take-drop-overwrite :
    (start n at : ℕ) (octets bytes : List ℕ)
    → at + length octets ≤ length bytes
    → Apart start n at (length octets)
    → take n (drop start (overwrite at octets bytes)) ≡ take n (drop start bytes)
unfolding overwrite
take-drop-overwrite start n at octets bytes room (inl front) =
    take_front start n at bytes (octets ++ drop (at + length octets) bytes) front (omega arith)
take-drop-overwrite start n at octets bytes room (inr behind) =
    let rest : List ℕ = drop (at + length octets) bytes in
    let gap : ℕ = start - (at + length octets) in
    ap (take n) (
      sym (drop-drop at (start - at) start (take at bytes ++ (octets ++ rest)) (omega arith))
      ∙ ap (drop (start - at))
          (drop-append at (take at bytes) (octets ++ rest) (omega (arith, length-take at bytes)))
      ∙ sym (drop-drop (length octets) gap (start - at) (octets ++ rest) (omega arith))
      ∙ ap (drop gap) (drop-append (length octets) octets rest refl)
      ∙ drop-drop (at + length octets) gap start bytes (omega arith))

pub field-overwrite :
    (spec : FieldSpec) (start at : ℕ) (octets bytes : List ℕ)
    → at + length octets ≤ length bytes
    → Apart start spec.size at (length octets)
    → field spec start (overwrite at octets bytes) ≡ field spec start bytes
unfolding field
field-overwrite spec start at octets bytes room apart =
    let e : start + spec.size - start ≡ spec.size = omega arith in
    ap (raw spec true) (rw e (take-drop-overwrite start spec.size at octets bytes room apart))

-- A number reads back.
pub field-overwrite_same :
    (size at value : ℕ) (bytes : List ℕ)
    → at + size ≤ length bytes
    → value < 256 ^ size
    → field (whole size) at (overwrite at (to_bytes true size value) bytes) ≡ value
unfolding field overwrite raw from_bytes
field-overwrite_same size at value bytes room small =
    let octets : List ℕ = to_bytes true size value in
    let rest : List ℕ = drop (at + length octets) bytes in
    let e : at + size - at ≡ size = omega arith in
    let whole_value : take size octets ≡ octets =
      ap (take size) (sym (append-nil octets))
      ∙ take-append size octets [] (length-to_bytes true size value) in
    rw (drop-append at (take at bytes) (octets ++ rest) (omega (arith, length-take at bytes)), e)
      (rw (take-append size octets rest (length-to_bytes true size value), whole_value)
        (from_bytes-to_bytes true size value small))

-- A field of a layer, in the packet.
pub field-bytes_in :
    (spec : FieldSpec) (start : ℕ) (bytes : List ℕ) (l : Layer)
    → start + spec.size ≤ l.len
    → field spec start (bytes_in bytes l) ≡ field spec (l.offset + start) bytes
unfolding field
field-bytes_in spec start bytes l h =
    let e : start + spec.size - start ≡ spec.size = omega arith in
    let f : l.offset + start + spec.size - (l.offset + start) ≡ spec.size = omega arith in
    field-take spec start (l.offset + l.len - l.offset) (drop l.offset bytes) (omega arith)
    ∙ ap (raw spec true)
        (rw (e, f) (ap (take spec.size) (drop-drop l.offset start (l.offset + start) bytes refl)))
