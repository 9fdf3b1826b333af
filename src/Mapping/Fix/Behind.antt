-- ===== src/Mapping/Fix/Behind.antt =====
-- A packet in which a checksum is stored behind the outermost header: tools/maja-mergecap/src/map.rs.
use maja.Base.{ℕ, ◌+◌, ◌-◌, ◌≤◌, ◌≡◌, ap, ◌∙◌, ◌⊎◌, inl, inr, List, arith, length}
use maja.Context.{Layer}
use maja.Validate.{store}
use maja.Validate.Store.{length-store, take-drop-store}
use maja.Mapping.Envelope.{bytes_in}

-- Nothing is written, or two octets at `stop` or behind it.
abbrev pub Behind : ℕ → List ℕ → List ℕ → Type 0
Behind stop before after =
    (after ≡ before)
    ⊎ ((at : ℕ) × (value : ℕ) × (stop ≤ at)
        × (at + 2 ≤ length before)
        × (after ≡ store at value before))

module _ (stop : ℕ) (before after : List ℕ) where
  pub length-Behind : Behind stop before after → length after ≡ length before
  length-Behind (inl e) = ap length e
  length-Behind (inr (at, value, behind, room, e)) = ap length e ∙ length-store at value before room

  -- A layer in front of it keeps its bytes.
  pub bytes_in-Behind :
      (l : Layer)
      → l.offset + l.len ≤ stop
      → Behind stop before after
      → bytes_in after l ≡ bytes_in before l
  bytes_in-Behind l h (inl e) = ap (λ (bytes : List ℕ). bytes_in bytes l) e
  bytes_in-Behind l h (inr (at, value, behind, room, e)) =
      ap (λ (bytes : List ℕ). bytes_in bytes l) e
      ∙ take-drop-store at l.offset (l.offset + l.len - l.offset) value before (omega arith)
          (omega arith)
