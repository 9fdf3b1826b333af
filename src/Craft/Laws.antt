-- ===== src/Craft/Laws.antt =====
-- What the writing pass of src/packet/craft.rs relies on of a `CraftLayer`: the contract that its
-- doc comments state. The builders of the crate fill it.
use maja.Base.{ℕ, ◌+◌, ◌≤◌, ◌≡◌, ◌≢◌, Option, List, length, drop}
use maja.Context.{usize_max}
use maja.Craft.{
  ok, panic, CraftContext, CraftChildPlan, CraftChild, CraftPlan, CraftLayer, child_len,
}

-- A `&mut [u8]` keeps its length, whatever is written.
pub record KeepsLength (l : CraftLayer) : Type 0 where
  pub length_kept :
      (c : CraftContext) (plan : CraftPlan) (child : Option CraftChild) (bytes written : List ℕ)
      → l.write c plan child bytes ≡ ok written
      → length written ≡ length bytes

-- `measure` decides the lengths without a gap, and `write` fills its own layer in a slice of the
-- measured length, and nothing of the child.
pub record Lawful (l : CraftLayer) : Type 0 where
  pub keeps : KeepsLength l
  pub calm : (c : CraftContext) (child : Option CraftChildPlan) → l.measure c child ≢ panic
  pub exact :
      (c : CraftContext) (child : Option CraftChildPlan) (plan : CraftPlan)
      → l.measure c child ≡ ok plan
      → (plan.total_len ≡ plan.layer_len + child_len child) × (plan.total_len ≤ usize_max)
  pub writes :
      (c : CraftContext) (child : Option CraftChildPlan) (plan : CraftPlan)
      (inner : Option CraftChild) (bytes : List ℕ)
      → l.measure c child ≡ ok plan
      → length bytes ≡ plan.total_len
      → (written : List ℕ) × (l.write c plan inner bytes ≡ ok written)
        × (drop plan.layer_len written ≡ drop plan.layer_len bytes)

abbrev pub All : (CraftLayer → Type 0) → List CraftLayer → Type 0
All P List.[] = Unit
All P (List.◌∷◌ l ls) = P l × All P ls
