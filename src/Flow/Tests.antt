-- ===== src/Flow/Tests.antt =====
-- Both directions of one TCP flow.
use maja.Base.{◌≡◌, refl, ◌⊎◌}
use maja.Flow.{v4, tuple5, Tuple, five, symmetric}
use maja.Flow.Symmetric.{reverse, symmetric-reverse, symmetric_separates}

abbrev flow : Tuple
flow = five (v4 0xC0A80102) (v4 0xC0A80101) 5678 1234 6

ordered : symmetric flow ≡ tuple5 (v4 0xC0A80101) (v4 0xC0A80102) 1234 5678 6
unfolding symmetric
ordered = refl

symmetric-reverse_example : symmetric (reverse flow) ≡ symmetric flow
symmetric-reverse_example = symmetric-reverse flow

symmetric_separates_example : (reverse flow ≡ flow) ⊎ (reverse flow ≡ reverse flow)
symmetric_separates_example = symmetric_separates (reverse flow) flow (symmetric-reverse flow)
