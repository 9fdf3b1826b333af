-- ===== src/Mapping/Sequence.antt =====
-- `Sequence` of tools/maja-mergecap/src/map/flow.rs: a walk through the indices of a pool.
mod Divides
mod Pigeons
pub mod Walk
use mathlib.Core.WellFounded.{Acc}
use maja.Base.{
  ℕ, zero, suc, ◌+◌, ◌-◌, ◌*◌, ◌%◌, ◌^◌, ◌<◌, Bool, true, false, ◌&&◌, not, Option, none, some,
  arith, ltb, leb, ◌==◌, if◌then◌else◌,
}
use maja.Base.Order.{lt_wf}
use maja.Mapping.{Random}

unfoldable pub gcd_loop : (a b : ℕ) → Acc ◌<◌ b → ℕ
gcd_loop a zero _ = a
gcd_loop a (suc b) (Acc.intro _ below) =
    gcd_loop (suc b) (a % suc b) (below (a % suc b) (omega arith))

unfoldable pub gcd : ℕ → ℕ → ℕ
unfolding gcd_loop lt_wf
gcd a b = gcd_loop a b (lt_wf.apply b)

pub record Sequence : Type 0 where
  pub start : ℕ
  pub step : ℕ
  pub drawn : ℕ

abbrev pub u64_max : ℕ
u64_max = 2 ^ 64 - 1

abbrev pub u128_max : ℕ
u128_max = 2 ^ 128 - 1

-- A step that is coprime with the pool.
abbrev is_step : ℕ → ℕ → Bool
is_step pool_len step = not (step == 0) && gcd step pool_len == 1

-- The first step from `offset + i` on, of `count` candidates.
unfoldable pub find_step : ℕ → ℕ → ℕ → ℕ → ℕ
find_step pool_len offset i zero = 1
find_step pool_len offset i (suc count) =
    let later = find_step pool_len offset (i + 1) count in
    let step = (offset + i) % pool_len in if is_step pool_len step then step else later

module _ (r : Random) where
  -- `Sequence::new`, which draws from the generator.
  unfoldable pub new_sequence : r.Rng → ℕ → Sequence × r.Rng
  unfolding find_step
  new_sequence rng pool_len =
      if leb pool_len 1
      then (record { start = 0; step = 1; drawn = 0 }, rng)
      else if ltb u64_max pool_len
      then (let (start, after) = r.random_range 0 pool_len rng in
          (record { start = start; step = 1; drawn = 0 }, after))
      else (let (offset, middle) = r.random_range 1 pool_len rng in
          let step = find_step pool_len offset 1 (pool_len - 1) in
          let (start, after) = r.random_range 0 pool_len middle in
          (record { start = start; step = step; drawn = 0 }, after))

-- `Sequence::next_index`: the index, whether the walk has wrapped around, and the walk after it.
unfoldable pub next_index : Sequence → ℕ → (ℕ × Bool) × Sequence
next_index s pool_len =
    let drawn = s.drawn % pool_len in
    let index = (s.start + drawn * s.step) % 2 ^ 128 % pool_len in
    ((index, leb pool_len s.drawn), record s { drawn = (s.drawn + 1) % 2 ^ 128 })
