-- ===== src/Mapping/Alloc.antt =====
-- The allocation tables of tools/maja-mergecap/src/map/flow.rs. A hash map is the list of what was
-- inserted, the last one first. `none` stands for a panic where a result is an `Option`.
pub mod Grow
pub mod Given
pub mod Distinct
pub mod Unique
use Prim.Native.Nat.{max}
use maja.Base.{
  ℕ, zero, suc, ◌+◌, ◌-◌, ◌*◌, ◌%◌, ◌^◌, min, Bool, true, false, ◌&&◌, not, Option, none, some,
  List, [], ◌∷◌, map, length, get_elem?, get_or, set, replicate, if◌then◌else◌, leb, ◌==◌,
}
use maja.Mapping.{IpAddr, Random, Nets}
use maja.Mapping.Hash.{map_rng_salt, derived_rng}
use maja.Mapping.Pool.{Pool, addr_at, choose}
use maja.Mapping.Sequence.{Sequence, new_sequence, next_index}
use maja.Mapping.Session.{AllocId, same_id}

abbrev pub Table : Type 0
Table = List (AllocId × IpAddr)

abbrev pub lookup : AllocId → Table → Option IpAddr
lookup id [] = none
lookup id ((key, target) ∷ rest) =
    let later = lookup id rest in if same_id id key then some target else later

pub record AllocSlot (Rng : Type 0) : Type 0 where
  pub table : Table
  pub sequences : List Sequence
  pub rng : Rng
  pub warned_wrap : List Bool

pub data MapPolicy : Type 0 where
  random sticky unique hash : MapPolicy

module _ (r : Random) where
  -- The walks, one for each pool, drawn one after the other.
  unfoldable pub new_sequences : r.Rng → List ℕ → List Sequence × r.Rng
  new_sequences rng [] = ([], rng)
  new_sequences rng (pool_len ∷ rest) =
      let (first, rng) = new_sequence r rng pool_len in
      let (others, rng) = new_sequences rng rest in (first ∷ others, rng)

  -- `AllocSlot::new`.
  unfoldable pub new_slot : ℕ → ℕ → List ℕ → AllocSlot r.Rng
  unfolding new_sequences
  new_slot seed salt pool_lens =
      let (sequences, rng) = new_sequences (derived_rng r seed salt) pool_lens in
      record {
        table = [];
        sequences = sequences;
        rng = rng;
        warned_wrap = replicate (length pool_lens) false;
      }

module _ (n : Nets) (r : Random) where
  -- `AllocSlot::sticky`.
  unfoldable pub sticky_target :
      AllocSlot r.Rng → AllocId → Pool n.Net → Option IpAddr × AllocSlot r.Rng
  sticky_target slot id pool =
      let (drawn, rng) = choose n r pool slot.rng in
      elim (lookup id slot.table) [
        | some target ↦ (some target, slot)
        | none ↦ elim drawn [
          | none ↦ (none, record slot { rng = rng })
          | some target ↦
              (some target, record slot { rng = rng; table = (id, target) ∷ slot.table })
        ]
      ]

  -- The note that the pool is exhausted, once for each entry.
  unfoldable pub note_wrap : Bool → ℕ → List Bool → List Bool
  note_wrap wrapped entry warned = if wrapped then set warned entry true else warned

  -- A target that was drawn is remembered.
  unfoldable pub remember :
      AllocSlot r.Rng → AllocId → Option IpAddr → Option IpAddr × AllocSlot r.Rng
  remember slot id none = (none, slot)
  remember slot id (some target) = (some target, record slot { table = (id, target) ∷ slot.table })

  -- `AllocSlot::unique`. Without a walk for the entry it panics.
  unfoldable pub unique_target :
      AllocSlot r.Rng → AllocId → Pool n.Net → Option (Option IpAddr × AllocSlot r.Rng)
  unfolding note_wrap remember
  unique_target slot id pool = elim (lookup id slot.table) [
    | some target ↦ some (some target, slot)
    | none ↦ elim (get_elem? slot.sequences id.entry) [
      | none ↦ none
      | some sequence ↦
          let ((index, wrapped), later) = next_index sequence pool.total in
          let slot = record slot {
            sequences = set slot.sequences id.entry later;
            warned_wrap = note_wrap wrapped id.entry slot.warned_wrap;
          } in
          some (remember slot id (addr_at n pool index))
    ]
  ]

pub record Allocation (Rng : Type 0) : Type 0 where
  pub slots : List (AllocSlot Rng)
  pub shared : Bool

pub data MapSharing : Type 0 where
  per_group shared_table : MapSharing

module _ (r : Random) where
  unfoldable pub group_slots : ℕ → List ℕ → ℕ → ℕ → List (AllocSlot r.Rng)
  unfolding new_slot
  group_slots seed pool_lens group zero = []
  group_slots seed pool_lens group (suc count) =
      new_slot r seed ((map_rng_salt + group) % 2 ^ 64 * 2 % 2 ^ 64) pool_lens
      ∷ group_slots seed pool_lens (group + 1) count

  -- `Allocation::new`, of the pools' lengths.
  unfoldable pub new_allocation : List ℕ → ℕ → MapSharing → ℕ → Allocation r.Rng
  unfolding group_slots new_slot
  new_allocation pool_lens seed shared_table groups = record {
    slots = new_slot r seed ((map_rng_salt + 1) % 2 ^ 64) pool_lens ∷ [];
    shared = true;
  }
  new_allocation pool_lens seed per_group groups = record {
    slots = group_slots seed pool_lens 0 (max groups 1);
    shared = false;
  }

-- The index that `Allocation::slot` gives a group.
abbrev pub slot_of : {Rng : Type 0} → Allocation Rng → ℕ → ℕ
slot_of allocation group = if allocation.shared then 0 else min group (length allocation.slots - 1)
