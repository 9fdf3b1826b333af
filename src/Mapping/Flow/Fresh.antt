-- ===== src/Mapping/Flow/Fresh.antt =====
-- `FlowState::new` of tools/maja-mergecap/src/map/flow.rs, which makes every table that its map needs.
use Prim.Native.Nat.{max}
use maja.Base.{
  ℕ, zero, suc, ◌+◌, ◌-◌, ◌*◌, ◌%◌, ◌≤◌, ◌^◌, ◌≡◌, ◌∙◌, sym, refl, ap, min, Option, none, some,
  List, [], ◌∷◌, length, get_elem?, get_elem?-some, arith, if◌then◌else◌, false,
}
use maja.Mapping.{Random, Nets}
use maja.Mapping.Alloc.{
  AllocSlot, Allocation, slot_of, MapSharing, per_group, shared_table, new_sequences, new_slot,
  group_slots, new_allocation,
}
use maja.Mapping.Hash.{map_rng_salt, derived_rng}
use maja.Mapping.Entry.{CompiledEntry, pool_len}
use maja.Mapping.Flow.{FlowCfg, FlowState, GroupState, needs_table}
use maja.Mapping.Flow.Returns.{Prepared}

module _ (n : Nets) (r : Random) where
  new_groups : ℕ → ℕ → ℕ → List (GroupState r.Rng)
  new_groups seed group zero = []
  new_groups seed group (suc count) =
      record { rng = derived_rng r seed ((map_rng_salt + group) % 2 ^ 64); fragments = [] }
      ∷ new_groups seed (group + 1) count

  abbrev pool_lens : List (CompiledEntry n.Net) → List ℕ
  pool_lens [] = []
  pool_lens (entry ∷ rest) = pool_len n entry.action ∷ pool_lens rest

  -- `FlowState::new`, which makes its own allocation unless it is given one.
  unfoldable pub new_flow :
      FlowCfg n.Net → ℕ → ℕ → ℕ → MapSharing → Option (Allocation r.Rng) → FlowState n.Net r.Rng
  unfolding new_groups
  new_flow cfg hash_seed file_seed groups sharing given = record {
    cfg = cfg;
    hash_seed = hash_seed;
    groups = new_groups file_seed 0 (max groups 1);
    allocation = elim given [
      | some shared ↦ some shared
      | none ↦
          if needs_table n cfg.entries
          then some (new_allocation r (pool_lens cfg.entries) file_seed sharing (max groups 1))
          else none
    ];
    warned_unmatched = false;
  }

module _ (r : Random) where
  length-new_sequences :
      (lens : List ℕ) (rng : r.Rng) → length (new_sequences r rng lens).0 ≡ length lens
  unfolding new_sequences
  length-new_sequences [] rng = refl
  length-new_sequences (first ∷ rest) rng = ap suc (length-new_sequences rest _)

  -- Slots with a walk for each pool.
  Walks : List ℕ → List (AllocSlot r.Rng) → Type 0
  Walks lens slots =
      (i : ℕ) (slot : AllocSlot r.Rng)
      → get_elem? slots i ≡ some slot
      → length slot.sequences ≡ length lens

  group_slots-Walks :
      (seed : ℕ) (lens : List ℕ) (group count : ℕ)
      → Walks lens (group_slots r seed lens group count)
  unfolding Walks group_slots new_slot
  group_slots-Walks seed lens group zero i slot h = absurd (cc)
  group_slots-Walks seed lens group (suc count) zero slot h =
      let own = new_slot r seed ((map_rng_salt + group) % 2 ^ 64 * 2 % 2 ^ 64) lens in
      let same : own ≡ slot =
        ap (λ (o : Option (AllocSlot r.Rng)). elim o [ none ↦ own | some s ↦ s ]) h in
      ap (λ s. length s.sequences) (sym same) ∙ length-new_sequences lens _
  group_slots-Walks seed lens group (suc count) (suc i) slot h =
      group_slots-Walks seed lens (group + 1) count i slot h

  length-group_slots :
      (seed : ℕ) (lens : List ℕ) (group count : ℕ)
      → length (group_slots r seed lens group count) ≡ count
  unfolding group_slots
  length-group_slots seed lens group zero = refl
  length-group_slots seed lens group (suc count) =
      ap suc (length-group_slots seed lens (group + 1) count)

module _ (n : Nets) (r : Random) where
  length-pool_lens :
      (entries : List (CompiledEntry n.Net)) → length (pool_lens n r entries) ≡ length entries
  length-pool_lens [] = refl
  length-pool_lens (entry ∷ rest) = ap suc (length-pool_lens rest)

  -- The slot of a group in a new allocation.
  Slotted : List ℕ → Allocation r.Rng → ℕ → Type 0
  Slotted lens allocation group =
      (slot : AllocSlot r.Rng) × (get_elem? allocation.slots (slot_of allocation group) ≡ some slot)
      × (length slot.sequences ≡ length lens)

  new_allocation-Slotted :
      (lens : List ℕ) (seed : ℕ) (sharing : MapSharing) (groups group : ℕ)
      → Slotted lens (new_allocation r lens seed sharing groups) group
  unfolding Slotted new_allocation new_slot Walks
  new_allocation-Slotted lens seed shared_table groups group =
      (_, refl, length-new_sequences r lens _)
  new_allocation-Slotted lens seed per_group groups group =
      let slots = group_slots r seed lens 0 (max groups 1) in
      let place = min group (length slots - 1) in
      let (slot, at) =
        get_elem?-some slots place
          (omega (arith, length-group_slots r seed lens 0 (max groups 1))) in
      (slot, at, group_slots-Walks r seed lens 0 (max groups 1) place slot at)

  pub new_flow-Prepared :
      (cfg : FlowCfg n.Net) (hash_seed file_seed groups group : ℕ) (sharing : MapSharing)
      → length cfg.entries ≤ 2 ^ 32
      → Prepared n r group (new_flow n r cfg hash_seed file_seed groups sharing none)
  unfolding new_flow Slotted
  new_flow-Prepared cfg hash_seed file_seed groups group sharing narrow =
      let lens = pool_lens n r cfg.entries in
      let made = new_allocation r lens file_seed sharing (max groups 1) in
      let (slot, at, walks) = new_allocation-Slotted lens file_seed sharing (max groups 1) group in
      record {
        table = λ needs. record {
          allocation = made;
          here = rw needs refl;
          slot = slot;
          at = at;
          walks_of = walks ∙ length-pool_lens cfg.entries;
        };
        narrow = narrow;
      }
