-- ===== src/Mapping/Flow/Drawn.antt =====
-- A draw from an allocation table of tools/maja-mergecap/src/map/flow.rs does not panic, and keeps the
-- walks.
use maja.Base.{
  ℕ, ◌<◌, ◌≡◌, refl, ap, inl, inr, Option, some, length, get_elem?-some, length-set, Option-cases,
}
use maja.Mapping.{IpAddr, Random, Nets}
use maja.Mapping.Pool.{Pool, addr_at, choose}
use maja.Mapping.Alloc.{
  lookup, AllocSlot, MapPolicy, sticky, unique, random, hash, sticky_target, unique_target,
  remember,
}
use maja.Mapping.Sequence.{next_index}
use maja.Mapping.Session.{AllocId}
use maja.Mapping.Flow.{draw_slot}

module _ (n : Nets) (r : Random) where
  -- A slot with as many walks as there are entries, behind a draw.
  unfoldable pub Drawn : ℕ → Option (Option IpAddr × AllocSlot r.Rng) → Type 0
  Drawn walks result =
      (drawn : Option IpAddr × AllocSlot r.Rng) × (result ≡ some drawn)
      × (length drawn.1.sequences ≡ walks)

  sticky_target-walks :
      (slot : AllocSlot r.Rng) (id : AllocId) (addrs : Pool n.Net)
      → (sticky_target n r slot id addrs).1.sequences ≡ slot.sequences
  unfolding sticky_target
  sticky_target-walks slot id addrs = elim (Option-cases (lookup id slot.table)) [
    | inr (target, known) ↦ rw (known, sticky_target) refl
    | inl absent ↦ elim (Option-cases (choose n r addrs slot.rng).0) [
      | inl no_addr ↦ rw (absent, no_addr, sticky_target) refl
      | inr (target, new) ↦ rw (absent, new, sticky_target) refl
    ]
  ]

  unique_target-Drawn :
      (slot : AllocSlot r.Rng) (id : AllocId) (addrs : Pool n.Net)
      → id.entry < length slot.sequences
      → Drawn (length slot.sequences) (unique_target n r slot id addrs)
  unfolding Drawn unique_target remember
  unique_target-Drawn slot id addrs h = elim (Option-cases (lookup id slot.table)) [
    | inr (target, known) ↦ rw (known, unique_target) ((some target, slot), refl, refl)
    | inl absent ↦
        let (sequence, here) = get_elem?-some slot.sequences id.entry h in
        let result = next_index sequence addrs.total in
        elim (Option-cases (addr_at n addrs result.0.0)) [
          | inl no_addr ↦
              rw (absent, here, no_addr, unique_target)
                (_, refl, length-set slot.sequences id.entry result.1)
          | inr (target, new) ↦
              rw (absent, here, new, unique_target)
                (_, refl, length-set slot.sequences id.entry result.1)
        ]
  ]

  pub draw_slot-Drawn :
      (slot : AllocSlot r.Rng) (id : AllocId) (addrs : Pool n.Net) (policy : MapPolicy)
      → id.entry < length slot.sequences
      → Drawn (length slot.sequences) (draw_slot n r slot id addrs policy)
  unfolding draw_slot Drawn
  draw_slot-Drawn slot id addrs sticky h =
      (sticky_target n r slot id addrs, refl, ap length (sticky_target-walks slot id addrs))
  draw_slot-Drawn slot id addrs random h = unique_target-Drawn slot id addrs h
  draw_slot-Drawn slot id addrs unique h = unique_target-Drawn slot id addrs h
  draw_slot-Drawn slot id addrs hash h = unique_target-Drawn slot id addrs h
