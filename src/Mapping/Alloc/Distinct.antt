-- ===== src/Mapping/Alloc/Distinct.antt =====
-- `AllocSlot::unique` of tools/maja-mergecap/src/map/flow.rs: until a pool is exhausted, no two keys of
-- an entry share an address.
use maja.Base.{
  ℕ, zero, suc, ◌≤◌, ◌<◌, ◌≡◌, ◌≢◌, ◌∙◌, sym, refl, ap, inl, inr, true, false, Option, some, List,
  [], ◌∷◌, get_elem?, get_elem?-lt, set, get_elem?-set_self, get_elem?-set_ne, length, Option-cases,
  ◌==◌, ==_iff, arith,
}
use mathlib.Core.Path.{subst}
use maja.Mapping.{IpAddr, Random, Nets}
use maja.Mapping.Pool.{Pool, addr_at, choose}
use maja.Mapping.Sequence.{Sequence, next_index}
use maja.Mapping.Sequence.Walk.{after, index, index-lt, Visits}
use maja.Mapping.Alloc.{Table, lookup, AllocSlot, sticky_target, unique_target, remember}
use maja.Mapping.Alloc.Grow.{IfReturned, panicked, returned, of_returned}
use maja.Mapping.Alloc.Given.{given, Distinct, nothing, apart}
use maja.Mapping.Session.{AllocId}

-- The addresses of a walk's first draws, the last one first.
drawn_addrs : (ℕ → IpAddr) → Sequence → ℕ → ℕ → List IpAddr
drawn_addrs addr walk size zero = []
drawn_addrs addr walk size (suc count) =
    addr (index walk size count) ∷ drawn_addrs addr walk size count

module _ (addr : ℕ → IpAddr) (walk : Sequence) (size : ℕ) (visits : Visits size walk)
    (separate : (i j : ℕ) → i < size → j < size → addr i ≡ addr j → i ≡ j) where
  drawn_before :
      (count i : ℕ) {target : IpAddr}
      → get_elem? (drawn_addrs addr walk size count) i ≡ some target
      → (j : ℕ) × (j < count) × (target ≡ addr (index walk size j))
  unfolding drawn_addrs
  drawn_before zero i h = absurd (cc)
  drawn_before (suc count) zero h = (count, omega arith, cc)
  drawn_before (suc count) (suc i) h =
      let (j, below, is) = drawn_before count i h in (j, omega arith, is)

  drawn_addrs-Distinct : (count : ℕ) → count ≤ size → Distinct (drawn_addrs addr walk size count)
  unfolding drawn_addrs Visits
  drawn_addrs-Distinct zero h = nothing
  drawn_addrs-Distinct (suc count) h =
      apart
        (λ i at.
          let (j, below, is) = drawn_before count i at in
          visits.1 j count below (omega arith)
            (separate _ _ (visits.0 j (omega arith)).0 (visits.0 count (omega arith)).0 (sym is)))
        (drawn_addrs-Distinct count (omega arith))

-- The requests for one entry, whose policy is unique, and those for other entries.
module _ (n : Nets) (r : Random) (entry : ℕ) (addrs : Pool n.Net) where
  pub data Served (start : AllocSlot r.Rng) : AllocSlot r.Rng → Type 0 where
    fresh : Served start start
    other_sticky :
        {slot : AllocSlot r.Rng}
        → Served start slot
        → (id : AllocId) (other : Pool n.Net) → (id.entry == entry) ≡ false
        → Served start (sticky_target n r slot id other).1
    other_unique :
        {slot : AllocSlot r.Rng}
        → Served start slot
        → (id : AllocId) (other : Pool n.Net) → (id.entry == entry) ≡ false
        → {drawn : Option IpAddr × AllocSlot r.Rng} → unique_target n r slot id other ≡ some drawn
        → Served start drawn.1
    own_unique :
        {slot : AllocSlot r.Rng}
        → Served start slot
        → (id : AllocId) → id.entry ≡ entry
        → {drawn : Option IpAddr × AllocSlot r.Rng} → unique_target n r slot id addrs ≡ some drawn
        → Served start drawn.1

  module _ (addr : ℕ → IpAddr) (walk : Sequence) (some_left : 0 < addrs.total)
      (all : (i : ℕ) → i < addrs.total → addr_at n addrs i ≡ some (addr i)) where
    -- The entry's walk stands where as many draws as it gave addresses have brought it.
    record Progress (slot : AllocSlot r.Rng) : Type 0 where
      count : ℕ
      at : get_elem? slot.sequences entry ≡ some (after walk addrs.total count)
      gave : given entry slot.table ≡ drawn_addrs addr walk addrs.total count

    elsewhere : (id : AllocId) → (id.entry == entry) ≡ false → id.entry ≢ entry
    elsewhere id other same =
        let mine : (id.entry == entry) ≡ true = (==_iff _ _).1 same in absurd (cc)

    given-other :
        (id : AllocId) (target : IpAddr) (table : Table)
        → (id.entry == entry) ≡ false
        → given entry ((id, target) ∷ table) ≡ given entry table
    unfolding given
    given-other id target table other = rw other refl

    sticky_target-Progress :
        (slot : AllocSlot r.Rng) (id : AllocId) (pool : Pool n.Net)
        → (id.entry == entry) ≡ false
        → Progress slot
        → Progress (sticky_target n r slot id pool).1
    unfolding sticky_target
    sticky_target-Progress slot id pool other p = elim (Option-cases (lookup id slot.table)) [
      | inr (target, known) ↦ rw (known, sticky_target) p
      | inl absent ↦ elim (Option-cases (choose n r pool slot.rng).0) [
        | inl no_addr ↦
            rw (absent, no_addr, sticky_target)
              (record { count = p.count; at = p.at; gave = p.gave })
        | inr (target, new) ↦
            rw (absent, new, sticky_target)
              (record {
                count = p.count;
                at = p.at;
                gave = given-other id target slot.table other ∙ p.gave;
              })
      ]
    ]

    other_unique-Progress :
        (slot : AllocSlot r.Rng) (id : AllocId) (pool : Pool n.Net)
        → (id.entry == entry) ≡ false
        → Progress slot
        → IfReturned (λ d. Progress d.1) (unique_target n r slot id pool)
    unfolding unique_target remember
    other_unique-Progress slot id pool other p = elim (Option-cases (lookup id slot.table)) [
      | inr (target, known) ↦ rw (known, unique_target) (returned p)
      | inl absent ↦ elim (Option-cases (get_elem? slot.sequences id.entry)) [
        | inl missing ↦ rw (absent, missing, unique_target) panicked
        | inr (sequence, here) ↦
            let result = next_index sequence pool.total in
            let at : get_elem? (set slot.sequences id.entry result.1) entry
                ≡ some (after walk addrs.total p.count) =
              get_elem?-set_ne slot.sequences result.1 (λ same. elsewhere id other same) ∙ p.at in
            elim (Option-cases (addr_at n pool result.0.0)) [
              | inl no_addr ↦
                  rw (absent, here, no_addr, unique_target)
                    (returned (record { count = p.count; at = at; gave = p.gave }))
              | inr (target, new) ↦
                  rw (absent, here, new, unique_target)
                    (returned (record {
                      count = p.count;
                      at = at;
                      gave = given-other id target slot.table other ∙ p.gave;
                    }))
            ]
      ]
    ]

    unique_target-Progress :
        (slot : AllocSlot r.Rng) (id : AllocId)
        → id.entry ≡ entry
        → Progress slot
        → IfReturned (λ d. Progress d.1) (unique_target n r slot id addrs)
    unfolding unique_target remember given drawn_addrs after
    unique_target-Progress slot id own p = elim (Option-cases (lookup id slot.table)) [
      | inr (target, known) ↦ rw (known, unique_target) (returned p)
      | inl absent ↦
          let here : get_elem? slot.sequences id.entry ≡ some (after walk addrs.total p.count) =
            rw own p.at in
          let place : ℕ = index walk addrs.total p.count in
          let is = all place (index-lt walk addrs.total p.count some_left) in
          let mine : (id.entry == entry) ≡ true = (==_iff _ _).1 own in
          let next : Sequence = (next_index (after walk addrs.total p.count) addrs.total).1 in
          let at : get_elem? (set slot.sequences id.entry next) entry ≡ some next = rw own (
            get_elem?-set_self slot.sequences entry next
              (get_elem?-lt slot.sequences entry p.at)) in
          let gave : given entry ((id, addr place) ∷ slot.table)
              ≡ drawn_addrs addr walk addrs.total (suc p.count) =
            rw mine (ap (λ l. addr place ∷ l) p.gave) in
          rw (absent, here, is, unique_target)
            (returned (record { count = suc p.count; at = at; gave = gave }))
    ]

    Served-Progress :
        {start slot : AllocSlot r.Rng} → Served start slot → Progress start → Progress slot
    Served-Progress fresh p = p
    Served-Progress (other_sticky {slot = slot} served id other elsewhere) p =
        sticky_target-Progress slot id other elsewhere (Served-Progress served p)
    Served-Progress (other_unique {slot = slot} served id other elsewhere is) p = of_returned (
        subst (IfReturned (λ d. Progress d.1)) is
          (other_unique-Progress slot id other elsewhere (Served-Progress served p)))
    Served-Progress (own_unique {slot = slot} served id own is) p = of_returned (
        subst (IfReturned (λ d. Progress d.1)) is
          (unique_target-Progress slot id own (Served-Progress served p)))

    length-drawn_addrs : (count : ℕ) → length (drawn_addrs addr walk addrs.total count) ≡ count
    unfolding drawn_addrs
    length-drawn_addrs zero = refl
    length-drawn_addrs (suc count) = ap suc (length-drawn_addrs count)

    -- As long as the pool was not exhausted, the addresses of the entry are distinct.
    pub Served-Distinct :
        Visits addrs.total walk
        → ((i j : ℕ) → i < addrs.total → j < addrs.total → addr i ≡ addr j → i ≡ j)
        → {start slot : AllocSlot r.Rng} → start.table ≡ []
        → get_elem? start.sequences entry ≡ some walk
        → Served start slot
        → length (given entry slot.table) ≤ addrs.total
        → Distinct (given entry slot.table)
    unfolding given drawn_addrs after
    Served-Distinct visits separate {start} {slot} new begins served bound =
        let before : Progress start = record { count = 0; at = begins; gave = rw new refl } in
        let p = Served-Progress served before in
        let count : p.count ≤ addrs.total =
          omega (arith, length-drawn_addrs p.count, ap (λ (l : List IpAddr). length l) p.gave) in
        subst Distinct (sym p.gave)
          (drawn_addrs-Distinct addr walk addrs.total visits separate p.count count)
