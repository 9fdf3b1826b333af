-- ===== src/Mapping/Alloc/Grow.antt =====
-- What the tables of tools/maja-mergecap/src/map/flow.rs hold, they keep.
use maja.Base.{
  ℕ, ◌≡◌, refl, inl, inr, false, Option, none, some, ◌∷◌, get_elem?, Bool-cases, Option-cases, ◌==◌,
}
use mathlib.Core.Path.{subst}
use maja.Mapping.{IpAddr, Random, Nets}
use maja.Mapping.Pool.{Pool, addr_at, choose-some}
use maja.Mapping.Alloc.{Table, lookup, AllocSlot, sticky_target, unique_target, remember}
use maja.Mapping.Sequence.{next_index}
use maja.Mapping.Session.{AllocId, same_id}
use maja.Mapping.Session.Equal.{same_id_eq, same_id_refl}

unfoldable pub Grows : Table → Table → Type 0
Grows before after =
    (id : AllocId) (target : IpAddr)
    → lookup id before ≡ some target
    → lookup id after ≡ some target

pub Grows-refl : (table : Table) → Grows table table
unfolding Grows
Grows-refl table id target h = h

pub Grows-trans : (a b c : Table) → Grows a b → Grows b c → Grows a c
unfolding Grows
Grows-trans a b c first second id target h = second id target (first id target h)

pub Grows-cons :
    (id : AllocId) (new : IpAddr) (table : Table)
    → lookup id table ≡ none
    → Grows table ((id, new) ∷ table)
unfolding Grows
Grows-cons id new table absent other target h = elim (Bool-cases (same_id other id)) [
  | inl same ↦
      let key : other ≡ id = same_id_eq other id same in
      let known : lookup id table ≡ some target = subst (λ k. lookup k table ≡ some target) key h in
      absurd (cc)
  | inr differs ↦ rw differs h
]

pub lookup-cons :
    (id : AllocId) (new : IpAddr) (table : Table) → lookup id ((id, new) ∷ table) ≡ some new
lookup-cons id new table = rw (same_id_refl id) refl

-- A property of what is returned, where the code does not panic.
pub data IfReturned {A : Type 0} (P : A → Type 0) : Option A → Type 0 where
  panicked : IfReturned P none
  returned : {a : A} → P a → IfReturned P (some a)

pub of_returned : {A : Type 0} {P : A → Type 0} {a : A} → IfReturned P (some a) → P a
of_returned (returned p) = p

module _ (n : Nets) where
  -- A pool that is not empty has an address at every index.
  unfoldable pub Full : Pool n.Net → Type 0
  Full pool = (pool.total == 0) ≡ false → (i : ℕ) → (addr : IpAddr) × (addr_at n pool i ≡ some addr)

module _ (n : Nets) (r : Random) where
  -- A request that is answered: with what the table then has for its key.
  unfoldable pub Held : AllocSlot r.Rng → AllocId → Option IpAddr × AllocSlot r.Rng → Type 0
  Held slot id (target, later) =
      (addr : IpAddr) × (target ≡ some addr)
      × (lookup id later.table ≡ some addr)
      × Grows slot.table later.table

  pub sticky_target-Held :
      (slot : AllocSlot r.Rng) (id : AllocId) (pool : Pool n.Net)
      → (pool.total == 0) ≡ false
      → Full n pool
      → Held slot id (sticky_target n r slot id pool)
  unfolding sticky_target Held Full
  sticky_target-Held slot id pool some_left full = elim (Option-cases (lookup id slot.table)) [
    | inr (target, known) ↦ rw (known, sticky_target) (target, refl, known, Grows-refl slot.table)
    | inl absent ↦
        let index = (r.random_range 0 pool.total slot.rng).0 in
        let (addr, at) = full some_left index in
        rw (absent, choose-some n r pool slot.rng some_left at, sticky_target)
          (addr, refl, lookup-cons id addr slot.table, Grows-cons id addr slot.table absent)
  ]

  pub unique_target-Held :
      (slot : AllocSlot r.Rng) (id : AllocId) (pool : Pool n.Net)
      → (pool.total == 0) ≡ false
      → Full n pool
      → IfReturned (Held slot id) (unique_target n r slot id pool)
  unfolding unique_target Held Full remember
  unique_target-Held slot id pool some_left full = elim (Option-cases (lookup id slot.table)) [
    | inr (target, known) ↦
        rw (known, unique_target) (returned (target, refl, known, Grows-refl slot.table))
    | inl absent ↦ elim (Option-cases (get_elem? slot.sequences id.entry)) [
      | inl missing ↦ rw (absent, missing, unique_target) panicked
      | inr (sequence, at) ↦
          let index = (next_index sequence pool.total).0.0 in
          let (addr, is) = full some_left index in
          rw (absent, at, is, unique_target)
            (returned
              (addr, refl, lookup-cons id addr slot.table, Grows-cons id addr slot.table absent))
    ]
  ]

  pub sticky_target-known :
      (slot : AllocSlot r.Rng) (id : AllocId) (pool : Pool n.Net) {addr : IpAddr}
      → lookup id slot.table ≡ some addr
      → sticky_target n r slot id pool ≡ (some addr, slot)
  unfolding sticky_target
  sticky_target-known slot id pool known = rw (known, sticky_target) refl

  pub unique_target-known :
      (slot : AllocSlot r.Rng) (id : AllocId) (pool : Pool n.Net) {addr : IpAddr}
      → lookup id slot.table ≡ some addr
      → unique_target n r slot id pool ≡ some (some addr, slot)
  unfolding unique_target
  unique_target-known slot id pool known = rw (known, unique_target) refl
