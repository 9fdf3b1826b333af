-- ===== src/Mapping/Pool/Located.antt =====
-- How an index of a pool of tools/maja-mergecap/src/map/pool.rs finds its network.
use maja.Base.{
  ℕ, ◌+◌, ◌-◌, ◌%◌, ◌≤◌, ◌<◌, ◌≡◌, refl, min, true, false, some, List, [], ◌∷◌, arith, leb, ◌==◌,
  dec_lt,
}
use native.Mathlib.Nat
use maja.Mapping.{Nets}
use maja.Mapping.Sequence.{u128_max}
use maja.Mapping.Pool.{
  Pool, host_count, host_at, distinct_nets, accumulate, from_nets, net_of, addr_at,
}

module _ (n : Nets) where
  -- The number of an address in the networks, one after the other: its network and its number there.
  pub data At : List n.Net → ℕ → n.Net → ℕ → Type 0 where
    here :
        {net : n.Net} {rest : List n.Net} {i : ℕ} → i < host_count n net → At (net ∷ rest) i net i
    there :
        {first net : n.Net} {rest : List n.Net} {i j : ℕ}
        → At rest i net j
        → At (first ∷ rest) (host_count n first + i) net j

  unfoldable pub hosts : List n.Net → ℕ
  hosts [] = 0
  hosts (net ∷ rest) = host_count n net + hosts rest

  accumulate-total :
      (total : ℕ) (list : List n.Net)
      → total + hosts list ≤ u128_max
      → (accumulate n total list).1 ≡ total + hosts list
  unfolding accumulate hosts
  accumulate-total total [] h = omega arith
  accumulate-total total (net ∷ rest) h =
      let counted : min (total + host_count n net) u128_max ≡ total + host_count n net =
        omega arith in
      rw (counted, accumulate-total (total + host_count n net) rest (omega arith)) (omega arith)

  -- The network of an index that the search finds, and its cumulative count.
  Found : ℕ → List n.Net → ℕ → ℕ → Type 0
  Found total list i position =
      (net : n.Net) × (j : ℕ) × (c : ℕ) × At list i net j
      × (net_of n (accumulate n total list).0 position ≡ some (net, c))
      × (position - (c - host_count n net) ≡ j)

  net_of-accumulate :
      (total : ℕ) (list : List n.Net) (i position : ℕ)
      → total + i ≡ position
      → total + hosts list ≤ u128_max
      → i < hosts list
      → Found total list i position
  unfolding accumulate hosts net_of Found
  net_of-accumulate total [] i position e h lt = absurd (omega arith)
  net_of-accumulate total (net ∷ rest) i position e h lt =
      let counted : min (total + host_count n net) u128_max ≡ total + host_count n net =
        omega arith in
      elim (dec_lt i (host_count n net)) [
        | yes inside ↦
            let kept : leb (total + host_count n net) position ≡ false = ground arith in
            rw (counted, kept) (net, i, total + host_count n net, At.here inside, refl, omega arith)
        | no beyond ↦
            let passed : leb (total + host_count n net) position ≡ true = ground arith in
            let (k, split) : (k : ℕ) × (i ≡ host_count n net + k) =
              (i - host_count n net, omega arith) in
            let (found, j, c, at, is, offset) =
              net_of-accumulate (total + host_count n net) rest k position (omega arith)
                (omega arith) (omega arith) in
            rw (counted, passed, split) (found, j, c, At.there at, is, offset)
      ]

  addr_at-found :
      (p : Pool n.Net) (index total : ℕ) (net : n.Net) (c j : ℕ)
      → p.total ≡ total
      → 0 < total
      → net_of n p.nets (index % total) ≡ some (net, c)
      → index % total - (c - host_count n net) ≡ j
      → addr_at n p index ≡ some (host_at n net j)
  unfolding addr_at
  addr_at-found p index total net c j counted some_hosts is offset =
      let nonzero : (total == 0) ≡ false = ground arith in
      rw (counted, nonzero, is, counted, offset, addr_at) refl

  -- Where the hosts of the networks, sorted and without what is given twice, are some and can be
  -- counted in 128 bits, the address at an index is that host of that network which the index,
  -- reduced to their number, comes to when one counts through the hosts of one network after the
  -- other.
  pub addr_at-from_nets :
      (list : List n.Net) (index : ℕ)
      → 0 < hosts (distinct_nets n list)
      → hosts (distinct_nets n list) ≤ u128_max
      → (net : n.Net) × (j : ℕ) × At
          (distinct_nets n list)
          (index % hosts (distinct_nets n list))
          net
          j
        × (addr_at n (from_nets n list) index ≡ some (host_at n net j))
  unfolding from_nets Found
  addr_at-from_nets list index some_hosts h =
      let all = distinct_nets n list in
      let counted : (accumulate n 0 all).1 ≡ hosts all =
        omega (arith, accumulate-total 0 all (omega arith)) in
      let (net, j, c, at, is, offset) =
        net_of-accumulate 0 all (index % hosts all) (index % hosts all) (omega arith) (omega arith)
          (Nat.mod-lt index some_hosts) in
      (
        net,
        j,
        at,
        addr_at-found (from_nets n list) index (hosts all) net c j counted some_hosts is offset,
      )
