-- ===== src/Mapping/Alloc/Unique.antt =====
-- The promise of `AllocSlot::unique` of tools/maja-mergecap/src/map/flow.rs, for the pools that a flow
-- map has.
use maja.Base.{
  ℕ, zero, suc, ◌+◌, ◌≤◌, ◌<◌, ◌≡◌, ◌≢◌, refl, some, List, [], ◌∷◌, get_elem?, length, arith,
}
use maja.Mapping.{IpAddr, Random, InRange, Nets, Networks, host_bits}
use maja.Mapping.Pool.{host_count, from_nets}
use maja.Mapping.Pool.Single.{plain, plain_injective, first_host, host_count-le, addr_at-single}
use maja.Mapping.Sequence.{new_sequence}
use maja.Mapping.Sequence.Walk.{new_sequence-Visits}
use maja.Mapping.Alloc.{AllocSlot, lookup, new_sequences, new_slot}
use maja.Mapping.Alloc.Given.{given, Distinct-lookup}
use maja.Mapping.Alloc.Distinct.{Served, Served-Distinct}
use maja.Mapping.Session.{AllocId}

new_sequences-walk :
    (r : Random) (rng : r.Rng) (pool_lens : List ℕ) (entry : ℕ) {size : ℕ}
    → get_elem? pool_lens entry ≡ some size
    → (own : r.Rng) × (get_elem? (new_sequences r rng pool_lens).0 entry
        ≡ some (new_sequence r own size).0)
unfolding new_sequences
new_sequences-walk r rng [] entry h = absurd (cc)
new_sequences-walk r rng (first ∷ rest) zero {size} h =
    let is : first ≡ size = cc in (rng, rw is refl)
new_sequences-walk r rng (first ∷ rest) (suc entry) h =
    new_sequences-walk r (new_sequence r rng first).1 rest entry h

module _ (n : Nets) (laws : Networks n) (r : Random) (inside : InRange r) where
  -- After any requests to a new slot, in which the entry in question asks for unique addresses of
  -- one lawful network and other entries ask for whatever they like, two different keys of the
  -- entry have different addresses, as long as the entry has no more keys than the network has
  -- hosts, which are some and fewer than all IPv6 addresses. The generator keeps to its ranges.
  pub unique_target-separates :
      (net : n.Net)
      → host_bits n net < 128
      → 0 < host_count n net
      → (seed salt : ℕ) (pool_lens : List ℕ) (entry : ℕ)
      → get_elem? pool_lens entry ≡ some (host_count n net)
      → (slot : AllocSlot r.Rng)
      → Served n r entry (from_nets n (net ∷ [])) (new_slot r seed salt pool_lens) slot
      → length (given entry slot.table) ≤ host_count n net
      → (a b : AllocId) → a.entry ≡ entry
      → b.entry ≡ entry
      → a ≢ b
      → (x y : IpAddr) → lookup a slot.table ≡ some x
      → lookup b slot.table ≡ some y
      → x ≢ y
  unfolding new_slot
  unique_target-separates net small some_left seed salt pool_lens entry size slot served bound a b
        a_own b_own differ x y at_a at_b =
      let addrs = from_nets n (net ∷ []) in
      let total : addrs.total ≡ host_count n net =
        (addr_at-single n laws net small 0 some_left).0 in
      let (own, walk_is) = new_sequences-walk r _ pool_lens entry size in
      let visits =
        new_sequence-Visits r inside own (host_count n net) some_left
          (host_count-le n laws net small) in
      Distinct-lookup entry slot.table a b x y
        (Served-Distinct n r entry addrs
          (λ i. plain (n.of_net net) (first_host n laws net small + i))
          (new_sequence r own (host_count n net)).0 (omega arith)
          (λ i h. (addr_at-single n laws net small i (omega arith)).1) (rw total visits)
          (λ i j _ _ same.
            let numbers : first_host n laws net small + i ≡ first_host n laws net small + j =
              plain_injective (n.of_net net) same in
            omega arith)
          refl walk_is served (omega arith))
        a_own b_own differ at_a at_b
