-- ===== src/Mapping/Pool.antt =====
-- tools/maja-mergecap/src/map/pool.rs: the addresses of a pool as indices into networks.
pub mod Located
pub mod Single
pub mod Mask
use maja.Base.{
  ℕ, ◌≡◌, ◌+◌, ◌-◌, ◌%◌, ◌^◌, min, Bool, true, false, ◌&&◌, ◌||◌, Option, none, some, List, [], ◌∷◌,
  ltb, leb, ◌==◌, if◌then◌else◌,
}
use maja.Base.Bits.{bit_and, bit_or}
use maja.Mapping.{Family, v4, v6, IpAddr, ipv4, ipv6, Random, Nets, host_bits}
use maja.Mapping.Sequence.{u128_max}

-- `Family::index` and `Family::to_addr`.
abbrev pub family_index : Family → ℕ
family_index v4 = 0
family_index v6 = 1

abbrev pub to_addr : Family → ℕ → IpAddr
to_addr v4 value = ipv4 (value % 2 ^ 32)
to_addr v6 value = ipv6 value

pub record Pool (Net : Type 0) : Type 0 where
  pub nets : List (Net × ℕ)
  pub total : ℕ

-- IPv4 keeps the network and the broadcast address out, where there are more than two.
unfoldable pub usable : Family → ℕ → ℕ → ℕ
usable v4 host_bits total = if ltb 1 host_bits then total - 2 else total
usable v6 host_bits total = total

unfoldable pub offset_of : Family → ℕ → ℕ → ℕ
offset_of v4 host_bits index = if ltb 1 host_bits then (index + 1) % 2 ^ 128 else index
offset_of v6 host_bits index = index

masked_to : Family → IpAddr → ℕ → ℕ → Option IpAddr
masked_to v4 (ipv4 a) network hostmask = some (ipv4 (bit_or network (bit_and a hostmask)))
masked_to v6 (ipv6 a) network hostmask = some (ipv6 (bit_or network (bit_and a hostmask)))
masked_to v4 (ipv6 a) network hostmask = none
masked_to v6 (ipv4 a) network hostmask = none

module _ (n : Nets) where
  unfoldable pub host_count : n.Net → ℕ
  unfolding usable
  host_count net =
      let total = if ltb (host_bits n net) 128 then 2 ^ host_bits n net else u128_max in
      usable (n.of_net net) (host_bits n net) total

  unfoldable pub host_at : n.Net → ℕ → IpAddr
  unfolding offset_of
  host_at net index =
      let offset = offset_of (n.of_net net) (host_bits n net) index in
      to_addr (n.of_net net) ((n.network net + offset) % 2 ^ 128)

  -- The order of the sort by key: family, network, length of the prefix.
  unfoldable pub net_le : n.Net → n.Net → Bool
  net_le a b =
      let family_a = family_index (n.of_net a) in
      let family_b = family_index (n.of_net b) in
      ltb family_a family_b
      || (family_a == family_b
          && (ltb (n.network a) (n.network b)
              || (n.network a == n.network b && leb (n.prefix_len a) (n.prefix_len b))))

  unfoldable pub insert_net : n.Net → List n.Net → List n.Net
  insert_net net [] = net ∷ []
  insert_net net (other ∷ rest) =
      let later = insert_net net rest in
      if net_le net other then net ∷ other ∷ rest else other ∷ later

  -- A stable sort.
  unfoldable pub sort_nets : List n.Net → List n.Net
  unfolding insert_net net_le
  sort_nets [] = []
  sort_nets (net ∷ rest) = insert_net net (sort_nets rest)

  -- `dedup` drops what equals the item before it.
  unfoldable pub dedup_after : n.Net → List n.Net → List n.Net
  dedup_after before [] = []
  dedup_after before (net ∷ rest) =
      let behind_same = dedup_after before rest in
      let behind = dedup_after net rest in
      if n.same_net net before then behind_same else net ∷ behind

  unfoldable pub dedup : List n.Net → List n.Net
  unfolding dedup_after
  dedup [] = []
  dedup (net ∷ rest) = net ∷ dedup_after net rest

  unfoldable pub distinct_nets : List n.Net → List n.Net
  unfolding sort_nets dedup
  distinct_nets list = dedup (sort_nets list)

  -- The networks with their cumulative host counts, which saturate, and the last of these.
  unfoldable pub accumulate : ℕ → List n.Net → List (n.Net × ℕ) × ℕ
  unfolding host_count
  accumulate total [] = ([], total)
  accumulate total (net ∷ rest) =
      let counted = min (total + host_count net) u128_max in
      let (nets, final) = accumulate counted rest in ((net, counted) ∷ nets, final)

  unfoldable pub from_nets : List n.Net → Pool n.Net
  unfolding distinct_nets accumulate
  from_nets list =
      let (nets, total) = accumulate 0 (distinct_nets list) in record { nets = nets; total = total }

  -- `partition_point` on cumulative counts that do not decrease, and the item there. With none there
  -- the code would panic.
  unfoldable pub net_of : List (n.Net × ℕ) → ℕ → Option (n.Net × ℕ)
  net_of [] index = none
  net_of ((net, cumulative) ∷ rest) index =
      let later = net_of rest index in
      if leb cumulative index then later else some (net, cumulative)

  unfoldable pub addr_at : Pool n.Net → ℕ → Option IpAddr
  unfolding net_of host_at host_count
  addr_at p index =
      if p.total == 0
      then none
      else (let index = index % p.total in
          elim (net_of p.nets index) [
            | none ↦ none
            | some (net, cumulative) ↦ some (host_at net (index - (cumulative - host_count net)))
          ])

  -- `choose`: the address and the generator afterwards.
  unfoldable pub choose : (r : Random) → Pool n.Net → r.Rng → Option IpAddr × r.Rng
  unfolding addr_at
  choose r p rng =
      if p.total == 0
      then (none, rng)
      else (let (index, later) = r.random_range 0 p.total rng in (addr_at p index, later))

  unfoldable pub mask_map : n.Net → IpAddr → Option IpAddr
  unfolding masked_to
  mask_map to addr = masked_to (n.of_net to) addr (n.network to) (n.hostmask to)

  pub choose-some :
      (r : Random) (p : Pool n.Net) (rng : r.Rng) {addr : IpAddr}
      → (p.total == 0) ≡ false
      → addr_at p (r.random_range 0 p.total rng).0 ≡ some addr
      → (choose r p rng).0 ≡ some addr
  unfolding choose addr_at
  choose-some r p rng some_left is = rw some_left (rw some_left at is)
