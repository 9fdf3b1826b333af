-- ===== src/Mapping/Pool/Single.antt =====
-- A pool of one network, as `flow_map` has it: tools/maja-mergecap/src/map/pool.rs.
use native.Mathlib.Nat
use maja.Base.{
  ℕ, ◌+◌, ◌-◌, ◌%◌, ◌^◌, ◌≤◌, ◌<◌, ◌≡◌, refl, ap, inl, inr, min, true, false, some, [], ◌∷◌, arith,
  ltb, leb, ◌==◌, if◌then◌else◌, Bool-cases,
}
use maja.Mapping.{Family, v4, v6, IpAddr, ipv4, ipv6, bits, Nets, Networks, host_bits}
use maja.Mapping.Sequence.{u128_max}
use maja.Mapping.Pool.{usable, offset_of, to_addr, host_count, host_at, from_nets, net_of, addr_at}

-- What a host is: IPv4 keeps the first and the last number of the network out.
abbrev skipped : Family → ℕ → ℕ
skipped v4 free = if ltb 1 free then 1 else 0
skipped v6 free = 0

power_below : (free : ℕ) → free ≤ 32 → 2 ^ free ≤ 2 ^ 32
power_below free h = Nat.pow-le-pow_right {n = 2} (omega arith) h

-- The numbers of the hosts behind a network address, with `free` bits, and the bounds of all of them.
offset_lem :
    (f : Family) (free index : ℕ)
    → free ≤ bits f
    → index < usable f free (2 ^ free)
    → (offset_of f free index ≡ skipped f free + index)
      × (skipped f free + index + skipped f free < 2 ^ free)
unfolding usable offset_of
offset_lem v4 free index fits h =
    let small : 2 ^ free ≤ 2 ^ 32 = power_below free fits in
    elim (Bool-cases (ltb 1 free)) [
      | inl more ↦ let h : index < 2 ^ free - 2 = rw more at h in rw more (omega arith, omega arith)
      | inr few ↦ let h : index < 2 ^ free = rw few at h in rw few (omega arith, omega arith)
    ]
offset_lem v6 free index fits h = (omega arith, omega arith)

-- The address with a number, where the number fits the family.
abbrev pub plain : Family → ℕ → IpAddr
plain v4 value = ipv4 value
plain v6 value = ipv6 value

to_addr-plain :
    (f : Family) (value : ℕ) → value < 2 ^ bits f → to_addr f (value % 2 ^ 128) ≡ plain f value
to_addr-plain v4 value h = ap ipv4 (omega arith)
to_addr-plain v6 value h = ap ipv6 (omega arith)

pub plain_injective : (f : Family) {a b : ℕ} → plain f a ≡ plain f b → a ≡ b
plain_injective v4 h = cc
plain_injective v6 h = cc

bits-le : (f : Family) → bits f ≤ 128
bits-le v4 = omega arith
bits-le v6 = omega arith

usable-le : (f : Family) (free total : ℕ) → usable f free total ≤ total
unfolding usable
usable-le v4 free total = ground arith
usable-le v6 free total = omega arith

module _ (n : Nets) (laws : Networks n) (net : n.Net) (small : host_bits n net < 128) where
  host_count_lem : host_count n net ≡ usable (n.of_net net) (host_bits n net) (2 ^ host_bits n net)
  unfolding host_count
  host_count_lem = let narrow : ltb (host_bits n net) 128 ≡ true = ground arith in rw narrow refl

  -- Where the hosts begin.
  pub first_host : ℕ
  first_host = n.network net + skipped (n.of_net net) (host_bits n net)

  host_offset :
      (i : ℕ)
      → i < host_count n net
      → (offset_of (n.of_net net) (host_bits n net) i
          ≡ skipped (n.of_net net) (host_bits n net) + i)
        × (skipped (n.of_net net) (host_bits n net) + i + skipped (n.of_net net) (host_bits n net)
            < 2 ^ host_bits n net)
  host_offset i h =
      offset_lem (n.of_net net) (host_bits n net) i (omega arith) (rw host_count_lem at h)

  host_at-plain :
      (i : ℕ) → i < host_count n net → host_at n net i ≡ plain (n.of_net net) (first_host + i)
  unfolding host_at first_host
  host_at-plain i h =
      let (is, below) = host_offset i h in
      let ends = laws.ends net in
      let sum : n.network net + (skipped (n.of_net net) (host_bits n net) + i) ≡ first_host + i =
        omega arith in
      rw (is, sum) (to_addr-plain (n.of_net net) (first_host + i) (omega arith))

  pub host_count-le : host_count n net ≤ 2 ^ 127
  host_count-le =
      let power : 2 ^ host_bits n net ≤ 2 ^ 127 =
        Nat.pow-le-pow_right {n = 2} (omega arith) {i = host_bits n net} {j = 127} (omega arith) in
      rw host_count_lem
        (omega (arith, usable-le (n.of_net net) (host_bits n net) (2 ^ host_bits n net)))

  pub addr_at-single :
      (i : ℕ)
      → i < host_count n net
      → ((from_nets n (net ∷ [])).total ≡ host_count n net)
        × (addr_at n (from_nets n (net ∷ [])) i ≡ some (plain (n.of_net net) (first_host + i)))
  unfolding addr_at from_nets net_of
  addr_at-single i h =
      let most : host_count n net ≤ u128_max = omega (arith, host_count-le) in
      let counted : min (0 + host_count n net) u128_max ≡ host_count n net = omega arith in
      let total : (from_nets n (net ∷ [])).total ≡ host_count n net = counted in
      let nonzero : (host_count n net == 0) ≡ false = ground arith in
      let at : i % host_count n net ≡ i = Nat.mod-eq_of_lt h in
      let found : leb (host_count n net) i ≡ false = ground arith in
      let same : i - (host_count n net - host_count n net) ≡ i = omega arith in
      rw (total, nonzero, at, found, total, at, same, host_at-plain i h) (refl, refl)

pub addr_at-one :
    (n : Nets) (net : n.Net)
    → ((from_nets n (net ∷ [])).total == 0) ≡ false
    → (i : ℕ) → (addr : IpAddr) × (addr_at n (from_nets n (net ∷ [])) i ≡ some addr)
unfolding addr_at from_nets net_of
addr_at-one n net some_left i =
    let total = (from_nets n (net ∷ [])).total in
    let below : i % total < total = Nat.mod-lt i (ground arith) in
    let found : leb total (i % total) ≡ false = ground arith in rw (some_left, found) (_, refl)
