-- ===== src/Mapping.antt =====
-- tools/maja-mergecap/src/map: the rewriting of addresses. Addresses are their integers with the
-- family. `IpNet` of the crate ipnet and `StdRng` of the crate rand are parameters.
pub mod Sequence
pub mod Pool
pub mod Session
pub mod Alloc
pub mod Hash
pub mod Entry
pub mod Flow
pub mod Envelope
pub mod Segment
pub mod Fix
pub mod Direct
pub mod Rewriter
mod Tests
use maja.Base.{ℕ, ◌+◌, ◌-◌, ◌*◌, ◌^◌, ◌≤◌, ◌<◌, ◌≡◌, Bool, true, false, ◌==◌}

pub data Family : Type 0 where
  v4 v6 : Family

pub data IpAddr : Type 0 where
  ipv4 ipv6 : ℕ → IpAddr

-- `Family::of_addr` and `Family::bits`.
abbrev pub of_addr : IpAddr → Family
of_addr (ipv4 n) = v4
of_addr (ipv6 n) = v6

abbrev pub bits : Family → ℕ
bits v4 = 32
bits v6 = 128

-- `addr_to_u128`.
abbrev pub addr_to_u128 : IpAddr → ℕ
addr_to_u128 (ipv4 n) = n
addr_to_u128 (ipv6 n) = n

abbrev pub same_addr : IpAddr → IpAddr → Bool
same_addr (ipv4 m) (ipv4 n) = m == n
same_addr (ipv6 m) (ipv6 n) = m == n
same_addr (ipv4 m) (ipv6 n) = false
same_addr (ipv6 m) (ipv4 n) = false

-- The generator of random numbers: `seed_from_u64` and `random_range(low..high)`.
pub record Random : Type 1 where
  pub Rng : Type 0
  pub seed_from_u64 : ℕ → Rng
  pub random_range : ℕ → ℕ → Rng → ℕ × Rng

-- A number that is drawn from a range that is not empty lies in it.
abbrev pub InRange : Random → Type 0
InRange r =
    (low high : ℕ) (rng : r.Rng)
    → low < high
    → (low ≤ (r.random_range low high rng).0) × ((r.random_range low high rng).0 < high)

-- `IpNet`: its family, `network()` as an integer, `prefix_len()`, `hostmask()` as an integer,
-- `contains` and its equality.
pub record Nets : Type 1 where
  pub Net : Type 0
  pub of_net : Net → Family
  pub network : Net → ℕ
  pub prefix_len : Net → ℕ
  pub hostmask : Net → ℕ
  pub contains : Net → IpAddr → Bool
  pub same_net : Net → Net → Bool

-- The bits of an address that the prefix leaves.
abbrev pub host_bits : (n : Nets) → n.Net → ℕ
host_bits n net = bits (n.of_net net) - n.prefix_len net

-- A prefix fits the family, the network ends in host bits that are zero and is an address, and the
-- host mask has the host bits.
pub record Networks (n : Nets) : Type 0 where
  pub fits : (net : n.Net) → n.prefix_len net ≤ bits (n.of_net net)
  pub block : n.Net → ℕ
  pub aligned : (net : n.Net) → n.network net ≡ block net * 2 ^ host_bits n net
  pub ends : (net : n.Net) → n.network net + 2 ^ host_bits n net ≤ 2 ^ bits (n.of_net net)
  pub masked : (net : n.Net) → n.hostmask net ≡ 2 ^ host_bits n net - 1
