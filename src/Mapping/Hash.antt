-- ===== src/Mapping/Hash.antt =====
-- The seeds and the stable hash of tools/maja-mergecap/src/map.rs and src/map/flow.rs there.
use Prim.Native.Nat.{bit_xor}
use maja.Base.{ℕ, ◌+◌, ◌*◌, ◌/◌, ◌%◌, ◌^◌}
use maja.Mapping.{Random, addr_to_u128, IpAddr}
use maja.Mapping.Sequence.{u64_max}
use maja.Mapping.Session.{Identity, of_session, of_fragment, of_address}

abbrev pub map_rng_salt : ℕ
map_rng_salt = 0x6a09e667f3bcc908

-- Words of 64 bits.
unfoldable pub splitmix64 : ℕ → ℕ
splitmix64 x =
    let x = (x + 0x9e3779b97f4a7c15) % 2 ^ 64 in
    let z = bit_xor x (x / 2 ^ 30) * 0xbf58476d1ce4e5b9 % 2 ^ 64 in
    let z = bit_xor z (z / 2 ^ 27) * 0x94d049bb133111eb % 2 ^ 64 in bit_xor z (z / 2 ^ 31)

unfoldable pub derived_rng : (r : Random) → ℕ → ℕ → r.Rng
unfolding splitmix64
derived_rng r seed salt = r.seed_from_u64 (splitmix64 (bit_xor seed salt))

-- `StableHash`: its state, and `write`, `write_u128` and `finish`.
new_hash : ℕ → ℕ
new_hash seed = bit_xor seed 0xcbf29ce484222325

write : ℕ → ℕ → ℕ
unfolding splitmix64
write hash value = splitmix64 (bit_xor hash (value * 0x00000100000001b3 % 2 ^ 64))

write_u128 : ℕ → ℕ → ℕ
unfolding write
write_u128 hash value = write (write hash (value / 2 ^ 64)) (value % 2 ^ 64)

write_identity : ℕ → Identity → ℕ
unfolding write write_u128
write_identity hash (of_session session) =
    let hash = write (write_u128 hash session.a.addr) session.a.port in
    let hash = write (write_u128 hash session.b.addr) session.b.port in write hash session.proto
write_identity hash (of_fragment fragment) =
    let hash = write_u128 hash (addr_to_u128 fragment.src) in
    let hash = write_u128 hash (addr_to_u128 fragment.dst) in
    write (write hash fragment.proto) fragment.id
write_identity hash of_address = write hash u64_max

pub hash_index : ℕ → ℕ → IpAddr → Identity → ℕ → ℕ
unfolding new_hash write write_identity write_u128 splitmix64
hash_index seed entry addr identity pool_len =
    let hash = write_identity (write (new_hash seed) entry) identity in
    splitmix64 (write_u128 hash (addr_to_u128 addr)) % pool_len
