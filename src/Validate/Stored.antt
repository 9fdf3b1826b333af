-- ===== src/Validate/Stored.antt =====
-- The checksum that a viewer calculates makes the viewer valid, once it is stored.
use mathlib.Core.Path.{ap₂}
use maja.Base.{
  ℕ, ◌+◌, ◌*◌, ◌^◌, ◌≤◌, ◌<◌, ◌≡◌, refl, sym, ap, ◌∙◌, min, Bool, true, false, ◌||◌, List, [], ◌∷◌,
  arith, ◌==◌, length, take,
}
use maja.Field.{whole}
use maja.Checksum.{
  internet_checksum, internet_checksum_zeroing, ipv4_transport_checksum,
  ipv4_transport_checksum_zeroing, ipv6_transport_checksum, ipv6_transport_checksum_zeroing,
}
use maja.Checksum.Bounds.{
  internet_checksum_zeroing-lt, ipv4_transport_checksum_zeroing-lt,
  ipv6_transport_checksum_zeroing-lt,
}
use maja.Checksum.Zeroing.{zeroing_clears}
use maja.Layers.{field}
use maja.Validate.{
  stored, store, checksum_range, ipv4_header_len, ipv4_calculate_checksum, ipv4_validate_checksum,
  tcp_calculate_checksum_ipv4, tcp_validate_checksum_ipv4, tcp_calculate_checksum_ipv6,
  tcp_validate_checksum_ipv6, datagram, enabled, udp_calculate_checksum_ipv4,
  udp_validate_checksum_ipv4, udp_calculate_checksum_ipv6, udp_validate_checksum_ipv6,
  icmp_calculate_checksum, icmp_validate_checksum, icmpv6_calculate_checksum,
  icmpv6_validate_checksum,
}
use maja.Validate.Store.{clear-store, length-store, stored-store, field-store}

==-refl : (n : ℕ) → (n == n) ≡ true
==-refl n = ground arith

-- A checksum does not see what is stored in its own range.
internet_store :
    (at n value : ℕ) (bytes : List ℕ)
    → at + 2 ≤ length bytes
    → internet_checksum_zeroing (take n (store at value bytes)) (checksum_range at)
      ≡ internet_checksum_zeroing (take n bytes) (checksum_range at)
internet_store at n value bytes room =
    (zeroing_clears [] [] 0 (take n (store at value bytes)) (checksum_range at)).0
    ∙ ap internet_checksum (clear-store at n value bytes room)
    ∙ sym (zeroing_clears [] [] 0 (take n bytes) (checksum_range at)).0

ipv4_store :
    (src dst : List ℕ) (protocol at n value : ℕ) (bytes : List ℕ)
    → at + 2 ≤ length bytes
    → ipv4_transport_checksum_zeroing src dst protocol
        (take n (store at value bytes))
        (checksum_range at)
      ≡ ipv4_transport_checksum_zeroing src dst protocol (take n bytes) (checksum_range at)
ipv4_store src dst protocol at n value bytes room =
    (zeroing_clears src dst protocol (take n (store at value bytes)) (checksum_range at)).1
    ∙ ap (ipv4_transport_checksum src dst protocol) (clear-store at n value bytes room)
    ∙ sym (zeroing_clears src dst protocol (take n bytes) (checksum_range at)).1

ipv6_store :
    (src dst : List ℕ) (protocol at n value : ℕ) (bytes : List ℕ)
    → at + 2 ≤ length bytes
    → ipv6_transport_checksum_zeroing src dst protocol
        (take n (store at value bytes))
        (checksum_range at)
      ≡ ipv6_transport_checksum_zeroing src dst protocol (take n bytes) (checksum_range at)
ipv6_store src dst protocol at n value bytes room =
    (zeroing_clears src dst protocol (take n (store at value bytes)) (checksum_range at)).2
    ∙ ap (ipv6_transport_checksum src dst protocol) (clear-store at n value bytes room)
    ∙ sym (zeroing_clears src dst protocol (take n bytes) (checksum_range at)).2

-- A viewer compares what is stored with what it calculates.
equal-store :
    (at : ℕ) (calculate : List ℕ → ℕ) (bytes : List ℕ)
    → at + 2 ≤ length bytes
    → calculate bytes < 2 ^ 16
    → calculate (store at (calculate bytes) bytes) ≡ calculate bytes
    → (stored at (store at (calculate bytes) bytes) == calculate (store at (calculate bytes) bytes))
      ≡ true
equal-store at calculate bytes room small same =
    rw (same, stored-store at (calculate bytes) bytes room small) (==-refl (calculate bytes))

take_all : (bytes : List ℕ) → take (length bytes) bytes ≡ bytes
take_all [] = refl
take_all (x ∷ xs) = ap (λ (t : List ℕ). x ∷ t) (take_all xs)

whole_store :
    (at value : ℕ) (f : List ℕ → ℕ) (bytes : List ℕ)
    → at + 2 ≤ length bytes
    → f (take (length bytes) (store at value bytes)) ≡ f (take (length bytes) bytes)
    → f (store at value bytes) ≡ f bytes
whole_store at value f bytes room same =
    ap f (
      sym (take_all (store at value bytes))
      ∙ ap (λ (n : ℕ). take n (store at value bytes)) (length-store at value bytes room))
    ∙ same
    ∙ ap f (take_all bytes)

-- An IPv4 header of at least 12 bytes in which the calculated checksum is stored is valid,
-- whatever was stored before.
pub ipv4_validate_checksum-store :
    (bytes : List ℕ)
    → 12 ≤ length bytes
    → ipv4_validate_checksum (store 10 (ipv4_calculate_checksum bytes) bytes) ≡ true
unfolding ipv4_validate_checksum ipv4_calculate_checksum
ipv4_validate_checksum-store bytes room =
    equal-store 10 ipv4_calculate_checksum bytes room (internet_checksum_zeroing-lt _ _) (
      ap₂ (λ (h l : ℕ). internet_checksum_zeroing (take (min (h * 4) l) after) (checksum_range 10))
        (field-store (record { size = 1; mask = 0x0F; shift = 0 }) 0 10 value bytes (omega arith)
          (omega arith))
        (length-store 10 value bytes room)
      ∙ internet_store 10 (min (ipv4_header_len bytes) (length bytes)) value bytes room)
  where
    value : ℕ
    value = ipv4_calculate_checksum bytes

    after : List ℕ
    after = store 10 value bytes

module _ (src dst bytes : List ℕ) where
  -- A TCP segment of at least 18 bytes in which the calculated checksum is stored is valid, over
  -- IPv4 and over IPv6, whatever was stored before.
  pub tcp_validate_checksum-store :
      18 ≤ length bytes
      → (tcp_validate_checksum_ipv4 src dst
            (store 16 (tcp_calculate_checksum_ipv4 src dst bytes) bytes)
          ≡ true)
        × (tcp_validate_checksum_ipv6 src dst
              (store 16 (tcp_calculate_checksum_ipv6 src dst bytes) bytes)
            ≡ true)
  unfolding tcp_validate_checksum_ipv4 tcp_validate_checksum_ipv6 tcp_calculate_checksum_ipv4
      tcp_calculate_checksum_ipv6
  tcp_validate_checksum-store room = (
    equal-store 16 (tcp_calculate_checksum_ipv4 src dst) bytes room
        (ipv4_transport_checksum_zeroing-lt src dst 6 bytes _)
        (whole_store 16 _ (tcp_calculate_checksum_ipv4 src dst) bytes room
          (ipv4_store src dst 6 16 (length bytes) _ bytes room)),
    equal-store 16 (tcp_calculate_checksum_ipv6 src dst) bytes room
        (ipv6_transport_checksum_zeroing-lt src dst 6 bytes _)
        (whole_store 16 _ (tcp_calculate_checksum_ipv6 src dst) bytes room
          (ipv6_store src dst 6 16 (length bytes) _ bytes room)),
  )

  -- An ICMP or ICMPv6 message of at least 4 bytes in which the calculated checksum is stored is
  -- valid, whatever was stored before.
  pub icmp_validate_checksum-store :
      4 ≤ length bytes
      → (icmp_validate_checksum (store 2 (icmp_calculate_checksum bytes) bytes) ≡ true)
        × (icmpv6_validate_checksum src dst
              (store 2 (icmpv6_calculate_checksum src dst bytes) bytes)
            ≡ true)
  unfolding icmp_validate_checksum icmpv6_validate_checksum icmp_calculate_checksum
      icmpv6_calculate_checksum
  icmp_validate_checksum-store room = (
    equal-store 2 icmp_calculate_checksum bytes room (internet_checksum_zeroing-lt bytes _) (
        whole_store 2 _ icmp_calculate_checksum bytes room
          (internet_store 2 (length bytes) _ bytes room)),
    equal-store 2 (icmpv6_calculate_checksum src dst) bytes room
        (ipv6_transport_checksum_zeroing-lt src dst 58 bytes _)
        (whole_store 2 _ (icmpv6_calculate_checksum src dst) bytes room
          (ipv6_store src dst 58 2 (length bytes) _ bytes room)),
  )

enabled-lt : (n : ℕ) → n < 2 ^ 16 → enabled n < 2 ^ 16
enabled-lt n h = ground arith

enabled_positive : (n : ℕ) → 1 ≤ enabled n
enabled_positive n = ground arith

positive-nonzero : (n : ℕ) → 1 ≤ n → (n == 0) ≡ false
positive-nonzero n h = ground arith

or_true : (b c : Bool) → c ≡ true → (b || c) ≡ true
or_true true c h = refl
or_true false c h = h

-- The datagram of a UDP viewer ends where it did, since the length field is in front of the checksum.
udp_store :
    (f : List ℕ → ℕ) (value : ℕ) (bytes : List ℕ)
    → 8 ≤ length bytes
    → ((n : ℕ) → f (take n (store 6 value bytes)) ≡ f (take n bytes))
    → enabled (f (datagram (store 6 value bytes))) ≡ enabled (f (datagram bytes))
udp_store f value bytes room same =
    ap₂ (λ (h l : ℕ). enabled (f (take (min h l) (store 6 value bytes))))
      (field-store (whole 2) 4 6 value bytes (omega arith) (omega arith))
      (length-store 6 value bytes room)
    ∙ ap enabled (same (min (field (whole 2) 4 bytes) (length bytes)))

module _ (src dst bytes : List ℕ) where
  -- A UDP datagram of at least 8 bytes in which the calculated checksum is stored is valid, over
  -- IPv4 and over IPv6, whatever was stored before; and what is calculated for IPv4 is never the
  -- zero that stands for no checksum.
  pub udp_validate_checksum-store :
      8 ≤ length bytes
      → (udp_validate_checksum_ipv4 src dst
            (store 6 (udp_calculate_checksum_ipv4 src dst bytes) bytes)
          ≡ true)
        × (udp_validate_checksum_ipv6 src dst
              (store 6 (udp_calculate_checksum_ipv6 src dst bytes) bytes)
            ≡ true)
        × (1 ≤ udp_calculate_checksum_ipv4 src dst bytes)
  unfolding udp_validate_checksum_ipv4 udp_validate_checksum_ipv6 udp_calculate_checksum_ipv4
      udp_calculate_checksum_ipv6
  udp_validate_checksum-store room = (
    or_true _ _ (
        equal-store 6 (udp_calculate_checksum_ipv4 src dst) bytes room
          (enabled-lt _ (ipv4_transport_checksum_zeroing-lt src dst 17 (datagram bytes) _))
          (udp_store
            (λ (b : List ℕ). ipv4_transport_checksum_zeroing src dst 17 b (checksum_range 6)) _
            bytes room (λ n. ipv4_store src dst 17 6 n _ bytes (omega arith)))),
    equal-store 6 (udp_calculate_checksum_ipv6 src dst) bytes (omega arith)
        (enabled-lt _ (ipv6_transport_checksum_zeroing-lt src dst 17 (datagram bytes) _))
        (udp_store (λ (b : List ℕ). ipv6_transport_checksum_zeroing src dst 17 b (checksum_range 6))
          _ bytes room (λ n. ipv6_store src dst 17 6 n _ bytes (omega arith))),
    enabled_positive
        (ipv4_transport_checksum_zeroing src dst 17 (datagram bytes) (checksum_range 6)),
  )

-- A UDP datagram over IPv4 whose stored checksum is zero is valid.
pub udp_validate_checksum-disabled :
    (src dst bytes : List ℕ)
    → (stored 6 bytes == 0) ≡ true
    → udp_validate_checksum_ipv4 src dst bytes ≡ true
unfolding udp_validate_checksum_ipv4
udp_validate_checksum-disabled src dst bytes h = rw (h, udp_validate_checksum_ipv4) refl

-- The checksum that is calculated over IPv4, once it is stored, is not the zero that stands for none.
pub udp_calculate_checksum-in_use :
    (src dst bytes : List ℕ)
    → 8 ≤ length bytes
    → (stored 6 (store 6 (udp_calculate_checksum_ipv4 src dst bytes) bytes) == 0) ≡ false
unfolding udp_calculate_checksum_ipv4
udp_calculate_checksum-in_use src dst bytes room =
    let sum = ipv4_transport_checksum_zeroing src dst 17 (datagram bytes) (checksum_range 6) in
    let small = enabled-lt sum (ipv4_transport_checksum_zeroing-lt src dst 17 (datagram bytes) _) in
    rw (stored-store 6 (enabled sum) bytes (omega arith) small)
      (positive-nonzero (enabled sum) (enabled_positive sum))
