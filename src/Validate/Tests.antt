-- ===== src/Validate/Tests.antt =====
-- The checksum methods at concrete packets.
use maja.Base.{ℕ, ◌≡◌, refl, true, false, List, [], ◌∷◌, ◌++◌, replicate}
use maja.Base.Words.{to_bytes}
use maja.Checksum.{
  internet_checksum_zeroing, ipv4_transport_checksum_zeroing, fold_checksum, add_words_zeroing,
  add_words,
}
use maja.Layers.{field}
use maja.Validate.{
  store, ipv4_calculate_checksum, ipv4_validate_checksum, tcp_validate_checksum_ipv4,
  tcp_calculate_checksum_ipv4, udp_validate_checksum_ipv4,
}

abbrev header : List ℕ
header =
    0x45 ∷ 0 ∷ 0 ∷ 20 ∷ 0 ∷ 0 ∷ 0 ∷ 0 ∷ 64 ∷ 17 ∷ 0xAB ∷ 0xCD ∷ 10 ∷ 0 ∷ 0 ∷ 1 ∷ 10 ∷ 0 ∷ 0 ∷ 2 ∷ []

abbrev src : List ℕ
src = 10 ∷ 0 ∷ 0 ∷ 1 ∷ []

abbrev dst : List ℕ
dst = 10 ∷ 0 ∷ 0 ∷ 2 ∷ []

abbrev segment : List ℕ
segment =
    0x01 ∷ 0xBB ∷ 0xC0 ∷ 0 ∷ replicate 8 7 ++ (0x50 ∷ 0x18 ∷ 1 ∷ 0 ∷ 0 ∷ 0 ∷ 0 ∷ 0 ∷ 1 ∷ 2 ∷ 3 ∷ [])

abbrev datagram_bytes : List ℕ
datagram_bytes = 0x30 ∷ 0x39 ∷ 0 ∷ 0x35 ∷ 0 ∷ 0x0a ∷ 0 ∷ 0 ∷ b'h' ∷ b'i' ∷ 0 ∷ []

header_fails : ipv4_validate_checksum header ≡ false
unfolding ipv4_validate_checksum field ipv4_calculate_checksum internet_checksum_zeroing
    fold_checksum add_words_zeroing
header_fails = refl

header_holds : ipv4_validate_checksum (store 10 0x66d7 header) ≡ true
unfolding ipv4_validate_checksum field store to_bytes ipv4_calculate_checksum
    internet_checksum_zeroing fold_checksum add_words_zeroing
header_holds = refl

-- A zero is no checksum over IPv4.
datagram_unchecked : udp_validate_checksum_ipv4 src dst datagram_bytes ≡ true
unfolding udp_validate_checksum_ipv4 field
datagram_unchecked = refl

segment_fails : tcp_validate_checksum_ipv4 src dst segment ≡ false
unfolding tcp_validate_checksum_ipv4 field tcp_calculate_checksum_ipv4
    ipv4_transport_checksum_zeroing fold_checksum add_words_zeroing add_words
segment_fails = refl
