-- ===== src/Checksum/Tests.antt =====
-- Runs of the checksum functions, and the theorems at concrete packets.
use maja.Base.{ℕ, ◌-◌, ◌≡◌, refl, Bool, true, ◌&&◌, ltb, List, [], ◌∷◌, ◌++◌, arith}
use maja.Base.Words.{to_be16, AllBytes}
use maja.Checksum.{
  Range, add_words, add_words_zeroing, fold_checksum, internet_checksum, internet_checksum_zeroing,
  ipv4_transport_checksum, ipv4_transport_checksum_zeroing, ipv6_transport_checksum,
  ipv6_transport_checksum_zeroing,
}
use maja.Checksum.Verify.{internet_checksum_verifies}
use maja.Checksum.Fold.{fold_checksum_lem, ones_complement}
use maja.Checksum.Zeroing.{zeroing_clears, clear}
use maja.Checksum.Pseudo.{
  ipv4_pseudo_header, ipv4_pseudo_header_checksum, ipv6_pseudo_header, ipv6_pseudo_header_checksum,
}

-- The tests of checksum.rs.
pads_odd_length_inputs : internet_checksum (0x12 ∷ 0x34 ∷ 0x56 ∷ []) ≡ 0x97cb
unfolding internet_checksum add_words fold_checksum
pads_odd_length_inputs = refl

treats_range_as_zero :
    internet_checksum_zeroing
      (0x12 ∷ 0x34 ∷ 0xff ∷ 0xff ∷ 0x56 ∷ [])
      (record { start = 2; end = 4 })
    ≡ internet_checksum (0x12 ∷ 0x34 ∷ 0 ∷ 0 ∷ 0x56 ∷ [])
unfolding internet_checksum internet_checksum_zeroing add_words add_words_zeroing fold_checksum
treats_range_as_zero = refl

abbrev src : List ℕ
src = 192 ∷ 0 ∷ 2 ∷ 1 ∷ []

abbrev dst : List ℕ
dst = 192 ∷ 0 ∷ 2 ∷ 2 ∷ []

abbrev datagram : List ℕ
datagram = 0x30 ∷ 0x39 ∷ 0 ∷ 0x35 ∷ 0 ∷ 0x0a ∷ 0 ∷ 0 ∷ b'h' ∷ b'i' ∷ []

includes_pseudo_header : ipv4_transport_checksum src dst 17 datagram ≡ 0xe2fe
unfolding ipv4_transport_checksum add_words fold_checksum
includes_pseudo_header = refl

abbrev head : List ℕ
head = 0x45 ∷ 0 ∷ 0 ∷ 0x20 ∷ 0 ∷ 0 ∷ 0 ∷ 0 ∷ 0x40 ∷ 0x11 ∷ []

abbrev back : List ℕ
back = 127 ∷ 0 ∷ 0 ∷ 1 ∷ 127 ∷ 0 ∷ 0 ∷ 2 ∷ []

internet_checksum_verifies_example :
    internet_checksum (head ++ (to_be16 (internet_checksum (head ++ (0 ∷ 0 ∷ back))) ++ back)) ≡ 0
internet_checksum_verifies_example =
    internet_checksum_verifies head back tt (omega arith) (omega arith) (omega arith)

ipv4_pseudo_header_checksum_example :
    ipv4_transport_checksum src dst 17 datagram
    ≡ internet_checksum (ipv4_pseudo_header src dst 17 10 ++ datagram)
ipv4_pseudo_header_checksum_example =
    ipv4_pseudo_header_checksum src dst 17 datagram tt tt (omega arith)

ipv6_pseudo_header_checksum_example :
    ipv6_transport_checksum (src ++ src) dst 17 datagram
    ≡ internet_checksum (ipv6_pseudo_header (src ++ src) dst 17 10 ++ datagram)
ipv6_pseudo_header_checksum_example =
    ipv6_pseudo_header_checksum (src ++ src) dst 17 datagram tt tt (omega arith)

abbrev all_bytes : List ℕ → Bool
all_bytes [] = true
all_bytes (b ∷ bs) = ltb b 256 && all_bytes bs

all_bytes-AllBytes : (bs : List ℕ) → all_bytes bs ≡ true → AllBytes bs
all_bytes-AllBytes [] h = tt
all_bytes-AllBytes (b ∷ bs) h = (ground arith, all_bytes-AllBytes bs (ground arith))

fold_checksum_lem_example : fold_checksum 0x2ddf0 ≡ 65535 - ones_complement 0x2ddf0
fold_checksum_lem_example = fold_checksum_lem 0x2ddf0

abbrev checksum_field : Range
checksum_field = record { start = 6; end = 8 }

zeroing_clears_example :
    (internet_checksum_zeroing datagram checksum_field
      ≡ internet_checksum (clear 0 datagram checksum_field))
    × (ipv4_transport_checksum_zeroing src dst 17 datagram checksum_field
        ≡ ipv4_transport_checksum src dst 17 (clear 0 datagram checksum_field))
    × (ipv6_transport_checksum_zeroing src dst 17 datagram checksum_field
        ≡ ipv6_transport_checksum src dst 17 (clear 0 datagram checksum_field))
zeroing_clears_example = zeroing_clears src dst 17 datagram checksum_field
