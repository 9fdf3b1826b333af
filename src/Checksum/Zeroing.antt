-- ===== src/Checksum/Zeroing.antt =====
-- The zeroing sums against the plain sums of a copy with the range cleared.
use maja.Base.{ℕ, suc, ◌+◌, ◌≡◌, refl, List, [], ◌∷◌, arith, length, ap}
use maja.Checksum.{
  Range, unless_zeroed, add_words, add_words_zeroing, internet_checksum, internet_checksum_zeroing,
  ipv4_transport_checksum, ipv4_transport_checksum_zeroing, ipv6_transport_checksum,
  ipv6_transport_checksum_zeroing,
}

-- A copy of the bytes, the first of which stands at `index`, with the range cleared.
abbrev pub clear : ℕ → List ℕ → Range → List ℕ
clear index [] zeroed = []
clear index (a ∷ rest) zeroed = unless_zeroed zeroed index a ∷ clear (index + 1) rest zeroed

add_words_zeroing-clear :
    (index sum : ℕ) (bytes : List ℕ) (zeroed : Range)
    → add_words_zeroing index sum bytes zeroed ≡ add_words sum (clear index bytes zeroed)
unfolding add_words_zeroing add_words
add_words_zeroing-clear index sum [] zeroed = refl
add_words_zeroing-clear index sum (a ∷ []) zeroed = refl
add_words_zeroing-clear index sum (a ∷ b ∷ rest) zeroed =
    let two : index + 1 + 1 ≡ index + 2 = omega arith in
    rw two (add_words_zeroing-clear (index + 2) _ rest zeroed)

length-clear :
    (index : ℕ) (bytes : List ℕ) (zeroed : Range) → length (clear index bytes zeroed) ≡ length bytes
length-clear index [] zeroed = refl
length-clear index (a ∷ rest) zeroed = ap suc (length-clear (index + 1) rest zeroed)

-- Each of the three zeroing checksums is the plain checksum of a copy of the bytes in which the
-- range is cleared, for every range.
pub zeroing_clears :
    (src dst : List ℕ) (protocol : ℕ) (bytes : List ℕ) (zeroed : Range)
    → (internet_checksum_zeroing bytes zeroed ≡ internet_checksum (clear 0 bytes zeroed))
      × (ipv4_transport_checksum_zeroing src dst protocol bytes zeroed
          ≡ ipv4_transport_checksum src dst protocol (clear 0 bytes zeroed))
      × (ipv6_transport_checksum_zeroing src dst protocol bytes zeroed
          ≡ ipv6_transport_checksum src dst protocol (clear 0 bytes zeroed))
unfolding internet_checksum_zeroing internet_checksum ipv4_transport_checksum_zeroing
    ipv4_transport_checksum ipv6_transport_checksum_zeroing ipv6_transport_checksum
zeroing_clears src dst protocol bytes zeroed = (
  rw add_words_zeroing-clear,
  rw (add_words_zeroing-clear, length-clear),
  rw (add_words_zeroing-clear, length-clear),
)
