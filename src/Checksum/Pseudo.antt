-- ===== src/Checksum/Pseudo.antt =====
-- The transport checksums against the Internet checksum over a pseudo header spelled out in bytes.
use maja.Base.{ℕ, ◌+◌, ◌*◌, ◌/◌, ◌%◌, ◌^◌, ◌<◌, ◌≡◌, List, [], ◌∷◌, ◌++◌, arith, length}
use maja.Base.Words.{to_be16, to_be32}
use mathlib.Core.List.{append_assoc}
use maja.Checksum.{
  add_words, internet_checksum, ipv4_pseudo_sum, ipv4_transport_checksum, ipv6_pseudo_sum,
  ipv6_transport_checksum,
}
use maja.Checksum.Fold.{ones_complement_carry, fold_checksum_lem}
use maja.Checksum.Sum.{word_sum, IsEven, add_words-word_sum, add_words-append, word_sum-append}

-- RFC 768 and RFC 9293: source, destination, a zero byte, the protocol and the 16-bit length.
abbrev pub ipv4_pseudo_header : List ℕ → List ℕ → ℕ → ℕ → List ℕ
ipv4_pseudo_header src dst protocol len = src ++ (dst ++ (0 ∷ protocol ∷ to_be16 len))

-- RFC 8200: source, destination, the 32-bit length, three zero bytes and the next header.
abbrev pub ipv6_pseudo_header : List ℕ → List ℕ → ℕ → ℕ → List ℕ
ipv6_pseudo_header src dst next_header len =
    src ++ (dst ++ (to_be32 len ++ (0 ∷ 0 ∷ 0 ∷ next_header ∷ [])))

-- For a segment below 65536 bytes, the IPv4 transport checksum is the Internet checksum of the
-- pseudo header, spelled out in bytes, and the segment. The addresses are of an even length.
pub ipv4_pseudo_header_checksum :
    (src dst : List ℕ) (protocol : ℕ) (segment : List ℕ)
    → IsEven src
    → IsEven dst
    → length segment < 2 ^ 16
    → ipv4_transport_checksum src dst protocol segment
      ≡ internet_checksum (ipv4_pseudo_header src dst protocol (length segment) ++ segment)
unfolding ipv4_transport_checksum internet_checksum
ipv4_pseudo_header_checksum src dst protocol segment es ed fits =
    let len = length segment in
    let tail : List ℕ = 0 ∷ protocol ∷ to_be16 len in
    let sum = add_words (add_words 0 src) dst in
    let sums : ipv4_pseudo_sum src dst protocol segment ≡ add_words sum tail =
      unfold add_words in omega arith in
    rw (
      append_assoc src (dst ++ tail) segment,
      append_assoc dst tail segment,
      add_words-append 0 src (dst ++ (tail ++ segment)) es,
      add_words-append (add_words 0 src) dst (tail ++ segment) ed,
      add_words-append sum tail segment tt,
      sums,
    )

word_sum-ipv6_pseudo_header :
    (src dst : List ℕ) (next_header len : ℕ)
    → IsEven src
    → IsEven dst
    → len < 2 ^ 32
    → word_sum (ipv6_pseudo_header src dst next_header len)
      ≡ word_sum src + word_sum dst + len / 65536 + len % 65536 + next_header
word_sum-ipv6_pseudo_header src dst next_header len es ed fits =
    let tail : List ℕ = to_be32 len ++ (0 ∷ 0 ∷ 0 ∷ next_header ∷ []) in
    omega (arith, word_sum-append src (dst ++ tail) es, word_sum-append dst tail ed)

IsEven-append : (xs ys : List ℕ) → IsEven xs → IsEven ys → IsEven (xs ++ ys)
IsEven-append [] ys h k = k
IsEven-append (a ∷ []) ys h k = absurd h
IsEven-append (a ∷ b ∷ xs) ys h k = IsEven-append xs ys h k

-- As long as the 32-bit sum cannot wrap, the IPv6 transport checksum, which adds the length to the
-- sum as one number, is the Internet checksum of the pseudo header with its 32-bit length field,
-- spelled out in bytes, and the segment.
pub ipv6_pseudo_header_checksum :
    (src dst : List ℕ) (next_header : ℕ) (segment : List ℕ)
    → IsEven src
    → IsEven dst
    → word_sum src + word_sum dst + length segment + next_header + word_sum segment < 2 ^ 32
    → ipv6_transport_checksum src dst next_header segment
      ≡ internet_checksum (ipv6_pseudo_header src dst next_header (length segment) ++ segment)
unfolding ipv6_transport_checksum internet_checksum
ipv6_pseudo_header_checksum src dst next_header segment es ed fits =
    let len = length segment in
    let header = ipv6_pseudo_header src dst next_header len in
    let even : IsEven header = IsEven-append src _ es (IsEven-append dst _ ed tt) in
    let rest = word_sum src + word_sum dst + len % 65536 + next_header + word_sum segment in
    let pseudo : ipv6_pseudo_sum src dst next_header segment
        ≡ word_sum src + word_sum dst + len + next_header =
      rw
        (
          add_words-word_sum 0 src (omega arith),
          add_words-word_sum (0 + word_sum src) dst (omega arith),
        )
        (omega arith) in
    let code : add_words (ipv6_pseudo_sum src dst next_header segment) segment
        ≡ rest + 65536 * (len / 65536) =
      rw
        (
          pseudo,
          add_words-word_sum (word_sum src + word_sum dst + len + next_header) segment
              (omega arith),
        )
        (omega arith) in
    let bytes : add_words 0 (header ++ segment) ≡ rest + len / 65536 = omega (
      arith,
      add_words-word_sum 0 (header ++ segment),
      word_sum-append header segment even,
      word_sum-ipv6_pseudo_header src dst next_header len es ed,
    ) in
    rw (
      code,
      bytes,
      fold_checksum_lem (rest + 65536 * (len / 65536)),
      fold_checksum_lem (rest + len / 65536),
      ones_complement_carry,
    )
