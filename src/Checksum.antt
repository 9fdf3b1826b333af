-- ===== src/Checksum.antt =====
-- src/packet/utils/checksum.rs: the Internet checksum over byte slices.
-- A byte slice is a list of numbers, and the `u32` accumulator wraps at 2 ^ 32.

pub mod Sum
pub mod Verify
pub mod Zeroing
pub mod Bounds
pub mod Pseudo
mod Tests
pub mod Fold
use maja.Base.{ℕ, ◌+◌, ◌-◌, ◌*◌, ◌/◌, ◌%◌, ◌^◌, ◌≤◌, ◌<◌, List, [], ◌∷◌, Bool, ◌&&◌, not, arith}
use maja.Base.{ltb, leb, length, dec_lt, if◌then◌else◌}
use maja.Base.Words.{be16}
use maja.Base.Order.{lt_wf}
use mathlib.Core.Logic.{dite}
use mathlib.Core.WellFounded.{Acc}

-- `*sum += u32::from(word)`.
abbrev pub add_word : ℕ → ℕ → ℕ
add_word sum word = (sum + word) % 2 ^ 32

-- `data.chunks(2)`: an odd last byte is the high byte of its word.
unfoldable pub add_words : ℕ → List ℕ → ℕ
add_words sum [] = sum
add_words sum (a ∷ []) = add_word sum (be16 a 0)
add_words sum (a ∷ b ∷ rest) = add_words (add_word sum (be16 a b)) rest

-- A Rust `Range<usize>`.
pub record Range : Type 0 where
  pub start : ℕ
  pub end : ℕ

abbrev pub contains : Range → ℕ → Bool
contains r index = leb r.start index && ltb index r.end

-- The byte at `index`, or zero inside of `zeroed`.
abbrev pub unless_zeroed : Range → ℕ → ℕ → ℕ
unless_zeroed zeroed index byte = if contains zeroed index then 0 else byte

-- `index` is the position of the first byte of the list: `(0..data.len()).step_by(2)`.
unfoldable pub add_words_zeroing : ℕ → ℕ → List ℕ → Range → ℕ
add_words_zeroing index sum [] zeroed = sum
add_words_zeroing index sum (a ∷ []) zeroed = add_word sum (be16 (unless_zeroed zeroed index a) 0)
add_words_zeroing index sum (a ∷ b ∷ rest) zeroed =
    add_words_zeroing (index + 2)
      (add_word sum (be16 (unless_zeroed zeroed index a) (unless_zeroed zeroed (index + 1) b))) rest
      zeroed

pub fold_shrinks : (sum : ℕ) → 0 < sum / 2 ^ 16 → sum % 2 ^ 16 + sum / 2 ^ 16 < sum
fold_shrinks sum h = omega arith

-- `while sum >> 16 != 0 { sum = (sum & 0xffff) + (sum >> 16); }`
pub fold_loop : (sum : ℕ) → Acc ◌<◌ sum → ℕ
fold_loop sum (Acc.intro _ smaller) =
    dite (dec_lt 0 (sum / 2 ^ 16))
      (λ more. fold_loop (sum % 2 ^ 16 + sum / 2 ^ 16) (smaller _ (fold_shrinks sum more)))
      (λ _. sum)

-- `!(sum as u16)` of the folded sum.
unfoldable pub fold_checksum : ℕ → ℕ
unfolding fold_loop lt_wf dec_lt
fold_checksum sum = 2 ^ 16 - 1 - fold_loop sum (lt_wf.apply sum) % 2 ^ 16

pub internet_checksum : List ℕ → ℕ
internet_checksum bytes = fold_checksum (add_words 0 bytes)

unfoldable pub internet_checksum_zeroing : List ℕ → Range → ℕ
internet_checksum_zeroing bytes zeroed = fold_checksum (add_words_zeroing 0 0 bytes zeroed)

-- The sum of the IPv4 pseudo header, before the segment is added.
abbrev pub ipv4_pseudo_sum : List ℕ → List ℕ → ℕ → List ℕ → ℕ
ipv4_pseudo_sum src dst protocol segment =
    add_word (add_word (add_words (add_words 0 src) dst) protocol) (length segment % 2 ^ 32)

-- `src` and `dst` are the four octets of the addresses.
pub ipv4_transport_checksum : List ℕ → List ℕ → ℕ → List ℕ → ℕ
ipv4_transport_checksum src dst protocol segment =
    fold_checksum (add_words (ipv4_pseudo_sum src dst protocol segment) segment)

unfoldable pub ipv4_transport_checksum_zeroing : List ℕ → List ℕ → ℕ → List ℕ → Range → ℕ
ipv4_transport_checksum_zeroing src dst protocol segment zeroed =
    fold_checksum (add_words_zeroing 0 (ipv4_pseudo_sum src dst protocol segment) segment zeroed)

abbrev pub ipv6_pseudo_sum : List ℕ → List ℕ → ℕ → List ℕ → ℕ
ipv6_pseudo_sum src dst next_header segment =
    add_word (add_word (add_words (add_words 0 src) dst) (length segment % 2 ^ 32)) next_header

-- `src` and `dst` are the sixteen octets of the addresses.
pub ipv6_transport_checksum : List ℕ → List ℕ → ℕ → List ℕ → ℕ
ipv6_transport_checksum src dst next_header segment =
    fold_checksum (add_words (ipv6_pseudo_sum src dst next_header segment) segment)

pub ipv6_transport_checksum_zeroing : List ℕ → List ℕ → ℕ → List ℕ → Range → ℕ
ipv6_transport_checksum_zeroing src dst next_header segment zeroed =
    fold_checksum (add_words_zeroing 0 (ipv6_pseudo_sum src dst next_header segment) segment zeroed)
