-- ===== src/Checksum/Bounds.antt =====
-- Every checksum is one of 16 bits.
use maja.Base.{ℕ, ◌^◌, ◌<◌, List, arith}
use maja.Checksum.{
  Range, fold_checksum, internet_checksum_zeroing, ipv4_transport_checksum_zeroing,
  ipv6_transport_checksum_zeroing,
}
use maja.Checksum.Fold.{fold_checksum_lem}

fold_checksum-lt : (sum : ℕ) → fold_checksum sum < 2 ^ 16
fold_checksum-lt sum = omega (arith, fold_checksum_lem sum)

pub internet_checksum_zeroing-lt :
    (bytes : List ℕ) (zeroed : Range) → internet_checksum_zeroing bytes zeroed < 2 ^ 16
unfolding internet_checksum_zeroing
internet_checksum_zeroing-lt bytes zeroed = fold_checksum-lt _

module _ (src dst : List ℕ) (protocol : ℕ) (bytes : List ℕ) (zeroed : Range) where
  pub ipv4_transport_checksum_zeroing-lt :
      ipv4_transport_checksum_zeroing src dst protocol bytes zeroed < 2 ^ 16
  unfolding ipv4_transport_checksum_zeroing
  ipv4_transport_checksum_zeroing-lt = fold_checksum-lt _

  pub ipv6_transport_checksum_zeroing-lt :
      ipv6_transport_checksum_zeroing src dst protocol bytes zeroed < 2 ^ 16
  unfolding ipv6_transport_checksum_zeroing
  ipv6_transport_checksum_zeroing-lt = fold_checksum-lt _
