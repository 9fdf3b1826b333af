-- ===== src/Validate.antt =====
-- The checksum methods of the viewers: ip/v4.rs, tcp.rs, udp.rs, icmp.rs and icmpv6.rs of
-- src/packet/layer.
pub mod Store
pub mod Stored
mod Tests
use maja.Base.{
  ℕ, suc, ◌+◌, ◌*◌, min, Bool, true, ◌||◌, List, ◌++◌, ◌==◌, if◌then◌else◌, length, take, drop,
}
use maja.Base.Words.{to_bytes}
use maja.Field.{FieldSpec, whole}
use maja.Checksum.{
  Range, internet_checksum_zeroing, ipv4_transport_checksum_zeroing,
  ipv6_transport_checksum_zeroing,
}
use maja.Layers.{field}

-- `FIELD_CHECKSUM`: the two octets from `at` on.
abbrev pub checksum_range : ℕ → Range
checksum_range at = record { start = at; end = at + 2 }

abbrev pub stored : ℕ → List ℕ → ℕ
stored at bytes = field (whole 2) at bytes

-- `checksum_mut().set(value)`.
unfoldable pub store : ℕ → ℕ → List ℕ → List ℕ
store at value bytes = take at bytes ++ (to_bytes true 2 value ++ drop (suc (suc at)) bytes)

-- `Ipv4Viewer`.
abbrev pub ipv4_header_len : List ℕ → ℕ
ipv4_header_len bytes = field (record { size = 1; mask = 0x0F; shift = 0 }) 0 bytes * 4

unfoldable pub ipv4_calculate_checksum : List ℕ → ℕ
ipv4_calculate_checksum bytes =
    internet_checksum_zeroing (take (min (ipv4_header_len bytes) (length bytes)) bytes)
      (checksum_range 10)

pub ipv4_validate_checksum : List ℕ → Bool
ipv4_validate_checksum bytes = stored 10 bytes == ipv4_calculate_checksum bytes

-- `TcpViewer`, with the addresses of the pseudo header.
pub tcp_calculate_checksum_ipv4 : List ℕ → List ℕ → List ℕ → ℕ
tcp_calculate_checksum_ipv4 src dst bytes =
    ipv4_transport_checksum_zeroing src dst 6 bytes (checksum_range 16)

pub tcp_validate_checksum_ipv4 : List ℕ → List ℕ → List ℕ → Bool
tcp_validate_checksum_ipv4 src dst bytes =
    stored 16 bytes == tcp_calculate_checksum_ipv4 src dst bytes

pub tcp_calculate_checksum_ipv6 : List ℕ → List ℕ → List ℕ → ℕ
tcp_calculate_checksum_ipv6 src dst bytes =
    ipv6_transport_checksum_zeroing src dst 6 bytes (checksum_range 16)

pub tcp_validate_checksum_ipv6 : List ℕ → List ℕ → List ℕ → Bool
tcp_validate_checksum_ipv6 src dst bytes =
    stored 16 bytes == tcp_calculate_checksum_ipv6 src dst bytes

-- `UdpViewer`: the length field bounds the datagram, and a checksum of zero is sent as 0xffff.
abbrev pub datagram : List ℕ → List ℕ
datagram bytes = take (min (field (whole 2) 4 bytes) (length bytes)) bytes

abbrev pub enabled : ℕ → ℕ
enabled checksum = if checksum == 0 then 0xffff else checksum

unfoldable pub udp_calculate_checksum_ipv4 : List ℕ → List ℕ → List ℕ → ℕ
udp_calculate_checksum_ipv4 src dst bytes =
    enabled (ipv4_transport_checksum_zeroing src dst 17 (datagram bytes) (checksum_range 6))

-- On IPv4 a stored zero means that there is no checksum.
pub udp_validate_checksum_ipv4 : List ℕ → List ℕ → List ℕ → Bool
udp_validate_checksum_ipv4 src dst bytes =
    stored 6 bytes == 0 || stored 6 bytes == udp_calculate_checksum_ipv4 src dst bytes

pub udp_calculate_checksum_ipv6 : List ℕ → List ℕ → List ℕ → ℕ
udp_calculate_checksum_ipv6 src dst bytes =
    enabled (ipv6_transport_checksum_zeroing src dst 17 (datagram bytes) (checksum_range 6))

pub udp_validate_checksum_ipv6 : List ℕ → List ℕ → List ℕ → Bool
udp_validate_checksum_ipv6 src dst bytes =
    stored 6 bytes == udp_calculate_checksum_ipv6 src dst bytes

-- `IcmpViewer` and `Icmpv6Viewer`.
pub icmp_calculate_checksum : List ℕ → ℕ
icmp_calculate_checksum bytes = internet_checksum_zeroing bytes (checksum_range 2)

pub icmp_validate_checksum : List ℕ → Bool
icmp_validate_checksum bytes = stored 2 bytes == icmp_calculate_checksum bytes

pub icmpv6_calculate_checksum : List ℕ → List ℕ → List ℕ → ℕ
icmpv6_calculate_checksum src dst bytes =
    ipv6_transport_checksum_zeroing src dst 58 bytes (checksum_range 2)

pub icmpv6_validate_checksum : List ℕ → List ℕ → List ℕ → Bool
icmpv6_validate_checksum src dst bytes = stored 2 bytes == icmpv6_calculate_checksum src dst bytes
