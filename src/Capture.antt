-- ===== src/Capture.antt =====
-- src/capture: endian.rs, the records of packet.rs and interface.rs, the numbers of link_type.rs, and
-- the errors of src/capture.rs that the slice reader returns.
pub mod Pcap
pub mod Pcapng
pub mod Sniffed
use Prim.Native.String.{String}
use maja.Base.{ℕ, Bool, true, false, List, take, ◌==◌, if◌then◌else◌}
use maja.Base.Words.{from_bytes}
use maja.Protocol.{LinkType, ethernet, linux_sll, other}

-- `i64`.
pub data ℤ : Type 0 where
  pos negsuc : ℕ → ℤ

pub data CaptureError : Type 0 where
  truncated_capture : String → CaptureError
  invalid_magic_number : ℕ → CaptureError
  from_utf8 try_from_slice missing_pcapng_interface_description_block : CaptureError
  invalid_pcapng_packet_interface_id : ℕ → CaptureError
  unexpected_eof : CaptureError
  invalid_pcapng_block_total_length : ℕ → CaptureError
  pcapng_block_total_length_mismatch : String → ℕ → ℕ → CaptureError

pub data CaptureResult (A : Type 0) : Type 0 where
  ok : A → CaptureResult A
  err : CaptureError → CaptureResult A

pub data Endian : Type 0 where
  big little : Endian

abbrev pub is_big : Endian → Bool
is_big big = true
is_big little = false

unfoldable pub read_u16 : Endian → List ℕ → ℕ
unfolding from_bytes
read_u16 endian bytes = from_bytes (is_big endian) (take 2 bytes)

unfoldable pub read_u32 : Endian → List ℕ → ℕ
unfolding from_bytes
read_u32 endian bytes = from_bytes (is_big endian) (take 4 bytes)

-- The conversions between `u16` and `LinkType`; a number without a parser stays what it is.
abbrev pub link_type_from : ℕ → LinkType
link_type_from n =
    if n == 1
    then ethernet
    else if n == 101
    then LinkType.raw
    else if n == 113
    then linux_sll
    else if n == 228
    then LinkType.ipv4
    else if n == 229
    then LinkType.ipv6
    else other n

abbrev pub link_type_into : LinkType → ℕ
link_type_into ethernet = 1
link_type_into LinkType.raw = 101
link_type_into linux_sll = 113
link_type_into LinkType.ipv4 = 228
link_type_into LinkType.ipv6 = 229
link_type_into (other n) = n

-- The timestamp counts nanoseconds.
pub record PacketRecord : Type 0 where
  pub timestamp : ℤ
  pub original_length : ℕ
  pub bytes : List ℕ
  pub link_type : LinkType

pub record LocatedPacketRecord : Type 0 where
  pub offset : ℕ
  pub raw : List ℕ
  pub packet : PacketRecord

pub data Resolution : Type 0 where
  power_of_two power_of_ten : ℕ → Resolution

pub record Interface : Type 0 where
  pub link_type : LinkType
  pub snap_len : ℕ
  pub resolution : Resolution
