-- ===== src/Capture/Pcap.antt =====
-- src/capture/format/pcap.rs: the global header and the packet header.
pub mod Reader
pub mod Writer
pub mod Layout
pub mod Timestamp
pub mod Record
pub mod RoundTrip
mod Tests
use maja.Base.{
  ℕ, ◌+◌, ◌-◌, ◌*◌, ◌/◌, ◌%◌, ◌^◌, min, Bool, true, false, ◌||◌, Option, none, some, List, [], ◌∷◌,
  ◌++◌, ltb, ◌==◌, if◌then◌else◌, length, take, drop,
}
use maja.Base.Words.{from_bytes, to_bytes}
use maja.Protocol.{LinkType}
use maja.Context.{slice}
use maja.Capture.{
  ℤ, pos, negsuc, CaptureError, truncated_capture, invalid_magic_number, CaptureResult, ok, err,
  Endian, big, little, is_big, read_u16, read_u32, link_type_from, link_type_into, PacketRecord,
  LocatedPacketRecord, Interface, power_of_ten,
}

abbrev pub be_usec : ℕ
be_usec = 0xA1B2C3D4

abbrev pub be_nsec : ℕ
be_nsec = 0xA1B23C4D

abbrev pub le_usec : ℕ
le_usec = 0xD4C3B2A1

abbrev pub le_nsec : ℕ
le_nsec = 0x4D3CB2A1

pub record PcapHeader : Type 0 where
  pub magic_number : ℕ
  pub major_version : ℕ
  pub minor_version : ℕ
  pub reserved_1 : ℕ
  pub reserved_2 : ℕ
  pub snap_len : ℕ
  pub additional_info_link_type : ℕ

-- The byte order that a magic number stands for.
abbrev pub endian_of : ℕ → Option Endian
endian_of magic_number =
    if magic_number == be_usec || magic_number == be_nsec
    then some big
    else if magic_number == le_usec || magic_number == le_nsec
    then some little
    else none

abbrev pub header_fields : ℕ → Endian → List ℕ → PcapHeader
header_fields magic_number endian bytes = record {
  magic_number = magic_number;
  major_version = read_u16 endian (drop 4 bytes);
  minor_version = read_u16 endian (drop 6 bytes);
  reserved_1 = read_u32 endian (drop 8 bytes);
  reserved_2 = read_u32 endian (drop 12 bytes);
  snap_len = read_u32 endian (drop 16 bytes);
  additional_info_link_type = read_u32 endian (drop 20 bytes);
}

abbrev pub header_result : ℕ → List ℕ → Option Endian → CaptureResult PcapHeader
header_result magic_number bytes none = err (invalid_magic_number magic_number)
header_result magic_number bytes (some endian) = ok (header_fields magic_number endian bytes)

-- `PcapHeader::parse`.
unfoldable pub parse_header : List ℕ → CaptureResult PcapHeader
parse_header bytes =
    if ltb (length bytes) 24
    then err (truncated_capture "pcap global header")
    else (let magic_number = from_bytes true (take 4 bytes) in
        header_result magic_number bytes (endian_of magic_number))

abbrev pub is_big_endian : PcapHeader → Bool
is_big_endian header = header.magic_number == be_usec || header.magic_number == be_nsec

abbrev pub is_nanosecond : PcapHeader → Bool
is_nanosecond header = header.magic_number == be_nsec || header.magic_number == le_nsec

abbrev pub endian : PcapHeader → Endian
endian header = if is_big_endian header then big else little

abbrev pub link_type : PcapHeader → LinkType
link_type header = link_type_from (header.additional_info_link_type % 2 ^ 16)

pub to_interface : PcapHeader → Interface
to_interface header = record {
  link_type = link_type header;
  snap_len = header.snap_len;
  resolution = power_of_ten (if is_nanosecond header then 9 else 6);
}

pub record PcapPacketHeader : Type 0 where
  pub ts_sec : ℕ
  pub ts_usec : ℕ
  pub incl_len : ℕ
  pub orig_len : ℕ

-- `PcapPacketHeader::parse`.
unfoldable pub parse_packet_header : List ℕ → Endian → PcapPacketHeader
parse_packet_header bytes endian = record {
  ts_sec = read_u32 endian (drop 0 bytes);
  ts_usec = read_u32 endian (drop 4 bytes);
  incl_len = read_u32 endian (drop 8 bytes);
  orig_len = read_u32 endian (drop 12 bytes);
}

-- `PcapPacketHeader::to_packet`; the product is one of `u32`.
unfoldable pub to_packet : PcapPacketHeader → List ℕ → Bool → LinkType → PacketRecord
to_packet header bytes nanosecond link_type =
    let ts_nsec = if nanosecond then header.ts_usec else header.ts_usec * 1000 % 2 ^ 32 in
    record {
      timestamp = pos (header.ts_sec * 1000000000 + ts_nsec);
      original_length = header.orig_len;
      bytes = bytes;
      link_type = link_type;
    }
