-- ===== src/Capture/Pcap/Writer.antt =====
-- `PcapWriter` of src/capture/format/pcap.rs, into memory: its writes succeed.
use maja.Base.{ℕ, ◌+◌, ◌-◌, ◌/◌, ◌%◌, ◌^◌, min, Bool, true, List, ◌++◌, if◌then◌else◌, length, take}
use maja.Base.Words.{to_bytes}
use maja.Protocol.{LinkType}
use maja.Capture.{ℤ, pos, negsuc, link_type_into, PacketRecord}
use maja.Capture.Pcap.{PcapHeader, be_usec, be_nsec, le_usec, le_nsec, PcapPacketHeader}

-- `PcapWriter`, with what it has written.
pub record Writer : Type 0 where
  pub header : PcapHeader
  pub big_endian : Bool
  pub nanosecond : Bool
  pub written : List ℕ

abbrev pub magic_of : Bool → Bool → ℕ
magic_of big_endian nanosecond =
    if big_endian
    then (if nanosecond then be_nsec else be_usec)
    else (if nanosecond then le_nsec else le_usec)

abbrev pub new_header : Bool → Bool → ℕ → LinkType → PcapHeader
new_header big_endian nanosecond snap_len link_type = record {
  magic_number = magic_of big_endian nanosecond;
  major_version = 2;
  minor_version = 4;
  reserved_1 = 0;
  reserved_2 = 0;
  snap_len = snap_len;
  additional_info_link_type = link_type_into link_type;
}

-- `PcapWriter::new`: the magic number is written in network byte order.
unfoldable pub new_writer : Bool → Bool → ℕ → LinkType → Writer
new_writer big_endian nanosecond snap_len link_type =
    let header = new_header big_endian nanosecond snap_len link_type in
    record {
      header = header;
      big_endian = big_endian;
      nanosecond = nanosecond;
      written =
          to_bytes true 4 header.magic_number
          ++ (to_bytes big_endian 2 header.major_version
              ++ (to_bytes big_endian 2 header.minor_version
                  ++ (to_bytes big_endian 4 header.reserved_1
                      ++ (to_bytes big_endian 4 header.reserved_2
                          ++ (to_bytes big_endian 4 header.snap_len
                              ++ to_bytes big_endian 4 header.additional_info_link_type)))));
    }

-- The least of the declared, the snapshot and the real length, the last one as a `u32`.
abbrev pub captured : Writer → PcapPacketHeader → List ℕ → ℕ
captured writer header bytes =
    min header.incl_len (min writer.header.snap_len (length bytes % 2 ^ 32))

-- `PcapWriter::write_packet_raw`.
unfoldable pub write_packet_raw : Writer → PcapPacketHeader → List ℕ → Writer
write_packet_raw writer header bytes =
    let incl_len = captured writer header bytes in
    record writer {
      written =
          writer.written
          ++ (to_bytes writer.big_endian 4 header.ts_sec
              ++ (to_bytes writer.big_endian 4 header.ts_usec
                  ++ (to_bytes writer.big_endian 4 incl_len
                      ++ (to_bytes writer.big_endian 4 header.orig_len ++ take incl_len bytes))));
    }

-- `(timestamp / 1_000_000_000) as u32` and the remainder: the division truncates towards zero.
abbrev pub seconds : ℤ → ℕ
seconds (pos n) = n / 1000000000 % 2 ^ 32
seconds (negsuc n) = (2 ^ 32 - (n + 1) / 1000000000 % 2 ^ 32) % 2 ^ 32

abbrev pub nanoseconds : ℤ → ℕ
nanoseconds (pos n) = n % 1000000000
nanoseconds (negsuc n) = (2 ^ 32 - (n + 1) % 1000000000) % 2 ^ 32

-- The header that `PcapWriter::write_packet` makes.
abbrev pub header_of : Bool → PacketRecord → PcapPacketHeader
header_of nanosecond packet =
    let ts_nsec = nanoseconds packet.timestamp in
    record {
      ts_sec = seconds packet.timestamp;
      ts_usec = if nanosecond then ts_nsec else ts_nsec / 1000;
      incl_len = length packet.bytes % 2 ^ 32;
      orig_len = packet.original_length;
    }

-- `PcapWriter::write_packet`.
unfoldable pub write_packet : Writer → PacketRecord → Writer
unfolding write_packet_raw
write_packet writer packet =
    write_packet_raw writer (header_of writer.nanosecond packet) packet.bytes
