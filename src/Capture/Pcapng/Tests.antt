-- ===== src/Capture/Pcapng/Tests.antt =====
-- Captures of the tests of src/capture/format/pcapng.rs, and the theorems at concrete captures.
use maja.Base.{Option, ℕ, ◌≡◌, refl, some, List, [], ◌∷◌, ◌++◌, arith}
use maja.Base.Words.{from_bytes}
use maja.Capture.{ℤ, pos, read_u16, read_u32, PacketRecord, LocatedPacketRecord}
use maja.Capture.Pcapng.{Result, ok, range, options, check_block_total_length}
use maja.Capture.Pcapng.Section.{section_fields, parse_section, parse_interface}
use maja.Capture.Pcapng.Blocks.{parse_enhanced, packet_timestamp}
use maja.Capture.Pcapng.Reader.{
  open_slice, SliceReader, block_type, handle, take_block, next_block, packet_loop,
  next_packet_with_offset,
}
use maja.Capture.Pcapng.Scan.{Found, next_packet_with_offset-Found}
use maja.Capture.Pcapng.Stream.{
  open_stream, stream_packet, stream_loop, read_next_block, read_exact, buffered, read_type,
  read_body, packet_kind,
}
use maja.Capture.Pcapng.Blockwise.{streaming}
use maja.Capture.Pcapng.Streamed.{Matches}
use maja.Capture.Pcapng.Agree.{stream_packet-next_packet_with_offset}

abbrev shb : List ℕ
shb =
    0x0A ∷ 0x0D ∷ 0x0D ∷ 0x0A ∷ 0 ∷ 0 ∷ 0 ∷ 0x1C ∷ 0x1A ∷ 0x2B ∷ 0x3C ∷ 0x4D ∷ 0 ∷ 1 ∷ 0 ∷ 0 ∷ 0xFF
    ∷ 0xFF ∷ 0xFF ∷ 0xFF ∷ 0xFF ∷ 0xFF ∷ 0xFF ∷ 0xFF ∷ 0 ∷ 0 ∷ 0 ∷ 0x1C ∷ []

abbrev idb : List ℕ
idb = 0 ∷ 0 ∷ 0 ∷ 1 ∷ 0 ∷ 0 ∷ 0 ∷ 0x14 ∷ 0 ∷ 1 ∷ 0 ∷ 0 ∷ 0 ∷ 0 ∷ 4 ∷ 0 ∷ 0 ∷ 0 ∷ 0 ∷ 0x14 ∷ []

-- The block of the source's tests with the last two bytes of the packet.
abbrev epb : List ℕ
epb =
    0 ∷ 0 ∷ 0 ∷ 6 ∷ 0 ∷ 0 ∷ 0 ∷ 0x24 ∷ 0 ∷ 0 ∷ 0 ∷ 0 ∷ 0 ∷ 3 ∷ 0x7C ∷ 0x58 ∷ 0x75 ∷ 0xE1 ∷ 0x2A
    ∷ 0x94 ∷ 0 ∷ 0 ∷ 0 ∷ 2 ∷ 0 ∷ 0 ∷ 0 ∷ 0x2E ∷ 3 ∷ 4 ∷ 0 ∷ 0 ∷ 0 ∷ 0 ∷ 0 ∷ 0x24 ∷ []

abbrev capture : List ℕ
capture = shb ++ idb ++ epb

abbrev opened : SliceReader
opened = open_slice capture

abbrev offset_of : Result (Option LocatedPacketRecord) → ℕ
offset_of (ok (some p)) = p.offset
offset_of r = 0

abbrev timestamp_of : Result (Option LocatedPacketRecord) → ℤ
timestamp_of (ok (some p)) = p.packet.timestamp
timestamp_of r = pos 0

abbrev stream_timestamp_of : Result (Option PacketRecord) → ℤ
stream_timestamp_of (ok (some p)) = p.timestamp
stream_timestamp_of r = pos 0

finds_offset : offset_of (next_packet_with_offset opened).0 ≡ 48
unfolding packet_loop next_block take_block handle block_type parse_section section_fields
    parse_interface parse_enhanced packet_timestamp options check_block_total_length range read_u16
    read_u32 from_bytes
finds_offset = refl

finds_timestamp : timestamp_of (next_packet_with_offset opened).0 ≡ pos 981144306789012000
unfolding packet_loop next_block take_block handle block_type parse_section section_fields
    parse_interface parse_enhanced packet_timestamp options check_block_total_length range read_u16
    read_u32 from_bytes
finds_timestamp = refl

next_packet_with_offset-Found_example :
    Found opened (next_packet_with_offset opened).0 (next_packet_with_offset opened).1
next_packet_with_offset-Found_example = next_packet_with_offset-Found opened (omega arith)

stream_finds_timestamp :
    stream_timestamp_of (stream_packet (open_stream capture)).0 ≡ pos 981144306789012000
unfolding stream_loop read_next_block read_exact buffered read_type read_body packet_kind
    parse_section section_fields parse_interface parse_enhanced packet_timestamp options
    check_block_total_length range read_u16 read_u32 from_bytes
stream_finds_timestamp = refl

stream_packet-next_packet_with_offset_example :
    Matches (next_packet_with_offset opened) (stream_packet (streaming opened []))
stream_packet-next_packet_with_offset_example =
    stream_packet-next_packet_with_offset opened [] (omega arith)
