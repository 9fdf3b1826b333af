-- ===== src/Capture/Pcapng/Reader.antt =====
-- `PcapngSliceReader` of src/capture/format/pcapng.rs. A block type is its number.
use maja.Base.{
  ℕ, zero, suc, ◌+◌, Option, none, some, List, [], ◌∷◌, ◌++◌, ltb, ◌==◌, true, ◌||◌, if◌then◌else◌,
  length, get_elem?, take, drop,
}
use maja.Base.Words.{from_bytes}
use maja.Context.{slice}
use maja.Capture.{
  Endian, read_u32, truncated_capture, invalid_magic_number,
  missing_pcapng_interface_description_block, invalid_pcapng_packet_interface_id, PacketRecord,
  LocatedPacketRecord,
}
use maja.Capture.Pcapng.{Result, ok, err, panic, stuck, ◌>>=◌}
use maja.Capture.Pcapng.Section.{
  SectionHeader, parse_section, InterfaceDescription, parse_interface, magic_endian,
}
use maja.Capture.Pcapng.Blocks.{
  SimplePacketHeader, parse_simple, simple_record, EnhancedPacketHeader, parse_enhanced,
  enhanced_record,
}

pub data Block : Type 0 where
  section_header : SectionHeader → Block
  interface_description : InterfaceDescription → Block
  simple_packet : SimplePacketHeader → List ℕ → Block
  enhanced_packet : EnhancedPacketHeader → List ℕ → Block
  raw_block : ℕ → List ℕ → Block

pub record BlockRecord : Type 0 where
  pub offset : ℕ
  pub raw : List ℕ
  pub block : Block

pub record SliceReader : Type 0 where
  pub section : Option SectionHeader
  pub interfaces : List InterfaceDescription
  pub bytes : List ℕ
  pub at : ℕ

-- `PcapngSliceReader::new`.
abbrev pub open_slice : List ℕ → SliceReader
open_slice bytes = record { section = none; interfaces = []; bytes = bytes; at = 0 }

abbrev pub section_type : ℕ
section_type = 0x0A0D0D0A

-- Outside a section a block other than a section header has no byte order.
abbrev pub section_block_type : Option SectionHeader → List ℕ → Result (ℕ × Endian)
section_block_type none remaining = err (invalid_magic_number (from_bytes true (take 4 remaining)))
section_block_type (some s) remaining = ok (read_u32 s.endian (take 4 remaining), s.endian)

-- The type of the next block and the byte order of its length.
unfoldable pub block_type : Option SectionHeader → List ℕ → Result (ℕ × Endian)
block_type section remaining =
    if from_bytes true (take 4 remaining) == section_type
    then ok (section_type, magic_endian (slice remaining 8 12))
    else section_block_type section remaining

-- A section header and an interface are kept by the reader.
abbrev pub keep_section : SliceReader → Result SectionHeader → Result Block × SliceReader
keep_section reader (ok s) = (ok (section_header s), record reader { section = some s })
keep_section reader (err e) = (err e, reader)
keep_section reader panic = (panic, reader)
keep_section reader stuck = (stuck, reader)

abbrev pub keep_interface : SliceReader → Result InterfaceDescription → Result Block × SliceReader
keep_interface reader (ok i) =
    (ok (interface_description i), record reader { interfaces = reader.interfaces ++ (i ∷ []) })
keep_interface reader (err e) = (err e, reader)
keep_interface reader panic = (panic, reader)
keep_interface reader stuck = (stuck, reader)

-- What a block does to the reader, which stands behind the block already.
unfoldable pub handle : ℕ → Endian → List ℕ → SliceReader → Result Block × SliceReader
handle kind endian raw reader =
    if kind == section_type
    then keep_section reader (parse_section raw)
    else if kind == 1
    then keep_interface reader (parse_interface raw endian)
    else if kind == 3
    then (parse_simple raw endian >>= λ found. ok (simple_packet found.0 found.1), reader)
    else if kind == 6
    then (parse_enhanced raw endian >>= λ found. ok (enhanced_packet found.0 found.1), reader)
    else (ok (raw_block kind (drop 8 raw)), reader)

-- The block of a known type and length.
unfoldable pub take_block :
    ℕ × Endian → List ℕ → SliceReader → Result (Option BlockRecord) × SliceReader
take_block (kind, endian) remaining reader =
    let total = read_u32 endian (slice remaining 4 8) in
    let raw = take total remaining in
    let (block, reader') = handle kind endian raw (record reader { at = reader.at + total }) in
    if ltb total 12 || ltb (length remaining) total
    then (err (truncated_capture "pcapng block"), reader)
    else (block >>= λ b. ok (some (record { offset = reader.at; raw = raw; block = b })), reader')

-- The block whose type may have been found.
abbrev pub take_typed :
    List ℕ → SliceReader → Result (ℕ × Endian) → Result (Option BlockRecord) × SliceReader
take_typed remaining reader (ok found) = take_block found remaining reader
take_typed remaining reader (err e) = (err e, reader)
take_typed remaining reader panic = (panic, reader)
take_typed remaining reader stuck = (stuck, reader)

-- `PcapngSliceReader::next_block`.
unfoldable pub next_block : SliceReader → Result (Option BlockRecord) × SliceReader
next_block reader =
    let remaining = drop reader.at reader.bytes in
    if length remaining == 0
    then (ok none, reader)
    else if ltb (length remaining) 12
    then (err (truncated_capture "pcapng block"), reader)
    else take_typed remaining reader (block_type reader.section remaining)

abbrev pub located : BlockRecord → Result PacketRecord → Result (Option LocatedPacketRecord)
located found packet =
    packet >>= λ p. ok (some (record { offset = found.offset; raw = found.raw; packet = p }))

-- The packet of a packet block, with its interface, where there is one.
abbrev pub simple_found :
    SimplePacketHeader
    → List ℕ
    → BlockRecord
    → Option InterfaceDescription
    → Result (Option LocatedPacketRecord)
simple_found header bytes found none = err missing_pcapng_interface_description_block
simple_found header bytes found (some i) = located found (ok (simple_record header i bytes))

abbrev pub enhanced_found :
    EnhancedPacketHeader
    → List ℕ
    → BlockRecord
    → Option InterfaceDescription
    → Result (Option LocatedPacketRecord)
enhanced_found header bytes found none =
    err (invalid_pcapng_packet_interface_id header.interface_id)
enhanced_found header bytes found (some i) = located found (enhanced_record header i bytes)

-- What follows a block: the packet, or the rest of the loop.
abbrev pub after_block :
    SliceReader
    → BlockRecord
    → Block
    → Result (Option LocatedPacketRecord) × SliceReader
    → Result (Option LocatedPacketRecord) × SliceReader
after_block reader found (simple_packet header bytes) rest =
    (simple_found header bytes found (get_elem? reader.interfaces 0), reader)
after_block reader found (enhanced_packet header bytes) rest =
    (enhanced_found header bytes found (get_elem? reader.interfaces header.interface_id), reader)
after_block reader found (section_header s) rest = rest
after_block reader found (interface_description i) rest = rest
after_block reader found (raw_block kind bytes) rest = rest

abbrev pub continue_with :
    Result (Option BlockRecord) × SliceReader
    → (SliceReader → Result (Option LocatedPacketRecord) × SliceReader)
    → Result (Option LocatedPacketRecord) × SliceReader
continue_with (ok none, reader) more = (ok none, reader)
continue_with (err e, reader) more = (err e, reader)
continue_with (panic, reader) more = (panic, reader)
continue_with (stuck, reader) more = (stuck, reader)
continue_with (ok (some found), reader) more = after_block reader found found.block (more reader)

-- The loop of `PcapngSliceReader::next_packet_with_offset`.
unfoldable pub packet_loop : ℕ → SliceReader → Result (Option LocatedPacketRecord) × SliceReader
packet_loop zero reader = (stuck, reader)
packet_loop (suc fuel) reader = continue_with (next_block reader) (packet_loop fuel)

-- One unit of fuel for each byte is enough, since every block takes twelve bytes at least.
abbrev pub next_packet_with_offset : SliceReader → Result (Option LocatedPacketRecord) × SliceReader
next_packet_with_offset reader = packet_loop (suc (length reader.bytes)) reader

-- `PcapngSliceReader::next_packet`.
abbrev packet_only :
    Result (Option LocatedPacketRecord) × SliceReader → Result (Option PacketRecord) × SliceReader
packet_only (ok none, reader) = (ok none, reader)
packet_only (ok (some found), reader) = (ok (some found.packet), reader)
packet_only (err e, reader) = (err e, reader)
packet_only (panic, reader) = (panic, reader)
packet_only (stuck, reader) = (stuck, reader)

abbrev pub next_packet : SliceReader → Result (Option PacketRecord) × SliceReader
next_packet reader = packet_only (next_packet_with_offset reader)
