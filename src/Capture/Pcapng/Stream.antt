-- ===== src/Capture/Pcapng/Stream.antt =====
-- `PcapngReader` of src/capture/format/pcapng.rs over a reader of bytes in memory, which gives the
-- bytes that it has left, and fails at their end.
use maja.Base.{
  ℕ, zero, suc, ◌-◌, Option, none, some, List, [], ◌∷◌, ◌++◌, ltb, leb, ◌==◌, true, if◌then◌else◌,
  length, get_elem?, take, drop,
}
use maja.Base.Words.{from_bytes}
use maja.Capture.{
  Endian, read_u32, unexpected_eof, invalid_pcapng_block_total_length, PacketRecord,
  missing_pcapng_interface_description_block, invalid_pcapng_packet_interface_id,
}
use maja.Capture.Pcapng
use maja.Capture.Pcapng.{Result, ok, err, panic, stuck}
use maja.Capture.Pcapng.Section.{
  SectionHeader, parse_section, InterfaceDescription, parse_interface, magic_endian,
}
use maja.Capture.Pcapng.Blocks.{
  SimplePacketHeader, parse_simple, simple_record, EnhancedPacketHeader, parse_enhanced,
  enhanced_record,
}
use maja.Capture.Pcapng.Reader.{
  Block, section_header, interface_description, simple_packet, enhanced_packet, raw_block,
  section_type, section_block_type,
}

pub record StreamReader : Type 0 where
  pub section : Option SectionHeader
  pub interfaces : List InterfaceDescription
  pub rest : List ℕ
  pub buffer : List ℕ

-- `PcapngReader::new`.
abbrev pub open_stream : List ℕ → StreamReader
open_stream bytes = record { section = none; interfaces = []; rest = bytes; buffer = [] }

abbrev pub M : Type 0 → Type 0
M A = StreamReader → Result A × StreamReader

abbrev pub and_then : {A B : Type 0} → (A → M B) → Result A × StreamReader → Result B × StreamReader
and_then next (ok a, reader) = next a reader
and_then next (err e, reader) = (err e, reader)
and_then next (panic, reader) = (panic, reader)
and_then next (stuck, reader) = (stuck, reader)

infixl 5 ◌>>=◌ ◌>>◌
abbrev pub ◌>>=◌ : {A B : Type 0} → M A → (A → M B) → M B
◌>>=◌ m next reader = and_then next (m reader)

abbrev pub ◌>>◌ : {B : Type 0} → M (Unit {0}) → M B → M B
m >> next = m >>= λ done. next

abbrev pub pure : {A : Type 0} → A → M A
pure a reader = (ok a, reader)

-- `Read::read_exact`.
unfoldable pub read_exact : ℕ → M (List ℕ)
read_exact n reader =
    if leb n (length reader.rest)
    then (ok (take n reader.rest), record reader { rest = drop n reader.rest })
    else (err unexpected_eof, record reader { rest = [] })

abbrev pub extend : List ℕ → M (Unit {0})
extend bytes reader = (ok tt, record reader { buffer = reader.buffer ++ bytes })

-- Bytes that are read into the buffer. What a failed read leaves there is cleared before it is used.
unfoldable pub buffered : ℕ → M (List ℕ)
buffered n = do bytes ← read_exact n; extend bytes; pure bytes

abbrev pub clear : M (Unit {0})
clear reader = (ok tt, record reader { buffer = [] })

-- The type of the block and the byte order of its length; a section header carries its own.
unfoldable pub read_type : List ℕ → M (ℕ × Endian)
read_type kind reader =
    if from_bytes true kind == section_type
    then (do magic ← buffered 4; pure (section_type, magic_endian magic)) reader
    else (section_block_type reader.section kind, reader)

unfoldable pub read_body : ℕ → M (List ℕ)
read_body total reader =
    if ltb total (length reader.buffer)
    then (err (invalid_pcapng_block_total_length total), reader)
    else buffered (total - length reader.buffer) reader

-- The first read of a block, at whose failure the stream has ended.
abbrev pub or_end :
    (List ℕ → M (Option ℕ)) → Result (List ℕ) × StreamReader → Result (Option ℕ) × StreamReader
or_end next (ok kind, reader) = next kind reader
or_end next (err unexpected_eof, reader) = (ok none, reader)
or_end next (err e, reader) = (err e, reader)
or_end next (panic, reader) = (panic, reader)
or_end next (stuck, reader) = (stuck, reader)

-- `PcapngReader::read_next_block`.
abbrev pub read_whole : List ℕ → M (Option ℕ)
read_whole kind = do
  clear
  extend kind
  len ← buffered 4
  found ← read_type kind
  body ← read_body (read_u32 found.1 len)
  pure (some found.0)

unfoldable pub read_next_block : M (Option ℕ)
read_next_block reader = or_end read_whole (read_exact 4 reader)

-- A parser of the buffer in the byte order of the section, which must be there.
abbrev pub expect_section :
    {A : Type 0} → (List ℕ → Endian → Result A) → List ℕ → Option SectionHeader → Result A
expect_section parse buffer none = panic
expect_section parse buffer (some s) = parse buffer s.endian

abbrev pub in_section : {A : Type 0} → (List ℕ → Endian → Result A) → M A
in_section parse reader = (expect_section parse reader.buffer reader.section, reader)

abbrev pub set_section : SectionHeader → M (Unit {0})
set_section s reader = (ok tt, record reader { section = some s })

abbrev pub push_interface : InterfaceDescription → M (Unit {0})
push_interface i reader = (ok tt, record reader { interfaces = reader.interfaces ++ (i ∷ []) })

abbrev pub parse_buffer : {A : Type 0} → (List ℕ → Result A) → M A
parse_buffer parse reader = (parse reader.buffer, reader)

unfoldable pub handle_block : ℕ → M Block
handle_block kind =
    if kind == section_type
    then (do s ← parse_buffer parse_section; set_section s; pure (section_header s))
    else if kind == 1
    then (do i ← in_section parse_interface; push_interface i; pure (interface_description i))
    else if kind == 3
    then (do found ← in_section parse_simple; pure (simple_packet found.0 found.1))
    else if kind == 6
    then (do found ← in_section parse_enhanced; pure (enhanced_packet found.0 found.1))
    else (λ reader. (ok (raw_block kind (drop 8 reader.buffer)), reader))

abbrev pub block_step : Option ℕ → M (Option Block)
block_step none = pure none
block_step (some kind) = do b ← handle_block kind; pure (some b)

-- `PcapngReader::next_block`.
unfoldable pub next_block : M (Option Block)
next_block = read_next_block >>= block_step

-- The record of a packet, with its interface, where there is one.
abbrev pub simple_entry :
    SimplePacketHeader → List ℕ → Option InterfaceDescription → Result (Option PacketRecord)
simple_entry header bytes none = err missing_pcapng_interface_description_block
simple_entry header bytes (some i) = ok (some (simple_record header i bytes))

abbrev pub enhanced_entry :
    EnhancedPacketHeader → List ℕ → Option InterfaceDescription → Result (Option PacketRecord)
enhanced_entry header bytes none = err (invalid_pcapng_packet_interface_id header.interface_id)
enhanced_entry header bytes (some i) =
    Pcapng.◌>>=◌ (enhanced_record header i bytes) (λ p. ok (some p))

abbrev pub simple_step : SimplePacketHeader × List ℕ → M (Option PacketRecord)
simple_step (header, bytes) reader =
    (simple_entry header bytes (get_elem? reader.interfaces 0), reader)

abbrev pub enhanced_step : EnhancedPacketHeader × List ℕ → M (Option PacketRecord)
enhanced_step (header, bytes) reader =
    (enhanced_entry header bytes (get_elem? reader.interfaces header.interface_id), reader)

unfoldable pub packet_kind : M (Option PacketRecord) → ℕ → M (Option PacketRecord)
packet_kind more kind =
    if kind == section_type
    then (do s ← parse_buffer parse_section; set_section s; more)
    else if kind == 1
    then (do i ← in_section parse_interface; push_interface i; more)
    else if kind == 3
    then (do found ← in_section parse_simple; simple_step found)
    else if kind == 6
    then (do found ← in_section parse_enhanced; enhanced_step found)
    else more

abbrev pub packet_step : M (Option PacketRecord) → Option ℕ → M (Option PacketRecord)
packet_step more none = pure none
packet_step more (some kind) = packet_kind more kind

-- The loop of `PcapngReader::next_packet`; a block takes eight bytes of the stream at least.
unfoldable pub stream_loop : ℕ → M (Option PacketRecord)
stream_loop zero reader = (stuck, reader)
stream_loop (suc fuel) reader = and_then (packet_step (stream_loop fuel)) (read_next_block reader)

abbrev pub stream_packet : M (Option PacketRecord)
stream_packet reader = stream_loop (suc (length reader.rest)) reader
