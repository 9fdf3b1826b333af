-- ===== src/Capture/Pcap/Reader.antt =====
-- `PcapSliceReader` of src/capture/format/pcap.rs. The reader over a stream is not modelled.
use maja.Base.{ℕ, ◌+◌, Option, none, some, List, ltb, ◌==◌, if◌then◌else◌, length, drop}
use maja.Context.{slice}
use maja.Capture.{truncated_capture, CaptureResult, ok, err, PacketRecord, LocatedPacketRecord}
use maja.Capture.Pcap.{
  PcapHeader, parse_header, endian, is_nanosecond, link_type, PcapPacketHeader, parse_packet_header,
  to_packet,
}

pub record PcapPacketRecord : Type 0 where
  pub offset : ℕ
  pub header : PcapPacketHeader
  pub bytes : List ℕ

-- `PcapSliceReader`.
pub record SliceReader : Type 0 where
  pub header : PcapHeader
  pub bytes : List ℕ
  pub at : ℕ

-- `PcapSliceReader::new`.
abbrev pub with_reader : List ℕ → CaptureResult PcapHeader → CaptureResult SliceReader
with_reader bytes (ok header) = ok (record { header = header; bytes = bytes; at = 24 })
with_reader bytes (err e) = err e

unfoldable pub open_slice : List ℕ → CaptureResult SliceReader
open_slice bytes = with_reader bytes (parse_header bytes)

-- `PcapSliceReader::read_packet_raw`.
unfoldable pub read_packet_raw : SliceReader → CaptureResult (Option PcapPacketRecord) × SliceReader
read_packet_raw reader =
    let remaining = drop reader.at reader.bytes in
    if length remaining == 0
    then (ok none, reader)
    else if ltb (length remaining) 16
    then (err (truncated_capture "pcap packet header"), reader)
    else (let header = parse_packet_header remaining (endian reader.header) in
        let data_start = reader.at + 16 in
        let data_end = data_start + header.incl_len in
        if ltb (length reader.bytes) data_end
        then (err (truncated_capture "pcap packet data"), reader)
        else (
          ok (
              some (record {
                offset = reader.at;
                header = header;
                bytes = slice reader.bytes data_start data_end;
              })),
          record reader { at = data_end },
        ))

abbrev pub map_found :
    {A B : Type 0}
    → (A → B)
    → CaptureResult (Option A) × SliceReader
    → CaptureResult (Option B) × SliceReader
map_found f (ok none, reader) = (ok none, reader)
map_found f (ok (some a), reader) = (ok (some (f a)), reader)
map_found f (err e, reader) = (err e, reader)

abbrev pub packet_of : PcapHeader → PcapPacketRecord → PacketRecord
packet_of header found =
    to_packet found.header found.bytes (is_nanosecond header) (link_type header)

-- `PcapSliceReader::next_packet`.
unfoldable pub next_packet : SliceReader → CaptureResult (Option PacketRecord) × SliceReader
next_packet reader = map_found (packet_of reader.header) (read_packet_raw reader)

-- `PcapSliceReader::next_packet_with_offset`.
unfoldable pub next_packet_with_offset :
    SliceReader → CaptureResult (Option LocatedPacketRecord) × SliceReader
next_packet_with_offset reader =
    map_found
      (λ (found : PcapPacketRecord). record {
        offset = found.offset;
        raw = slice reader.bytes found.offset (found.offset + 16 + length found.bytes);
        packet = packet_of reader.header found;
      })
      (read_packet_raw reader)
