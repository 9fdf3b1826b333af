-- ===== src/Capture/Sniffed.antt =====
-- src/capture.rs: the format of a capture, and the reader over a slice that detects it.
pub mod Accepts
mod Tests
use maja.Base.{
  ℕ, Bool, true, false, ◌||◌, Option, none, some, List, map, ltb, ◌==◌, if◌then◌else◌, length, take,
  [], ◌∷◌,
}
use maja.Base.Words.{from_bytes}
use maja.Capture.{
  CaptureError, CaptureResult, truncated_capture, invalid_magic_number, PacketRecord,
  LocatedPacketRecord, Interface,
}
use maja.Capture.Pcap.{be_usec, be_nsec, le_usec, le_nsec, to_interface}
use maja.Capture.Pcap.Reader.{open_slice, next_packet, next_packet_with_offset, SliceReader}
use maja.Capture.Pcapng
use maja.Capture.Pcapng.{Result, ok, err}
use maja.Capture.Pcapng.Section
use maja.Capture.Pcapng.Reader

pub data CaptureFormat : Type 0 where
  pcap pcapng : CaptureFormat

-- `CaptureFormat::from_magic_bytes`.
abbrev pub is_pcap_magic : ℕ → Bool
is_pcap_magic n = n == be_usec || n == be_nsec || n == le_usec || n == le_nsec

unfoldable pub from_magic_bytes : List ℕ → Result CaptureFormat
from_magic_bytes magic =
    let magic_number = from_bytes true magic in
    if is_pcap_magic magic_number
    then ok pcap
    else if magic_number == Pcapng.Reader.section_type
    then ok pcapng
    else err (invalid_magic_number magic_number)

-- `SniffedSliceReader`.
pub data SniffedSliceReader : Type 0 where
  over_pcap : SliceReader → SniffedSliceReader
  over_pcapng : Pcapng.Reader.SliceReader → SniffedSliceReader

abbrev pub opened_pcap : CaptureResult SliceReader → Result SniffedSliceReader
opened_pcap (CaptureResult.ok reader) = ok (over_pcap reader)
opened_pcap (CaptureResult.err e) = err e

abbrev pub open_format : List ℕ → CaptureFormat → Result SniffedSliceReader
open_format bytes pcap = opened_pcap (open_slice bytes)
open_format bytes pcapng = ok (over_pcapng (Pcapng.Reader.open_slice bytes))

-- `SniffedSliceReader::new`.
unfoldable pub open_sniffed : List ℕ → Result SniffedSliceReader
open_sniffed bytes =
    if ltb (length bytes) 4
    then err (truncated_capture "capture file header")
    else Pcapng.◌>>=◌ (from_magic_bytes (take 4 bytes)) (open_format bytes)

-- `SniffedSliceReader::format`.
pub format : SniffedSliceReader → CaptureFormat
format (over_pcap reader) = pcap
format (over_pcapng reader) = pcapng

abbrev lift : {A : Type 0} → CaptureResult A × SliceReader → Result A × SniffedSliceReader
lift (CaptureResult.ok a, reader) = (ok a, over_pcap reader)
lift (CaptureResult.err e, reader) = (err e, over_pcap reader)

abbrev lift_pcapng :
    {A : Type 0} → Result A × Pcapng.Reader.SliceReader → Result A × SniffedSliceReader
lift_pcapng (r, reader) = (r, over_pcapng reader)

-- `SniffedSliceReader::next_packet`.
pub next_sniffed : SniffedSliceReader → Result (Option PacketRecord) × SniffedSliceReader
next_sniffed (over_pcap reader) = lift (next_packet reader)
next_sniffed (over_pcapng reader) = lift_pcapng (Pcapng.Reader.next_packet reader)

-- `SniffedSliceReader::next_packet_with_offset`.
unfoldable pub next_sniffed_with_offset :
    SniffedSliceReader → Result (Option LocatedPacketRecord) × SniffedSliceReader
next_sniffed_with_offset (over_pcap reader) = lift (next_packet_with_offset reader)
next_sniffed_with_offset (over_pcapng reader) =
    lift_pcapng (Pcapng.Reader.next_packet_with_offset reader)

-- `interfaces` of `CaptureReader`.
pub interfaces : SniffedSliceReader → List Interface
interfaces (over_pcap reader) = to_interface reader.header ∷ []
interfaces (over_pcapng reader) = map Pcapng.Section.to_interface reader.interfaces
