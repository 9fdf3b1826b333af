-- ===== src/Reorder.antt =====
-- tools/maja-reordercap/src/main.rs: how a PCAP capture is scanned, sorted and written. The scan of
-- PCAPNG captures, the options and the reports are not modelled.
pub mod Order
pub mod Scanned
pub mod Length
pub mod Written
mod Tests
use maja.Base.{
  ℕ, zero, suc, ◌+◌, ◌-◌, ◌^◌, Bool, true, false, Option, none, some, List, [], ◌∷◌, ◌++◌, map, ltb,
  if◌then◌else◌, length,
}
use maja.Capture.{ℤ, pos, negsuc, CaptureResult, LocatedPacketRecord}
use maja.Capture.Pcap.Reader.{SliceReader, open_slice, next_packet_with_offset}
use maja.Capture.Pcapng.{Result, ok, err, panic, stuck, ◌>>=◌, range}
use maja.Capture.Pcapng.Blocks.{in_i64, plus, neg}

pub record PacketIndex : Type 0 where
  pub timestamp : ℤ
  pub offset : ℕ
  pub record_len : ℕ

pub record Misplaced : Type 0 where
  pub frame : ℕ
  pub timestamp : ℤ
  pub latest_frame : ℕ
  pub backward : ℤ

pub record Scan : Type 0 where
  pub index : List PacketIndex
  pub misplaced : List Misplaced
  pub max_timestamp : ℤ
  pub latest_frame : ℕ

abbrev pub i64_min : ℤ
i64_min = negsuc (2 ^ 63 - 1)

-- `Scan::new`.
abbrev pub new_scan : Scan
new_scan = record { index = []; misplaced = []; max_timestamp = i64_min; latest_frame = 0 }

abbrev pub less : ℤ → ℤ → Bool
less (pos a) (pos b) = ltb a b
less (pos a) (negsuc b) = false
less (negsuc a) (pos b) = true
less (negsuc a) (negsuc b) = ltb b a

abbrev opposite : ℤ → ℤ
opposite (pos n) = neg n
opposite (negsuc n) = pos (suc n)

-- `max_timestamp - timestamp` on `i64`.
abbrev pub difference : ℤ → ℤ → Result ℤ
difference a b = in_i64 (plus a (opposite b))

-- `Scan::push`.
unfoldable pub push : Scan → PacketIndex → ℕ → Result Scan
push s entry frame =
    if less entry.timestamp s.max_timestamp
    then (difference s.max_timestamp entry.timestamp >>= λ backward. ok (record s {
      misplaced =
          s.misplaced
          ++ (record {
            frame = frame;
            timestamp = entry.timestamp;
            latest_frame = s.latest_frame;
            backward = backward;
          }
              ∷ []);
      index = s.index ++ (entry ∷ []);
    }))
    else ok (record s {
      max_timestamp = entry.timestamp;
      latest_frame = frame;
      index = s.index ++ (entry ∷ []);
    })

abbrev pub entry_of : LocatedPacketRecord → PacketIndex
entry_of located = record {
  timestamp = located.packet.timestamp;
  offset = located.offset;
  record_len = length located.raw;
}

abbrev pub on_found :
    CaptureResult (Option LocatedPacketRecord) × SliceReader
    → (LocatedPacketRecord → SliceReader → Result Scan)
    → Scan
    → Result Scan
on_found (CaptureResult.ok none, reader) more s = ok s
on_found (CaptureResult.ok (some located), reader) more s = more located reader
on_found (CaptureResult.err e, reader) more s = err e

-- The loop of `scan_pcap`.
unfoldable pub scan_records : ℕ → SliceReader → Scan → Result Scan
scan_records zero reader s = stuck
scan_records (suc fuel) reader s =
    on_found (next_packet_with_offset reader)
      (λ located reader'.
        push s (entry_of located) (length s.index + 1) >>= λ s'. scan_records fuel reader' s')
      s

pub record SectionScan : Type 0 where
  pub prefix : ℕ × ℕ
  pub late_idbs : List (ℕ × ℕ)
  pub scan : Scan
  pub suffix : List (ℕ × ℕ)

abbrev pub opened : CaptureResult SliceReader → Result SliceReader
opened (CaptureResult.ok reader) = ok reader
opened (CaptureResult.err e) = err e

abbrev pub whole_capture : Scan → List SectionScan
whole_capture s = record { prefix = (0, 24); late_idbs = []; scan = s; suffix = [] } ∷ []

-- `scan_pcap`; one unit of fuel for each byte is enough, since a record takes 16 bytes at least.
unfoldable pub scan_pcap : List ℕ → Result (List SectionScan)
scan_pcap bytes = opened (open_slice bytes) >>= λ reader.
    scan_records (suc (length bytes)) reader new_scan >>= λ s. ok (whole_capture s)

-- A stable sort by the timestamp, as `sort_by_key` is.
abbrev pub insert_entry : PacketIndex → List PacketIndex → List PacketIndex
insert_entry x [] = x ∷ []
insert_entry x (y ∷ ys) =
    let later = y ∷ insert_entry x ys in if less y.timestamp x.timestamp then later else x ∷ y ∷ ys

abbrev pub sort_by_timestamp : List PacketIndex → List PacketIndex
sort_by_timestamp [] = []
sort_by_timestamp (x ∷ xs) = insert_entry x (sort_by_timestamp xs)

abbrev pub sort_section : SectionScan → SectionScan
sort_section section = record section {
  scan = record section.scan { index = sort_by_timestamp section.scan.index };
}

abbrev pub reorder : List SectionScan → List SectionScan
reorder = map sort_section

abbrev pub misplaced_count : List SectionScan → ℕ
misplaced_count [] = 0
misplaced_count (section ∷ sections) = length section.scan.misplaced + misplaced_count sections

-- `write_reordered`, as the bytes that it writes.
abbrev pub copy_all : List ℕ → List (ℕ × ℕ) → Result (List ℕ)
copy_all bytes [] = ok []
copy_all bytes ((offset, len) ∷ rest) = range bytes offset (offset + len) >>= λ copied.
    copy_all bytes rest >>= λ others. ok (copied ++ others)

abbrev pub place : PacketIndex → ℕ × ℕ
place entry = (entry.offset, entry.record_len)

abbrev pub section_places : SectionScan → List (ℕ × ℕ)
section_places section =
    section.prefix ∷ (section.late_idbs ++ (map place section.scan.index ++ section.suffix))

pub write_reordered : List ℕ → List SectionScan → Result (List ℕ)
write_reordered bytes [] = ok []
write_reordered bytes (section ∷ sections) = copy_all bytes (section_places section) >>= λ copied.
    write_reordered bytes sections >>= λ others. ok (copied ++ others)
