-- ===== src/Reorder/Tests.antt =====
-- A PCAP capture with two packets, the later one first.
use maja.Base.{length, ℕ, ◌≡◌, ◌↔◌, refl, List, [], ◌∷◌, ◌++◌}
use maja.Base.Words.{from_bytes}
use maja.Capture.{read_u16, read_u32}
use maja.Capture.Pcap.{parse_header, parse_packet_header, to_packet}
use maja.Capture.Pcap.Reader.{open_slice, next_packet_with_offset, read_packet_raw}
use maja.Capture.Pcapng.{Result, ok, ◌>>=◌, range}
use maja.Reorder.{
  push, scan_records, scan_pcap, SectionScan, reorder, misplaced_count, write_reordered,
}
use maja.Reorder.Written.{write_reordered-length}
use maja.Reorder.Scanned.{scan_pcap-reorder}

abbrev head : List ℕ
head =
    0xd4 ∷ 0xc3 ∷ 0xb2 ∷ 0xa1 ∷ 2 ∷ 0 ∷ 4 ∷ 0 ∷ 0 ∷ 0 ∷ 0 ∷ 0 ∷ 0 ∷ 0 ∷ 0 ∷ 0 ∷ 0xff ∷ 0xff ∷ 0 ∷ 0
    ∷ 1 ∷ 0 ∷ 0 ∷ 0 ∷ []

abbrev late : List ℕ
late = 2 ∷ 0 ∷ 0 ∷ 0 ∷ 0 ∷ 0 ∷ 0 ∷ 0 ∷ 1 ∷ 0 ∷ 0 ∷ 0 ∷ 1 ∷ 0 ∷ 0 ∷ 0 ∷ 7 ∷ []

abbrev early : List ℕ
early = 1 ∷ 0 ∷ 0 ∷ 0 ∷ 0 ∷ 0 ∷ 0 ∷ 0 ∷ 2 ∷ 0 ∷ 0 ∷ 0 ∷ 2 ∷ 0 ∷ 0 ∷ 0 ∷ 8 ∷ 9 ∷ []

abbrev capture : List ℕ
capture = head ++ (late ++ early)

abbrev sections_of : Result (List SectionScan) → List SectionScan
sections_of (ok sections) = sections
sections_of r = []

abbrev scanned : List SectionScan
scanned = sections_of (scan_pcap capture)

scan_pcap_returns : scan_pcap capture ≡ ok scanned
unfolding scan_pcap scan_records push open_slice next_packet_with_offset read_packet_raw
    parse_header parse_packet_header to_packet read_u16 read_u32 from_bytes
scan_pcap_returns = refl

writes_in_order :
    (scan_pcap capture >>= λ sections. write_reordered capture (reorder sections))
    ≡ ok (head ++ (early ++ late))
unfolding scan_pcap scan_records push write_reordered range open_slice next_packet_with_offset
    read_packet_raw parse_header parse_packet_header to_packet read_u16 read_u32 from_bytes
writes_in_order = refl

scan_pcap-reorder_example : (misplaced_count scanned ≡ 0) ↔ (reorder scanned ≡ scanned)
scan_pcap-reorder_example = scan_pcap-reorder capture scanned scan_pcap_returns

write_reordered-length_example :
    (written : List ℕ) × (write_reordered capture (reorder scanned) ≡ ok written)
    × (length written ≡ length capture)
write_reordered-length_example = write_reordered-length capture scanned scan_pcap_returns
