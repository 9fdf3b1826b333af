-- ===== src/Capture/Sniffed/Tests.antt =====
-- The captures of the tests of src/capture.rs, and the theorem at one of them.
use maja.Base.{ℕ, ◌≡◌, refl, Option, some, List, [], ◌∷◌}
use maja.Base.Words.{from_bytes}
use maja.Capture.{ℤ, pos, read_u16, read_u32, LocatedPacketRecord}
use maja.Capture.Pcap.{parse_header, parse_packet_header, to_packet}
use maja.Capture.Pcap.Reader.{open_slice, next_packet_with_offset, read_packet_raw}
use maja.Capture.Pcapng
use maja.Capture.Pcapng.{Result, ok, err}
use maja.Capture.Pcapng.Reader
use maja.Capture.Sniffed.{from_magic_bytes, open_sniffed, next_sniffed_with_offset}
use maja.Capture.Sniffed.Accepts.{Accepts, open_sniffed-Accepts}

abbrev pcap_capture : List ℕ
pcap_capture =
    0xd4 ∷ 0xc3 ∷ 0xb2 ∷ 0xa1 ∷ 2 ∷ 0 ∷ 4 ∷ 0 ∷ 0 ∷ 0 ∷ 0 ∷ 0 ∷ 0 ∷ 0 ∷ 0 ∷ 0 ∷ 0xff ∷ 0xff ∷ 0 ∷ 0
    ∷ 1 ∷ 0 ∷ 0 ∷ 0 ∷ 1 ∷ 0 ∷ 0 ∷ 0 ∷ 0xf4 ∷ 1 ∷ 0 ∷ 0 ∷ 4 ∷ 0 ∷ 0 ∷ 0 ∷ 4 ∷ 0 ∷ 0 ∷ 0 ∷ 1 ∷ 2 ∷ 3
    ∷ 4 ∷ []

abbrev first_packet : Result (Option LocatedPacketRecord)
first_packet =
    Pcapng.◌>>=◌ (open_sniffed pcap_capture) (λ reader. (next_sniffed_with_offset reader).0)

abbrev timestamp_of : Result (Option LocatedPacketRecord) → ℤ
timestamp_of (ok (some p)) = p.packet.timestamp
timestamp_of r = pos 0

abbrev offset_of : Result (Option LocatedPacketRecord) → ℕ
offset_of (ok (some p)) = p.offset
offset_of r = 0

-- The test `sniffed_slice_reader`.
sniffs_pcap : (timestamp_of first_packet ≡ pos 1000500000) × (offset_of first_packet ≡ 24)
unfolding open_sniffed from_magic_bytes next_sniffed_with_offset open_slice next_packet_with_offset
    read_packet_raw parse_header parse_packet_header to_packet read_u16 read_u32 from_bytes
sniffs_pcap = (refl, refl)

open_sniffed-Accepts_example :
    Accepts pcap_capture
      (open_slice pcap_capture)
      (Pcapng.Reader.next_block (Pcapng.Reader.open_slice pcap_capture)).0
      (open_sniffed pcap_capture)
open_sniffed-Accepts_example = open_sniffed-Accepts pcap_capture
