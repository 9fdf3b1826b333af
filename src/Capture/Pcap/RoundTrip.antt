-- ===== src/Capture/Pcap/RoundTrip.antt =====
-- What `PcapWriter` writes, `PcapSliceReader` reads.
use mathlib.Core.List.{append-nil, append_assoc}
use maja.Base.{
  ℕ, ◌^◌, ◌<◌, ◌≡◌, refl, sym, ap, ◌∙◌, Bool, true, false, none, some, List, [], ◌∷◌, ◌++◌, arith,
  length, length-append, drop, drop-append,
}
use maja.Base.Words.{to_bytes, length-to_bytes}
use maja.Protocol.{LinkType}
use maja.Capture.{ok, is_big, link_type_into}
use maja.Capture.Pcap.{PcapHeader, endian, PcapPacketHeader, parse_header}
use maja.Capture.Pcap.Reader.{
  PcapPacketRecord, SliceReader, open_slice, read_packet_raw, with_reader,
}
use maja.Capture.Pcap.Writer.{Writer, new_writer, new_header, magic_of, write_packet_raw}
use maja.Capture.Pcap.Layout.{parse_header-new_writer}
use maja.Capture.Pcap.Record.{Fits, expected, reading, read_packet_raw-written}

-- A reader that gives one packet after the other, up to the end of the capture.
pub data Reads : SliceReader → List PcapPacketRecord → Type 0 where
  finished : (r : SliceReader) → read_packet_raw r ≡ (ok none, r) → Reads r []
  more :
      (r r' : SliceReader) (found : PcapPacketRecord) (others : List PcapPacketRecord)
      → read_packet_raw r ≡ (ok (some found), r')
      → Reads r' others
      → Reads r (found ∷ others)

abbrev pub write_packets : Writer → List (PcapPacketHeader × List ℕ) → Writer
write_packets w [] = w
write_packets w ((header, bytes) ∷ rest) = write_packets (write_packet_raw w header bytes) rest

abbrev pub expected_all : Writer → List (PcapPacketHeader × List ℕ) → List PcapPacketRecord
expected_all w [] = []
expected_all w ((header, bytes) ∷ rest) =
    expected w header bytes ∷ expected_all (write_packet_raw w header bytes) rest

abbrev pub AllFit : List (PcapPacketHeader × List ℕ) → Type 0
AllFit [] = Unit
AllFit ((header, bytes) ∷ rest) = Fits header × AllFit rest

write_packets-grows :
    (w : Writer) (packets : List (PcapPacketHeader × List ℕ))
    → (suffix : List ℕ) × ((write_packets w packets).written ≡ w.written ++ suffix)
unfolding write_packet_raw
write_packets-grows w [] = ([], sym (append-nil w.written))
write_packets-grows w ((header, bytes) ∷ rest) =
    let later = write_packets-grows (write_packet_raw w header bytes) rest in
    (_, later.1 ∙ append_assoc w.written _ later.0)

at_end :
    (global : PcapHeader) (bytes : List ℕ)
    → read_packet_raw (reading global bytes (length bytes))
      ≡ (ok none, reading global bytes (length bytes))
unfolding read_packet_raw
at_end global bytes =
    let e : drop (length bytes) bytes ≡ [] =
      ap (drop (length bytes)) (sym (append-nil bytes))
      ∙ drop-append (length bytes) bytes [] refl in
    rw e refl

Reads-write_packets :
    (global : PcapHeader) (w : Writer) (packets : List (PcapPacketHeader × List ℕ))
    → w.big_endian ≡ is_big (endian global)
    → AllFit packets
    → Reads
        (reading global (write_packets w packets).written (length w.written))
        (expected_all w packets)
unfolding write_packet_raw
Reads-write_packets global w [] same fit = finished _ (at_end global w.written)
Reads-write_packets global w ((header, bytes) ∷ rest) same fit =
    let later = write_packets-grows (write_packet_raw w header bytes) rest in
    more _ _ _ _ (rw later.1 (read_packet_raw-written global w header bytes later.0 same fit.0))
      (Reads-write_packets global (write_packet_raw w header bytes) rest same fit.1)

length-new_writer :
    (big_endian nanosecond : Bool) (snap_len : ℕ) (link_type : LinkType)
    → length (new_writer big_endian nanosecond snap_len link_type).written ≡ 24
unfolding new_writer
length-new_writer big_endian nanosecond snap_len link_type =
    let magic : List ℕ = to_bytes true 4 (magic_of big_endian nanosecond) in
    let w2 = λ (v : ℕ). to_bytes big_endian 2 v in
    let w4 = λ (v : ℕ). to_bytes big_endian 4 v in
    let r6 : List ℕ = w4 (link_type_into link_type) in
    let r5 : List ℕ = w4 snap_len ++ r6 in
    let r4 : List ℕ = w4 0 ++ r5 in
    let r3 : List ℕ = w4 0 ++ r4 in
    let r2 : List ℕ = w2 4 ++ r3 in
    let r1 : List ℕ = w2 2 ++ r2 in
    omega (
      arith,
      length-append magic r1,
      length-append (w2 2) r2,
      length-append (w2 4) r3,
      length-append (w4 0) r4,
      length-append (w4 0) r5,
      length-append (w4 snap_len) r6,
      length-to_bytes true 4 (magic_of big_endian nanosecond),
      length-to_bytes big_endian 2 2,
      length-to_bytes big_endian 2 4,
      length-to_bytes big_endian 4 0,
      length-to_bytes big_endian 4 snap_len,
      length-to_bytes big_endian 4 (link_type_into link_type),
    )

order-new_header :
    (big_endian nanosecond : Bool) (snap_len : ℕ) (link_type : LinkType)
    → big_endian ≡ is_big (endian (new_header big_endian nanosecond snap_len link_type))
order-new_header true true snap_len link_type = refl
order-new_header true false snap_len link_type = refl
order-new_header false true snap_len link_type = refl
order-new_header false false snap_len link_type = refl

-- A capture that PcapWriter writes, in either byte order and precision, with packets whose header
-- fields are u32s, is opened by PcapSliceReader, which reads one packet after the other up to the
-- end: each with its header, its offset, and its bytes cut to the captured length, the least of
-- the declared, the snapshot and the real length.
pub open_slice-write_packets :
    (big_endian nanosecond : Bool) (snap_len : ℕ) (link_type : LinkType)
    (packets : List (PcapPacketHeader × List ℕ))
    → snap_len < 2 ^ 32
    → link_type_into link_type < 2 ^ 16
    → AllFit packets
    → (reader : SliceReader) × (open_slice
          (write_packets (new_writer big_endian nanosecond snap_len link_type) packets).written
        ≡ ok reader)
      × Reads reader (expected_all (new_writer big_endian nanosecond snap_len link_type) packets)
unfolding open_slice new_writer
open_slice-write_packets big_endian nanosecond snap_len link_type packets h k fit =
    let w : Writer = new_writer big_endian nanosecond snap_len link_type in
    let later = write_packets-grows w packets in
    let all : List ℕ = (write_packets w packets).written in
    let header = new_header big_endian nanosecond snap_len link_type in
    let parsed : parse_header all ≡ ok header =
      ap parse_header later.1
      ∙ parse_header-new_writer nanosecond snap_len link_type later.0 big_endian h k in
    let len : length w.written ≡ 24 = length-new_writer big_endian nanosecond snap_len link_type in
    (
      reading header all 24,
      ap (with_reader all) parsed,
      rw len at (
          Reads-write_packets header w packets
            (order-new_header big_endian nanosecond snap_len link_type) fit),
    )
