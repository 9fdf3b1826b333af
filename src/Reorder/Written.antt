-- ===== src/Reorder/Written.antt =====
-- What tools/maja-reordercap/src/main.rs writes is as long as what it read.
use mathlib.Core.Path.{subst}
use mathlib.Core.List.{append-nil}
use maja.Base.{
  ℕ, zero, suc, ◌+◌, ◌≤◌, ◌≡◌, refl, sym, ap, ◌∙◌, true, Bool-cases, inl, inr, Option, none, some,
  List, [], ◌∷◌, ◌++◌, map, arith, le→leb, ltb, length, length-append, leb, take,
}
use maja.Base.Words.{from_bytes}
use maja.Context.{slice}
use maja.Capture.{CaptureResult, Endian}
use maja.Capture.Pcap.{endian_of, header_result, parse_header}
use maja.Capture.Pcap.Reader.{
  SliceReader, PcapPacketRecord, read_packet_raw, packet_of, map_found, next_packet_with_offset,
  open_slice, with_reader,
}
use maja.Capture.Pcapng.Decided.{ok_inj, ok_of_bind}
use maja.Capture.Pcapng.{ok, ◌>>=◌, range}
use maja.Reorder.{
  Scan, SectionScan, entry_of, on_found, scan_records, new_scan, opened, whole_capture, scan_pcap,
  reorder, write_reordered, push, PacketIndex, sort_by_timestamp, place,
}
use maja.Reorder.Length.{
  total, Fits, total-append, total-sort, Fits-sort, copy_all-total, Tile, length-slice,
  read_packet_raw-Tile, push-index, Fits-append,
}

-- The entries take all bytes between the global header and the reader.
record Laid (bytes : List ℕ) (reader : SliceReader) (s : Scan) : Type 0 where
  same : reader.bytes ≡ bytes
  sum : 24 + total s.index ≡ reader.at
  fits : Fits (length bytes) s.index
  inside : reader.at ≤ length bytes

scan_records-total :
    (fuel : ℕ) (bytes : List ℕ) (reader : SliceReader) (s s' : Scan)
    → Laid bytes reader s
    → scan_records fuel reader s ≡ ok s'
    → (24 + total s'.index ≡ length bytes) × Fits (length bytes) s'.index
unfolding scan_records next_packet_with_offset
scan_records-total zero bytes reader s s' l e = absurd (cc)
scan_records-total (suc fuel) bytes reader s s' l e =
    go (read_packet_raw reader) (scan_records-total fuel bytes)
      (read_packet_raw-Tile reader (omega (arith, len, l.inside))) e
  where
    len : length reader.bytes ≡ length bytes
    len = ap (λ (xs : List ℕ). length xs) l.same

    raw_length :
        (found : PcapPacketRecord) (reader' : SliceReader)
        → Tile reader (CaptureResult.ok (some found), reader')
        → length (slice reader.bytes found.offset (found.offset + 16 + length found.bytes))
          ≡ 16 + length found.bytes
    raw_length found reader' tile =
        length-slice reader.bytes found.offset (found.offset + 16 + length found.bytes)
          (omega arith) (omega (arith, tile.0, tile.2, tile.3))
        ∙ omega arith

    laid :
        (found : PcapPacketRecord) (reader' : SliceReader)
        → Tile reader (CaptureResult.ok (some found), reader')
        → (s1 : Scan) (x : PacketIndex) → x.record_len ≡ 16 + length found.bytes
        → x.offset ≡ found.offset
        → s1.index ≡ s.index ++ (x ∷ [])
        → Laid bytes reader' s1
    laid found reader' tile s1 x n place index = record {
      same = tile.1 ∙ l.same;
      sum = omega (arith, ap total index, total-append s.index x, n, l.sum, tile.2);
      fits = subst (Fits (length bytes)) (sym index) (
          Fits-append (length bytes) s.index x l.fits
            (omega (arith, n, place, len, tile.0, tile.2, tile.3)));
      inside = omega (arith, tile.3, len);
    }

    go :
        (r : CaptureResult (Option PcapPacketRecord) × SliceReader)
        → ((reader' : SliceReader) (s1 s2 : Scan)
            → Laid bytes reader' s1
            → scan_records fuel reader' s1 ≡ ok s2
            → (24 + total s2.index ≡ length bytes) × Fits (length bytes) s2.index)
        → Tile reader r
        → on_found
            (map_found
              (λ (found : PcapPacketRecord). record {
                offset = found.offset;
                raw = slice reader.bytes found.offset (found.offset + 16 + length found.bytes);
                packet = packet_of reader.header found;
              })
              r)
            (λ located reader'.
              push s (entry_of located) (length s.index + 1) >>= λ s1. scan_records fuel reader' s1)
            s
          ≡ ok s'
        → (24 + total s'.index ≡ length bytes) × Fits (length bytes) s'.index
    go (CaptureResult.ok none, reader') again tile e =
        subst (λ (t : Scan). (24 + total t.index ≡ length bytes) × Fits (length bytes) t.index)
          (ok_inj e) (omega (arith, l.sum, len, tile), l.fits)
    go (CaptureResult.ok (some found), reader') again tile e =
        let (s1, e1, e2) = ok_of_bind _ (push s _ (length s.index + 1)) e in
        again reader' s1 s'
          (laid found reader' tile s1 _ (raw_length found reader' tile) refl
            (push-index s s1 _ (length s.index + 1) e1))
          e2
    go (CaptureResult.err x, reader') again tile e = absurd (cc)

opened-at :
    (bytes : List ℕ) (reader : SliceReader)
    → open_slice bytes ≡ CaptureResult.ok reader
    → (reader.bytes ≡ bytes) × (reader.at ≡ 24) × (24 ≤ length bytes)
unfolding open_slice parse_header
opened-at bytes reader e = elim (Bool-cases (ltb (length bytes) 24)) [
  | inl short ↦ absurd (cc (rw short at e))
  | inr room ↦ by_endian (endian_of (from_bytes true (take 4 bytes))) (rw room at e) (ground arith)
]
  where
    by_endian :
        (o : Option Endian)
        → with_reader bytes (header_result (from_bytes true (take 4 bytes)) bytes o)
          ≡ CaptureResult.ok reader
        → 24 ≤ length bytes
        → (reader.bytes ≡ bytes) × (reader.at ≡ 24) × (24 ≤ length bytes)
    by_endian none e room = absurd (cc)
    by_endian (some order) e room = (cc, cc, room)

opened_inj :
    (r : CaptureResult SliceReader) (reader : SliceReader)
    → opened r ≡ ok reader
    → r ≡ CaptureResult.ok reader
opened_inj (CaptureResult.ok found) reader e = ap CaptureResult.ok (ok_inj e)
opened_inj (CaptureResult.err x) reader e = absurd (cc)

whole_capture-written :
    (bytes : List ℕ) (s : Scan)
    → 24 ≤ length bytes
    → 24 + total s.index ≡ length bytes
    → Fits (length bytes) s.index
    → (written : List ℕ) × (write_reordered bytes (reorder (whole_capture s)) ≡ ok written)
      × (length written ≡ length bytes)
unfolding write_reordered range
whole_capture-written bytes s room sum fits =
    let sorted : List PacketIndex = sort_by_timestamp s.index in
    let (copied, e, len) = copy_all-total bytes sorted (Fits-sort (length bytes) s.index fits) in
    let header : List ℕ = slice bytes 0 24 in
    let reach : leb 24 (length bytes) ≡ true = le→leb 24 (length bytes) room in
    (
      (header ++ copied) ++ [],
      rw reach (rw (append-nil (map place sorted)) (rw e refl)),
      ap (λ (xs : List ℕ). length xs) (append-nil (header ++ copied))
          ∙ length-append header copied
          ∙ omega (arith, length-slice bytes 0 24 (omega arith) room, len, total-sort s.index, sum),
    )

-- If the scan of a PCAP capture returns, writing the sorted capture does not slice out of bounds,
-- and what is written is as long as the capture.
pub write_reordered-length :
    (bytes : List ℕ) (sections : List SectionScan)
    → scan_pcap bytes ≡ ok sections
    → (written : List ℕ) × (write_reordered bytes (reorder sections) ≡ ok written)
      × (length written ≡ length bytes)
unfolding scan_pcap
write_reordered-length bytes sections e =
    let (reader, e1, e2) = ok_of_bind _ (opened (open_slice bytes)) e in
    let (s, e3, e4) = ok_of_bind _ (scan_records (suc (length bytes)) reader new_scan) e2 in
    let (same, start, room) = opened-at bytes reader (opened_inj (open_slice bytes) reader e1) in
    let (sum, fits) =
      scan_records-total (suc (length bytes)) bytes reader new_scan s
        (record { same = same; sum = sym start; fits = tt; inside = omega arith }) e3 in
    subst
      (λ (sections : List SectionScan).
        (written : List ℕ) × (write_reordered bytes (reorder sections) ≡ ok written)
        × (length written ≡ length bytes))
      (ok_inj e4) (whole_capture-written bytes s room sum fits)
