-- ===== src/Capture/Sniffed/Accepts.antt =====
-- The detection of the format in src/capture.rs fits the readers of the formats.
use maja.Base.{
  ℕ, ◌≤◌, ◌≡◌, ◌⊎◌, refl, ap, ◌∙◌, true, false, Bool-cases, inl, inr, Option, none, some, List,
  arith, ltb, ◌==◌, le→not_ltb, lt→ltb, length, take,
}
use maja.Base.Words.{from_bytes}
use maja.Capture.{CaptureError, CaptureResult, Endian, invalid_magic_number, truncated_capture}
use maja.Capture.Pcap.{endian_of, header_result, parse_header}
use maja.Capture.Pcap.Reader.{open_slice, with_reader, SliceReader}
use maja.Capture.Pcapng
use maja.Capture.Pcapng.{Result, ok, err, panic, stuck}
use maja.Capture.Pcapng.Reader
use maja.Capture.Pcapng.Reader.{BlockRecord, next_block, block_type, section_type, take_typed}
use maja.Capture.Pcapng.Progress.{Moved, next_block-Moved}
use maja.Capture.Sniffed.{
  is_pcap_magic, from_magic_bytes, SniffedSliceReader, over_pcap, over_pcapng, opened_pcap,
  open_sniffed,
}

is_pcap_magic-endian : (n : ℕ) (e : Endian) → endian_of n ≡ some e → is_pcap_magic n ≡ true
is_pcap_magic-endian n e h = ground arith

open_sniffed-pcap :
    (bytes : List ℕ)
    → 4 ≤ length bytes
    → is_pcap_magic (from_bytes true (take 4 bytes)) ≡ true
    → open_sniffed bytes ≡ opened_pcap (open_slice bytes)
unfolding open_sniffed from_magic_bytes
open_sniffed-pcap bytes room magic = rw (le→not_ltb (length bytes) 4 room) (rw magic refl)

open_sniffed-pcapng :
    (bytes : List ℕ)
    → 4 ≤ length bytes
    → (from_bytes true (take 4 bytes) == section_type) ≡ true
    → open_sniffed bytes ≡ ok (over_pcapng (Pcapng.Reader.open_slice bytes))
unfolding open_sniffed from_magic_bytes
open_sniffed-pcapng bytes room magic =
    let other : is_pcap_magic (from_bytes true (take 4 bytes)) ≡ false = ground arith in
    rw (le→not_ltb (length bytes) 4 room) (rw other (rw magic refl))

-- A capture that the reader of PCAP opens has a header of that format.
opened-magic :
    (bytes : List ℕ) (reader : SliceReader)
    → open_slice bytes ≡ CaptureResult.ok reader
    → (24 ≤ length bytes) × (is_pcap_magic (from_bytes true (take 4 bytes)) ≡ true)
unfolding open_slice parse_header
opened-magic bytes reader e = elim (Bool-cases (ltb (length bytes) 24)) [
  | inl short ↦ absurd (cc (rw short at e))
  | inr room ↦
      (ground arith, by_endian (endian_of (from_bytes true (take 4 bytes))) refl (rw room at e))
]
  where
    by_endian :
        (o : Option Endian)
        → endian_of (from_bytes true (take 4 bytes)) ≡ o
        → with_reader bytes (header_result (from_bytes true (take 4 bytes)) bytes o)
          ≡ CaptureResult.ok reader
        → is_pcap_magic (from_bytes true (take 4 bytes)) ≡ true
    by_endian none h e = absurd (cc)
    by_endian (some order) h e = is_pcap_magic-endian (from_bytes true (take 4 bytes)) order h

-- A capture whose first block is read starts with a section header.
first_block-magic :
    (bytes : List ℕ) (b : BlockRecord)
    → (next_block (Pcapng.Reader.open_slice bytes)).0 ≡ ok (some b)
    → (12 ≤ length bytes) × ((from_bytes true (take 4 bytes) == section_type) ≡ true)
unfolding next_block block_type
first_block-magic bytes b e = elim (Bool-cases (length bytes == 0)) [
  | inl done ↦ absurd (nothing (rw done at e))
  | inr more ↦ elim (Bool-cases (ltb (length bytes) 12)) [
    | inl short ↦ absurd (failure _ (rw short at (rw more at e)))
    | inr room ↦ (ground arith, header (rw room at (rw more at e)))
  ]
]
  where
    nothing : ok none ≡ ok (some b) → ⊥
    nothing h = cc

    failure : (x : CaptureError) → err x ≡ ok (some b) → ⊥
    failure x h = cc

    header :
        (take_typed bytes (Pcapng.Reader.open_slice bytes) (block_type none bytes)).0 ≡ ok (some b)
        → (from_bytes true (take 4 bytes) == section_type) ≡ true
    header h = elim (Bool-cases (from_bytes true (take 4 bytes) == section_type)) [
      | inl is_header ↦ is_header
      | inr other ↦ absurd (failure _ (rw other at h))
    ]

-- The capture is not opened, or it is opened as PCAPNG.
abbrev pub NotPcap : List ℕ → Result SniffedSliceReader → Type 0
NotPcap bytes r =
    ((x : CaptureError) × (r ≡ err x)) ⊎ (r ≡ ok (over_pcapng (Pcapng.Reader.open_slice bytes)))

open_sniffed-NotPcap :
    (bytes : List ℕ) (e : CaptureError)
    → open_slice bytes ≡ CaptureResult.err e
    → NotPcap bytes (open_sniffed bytes)
unfolding open_sniffed from_magic_bytes
open_sniffed-NotPcap bytes e refused =
    let n : ℕ = from_bytes true (take 4 bytes) in
    elim (Bool-cases (ltb (length bytes) 4)) [
      | inl short ↦ inl (truncated_capture "capture file header", rw short refl)
      | inr room ↦ rw room (elim (Bool-cases (is_pcap_magic n)) [
        | inl magic ↦ inl (e, rw magic (ap opened_pcap refused))
        | inr other ↦ rw other (elim (Bool-cases (n == section_type)) [
          | inl magic ↦ inr (rw magic refl)
          | inr other ↦ inl (invalid_magic_number n, rw other refl)
        ])
      ])
    ]

-- What the readers of the formats accept, the detection of the format opens with them.
abbrev pub Accepts :
    List ℕ
    → CaptureResult SliceReader
    → Result (Option BlockRecord)
    → Result SniffedSliceReader
    → Type 0
Accepts bytes (CaptureResult.ok reader) first r = r ≡ ok (over_pcap reader)
Accepts bytes (CaptureResult.err e) (ok (some b)) r =
    r ≡ ok (over_pcapng (Pcapng.Reader.open_slice bytes))
Accepts bytes (CaptureResult.err e) (ok none) r = r ≡ err (truncated_capture "capture file header")
Accepts bytes (CaptureResult.err e) (err x) r = NotPcap bytes r
Accepts bytes (CaptureResult.err e) panic r = NotPcap bytes r
Accepts bytes (CaptureResult.err e) stuck r = ⊥

open_sniffed-empty :
    (bytes : List ℕ)
    → 0 ≡ length bytes
    → open_sniffed bytes ≡ err (truncated_capture "capture file header")
unfolding open_sniffed
open_sniffed-empty bytes h =
    let short : ltb (length bytes) 4 ≡ true = lt→ltb (length bytes) 4 (omega arith) in rw short refl

-- For any bytes, the detection of the capture format fits the readers of the two formats: if the
-- PCAP reader opens them, so does the detection, with the same reader; otherwise, if the first
-- block of a PCAPNG reader over them can be read, it opens that reader; bytes without anything in
-- them are refused as a truncated header; and in all other cases no PCAP reader is opened: it
-- gives an error or a PCAPNG reader.
pub open_sniffed-Accepts :
    (bytes : List ℕ)
    → Accepts bytes
        (open_slice bytes)
        (next_block (Pcapng.Reader.open_slice bytes)).0
        (open_sniffed bytes)
open_sniffed-Accepts bytes =
    go (open_slice bytes) (next_block (Pcapng.Reader.open_slice bytes)).0 refl refl
      (next_block-Moved (Pcapng.Reader.open_slice bytes) (omega arith))
  where
    go :
        (r : CaptureResult SliceReader) (first : Result (Option BlockRecord))
        → open_slice bytes ≡ r
        → (next_block (Pcapng.Reader.open_slice bytes)).0 ≡ first
        → Moved
            (Pcapng.Reader.open_slice bytes)
            first
            (next_block (Pcapng.Reader.open_slice bytes)).1
        → Accepts bytes r first (open_sniffed bytes)
    go (CaptureResult.ok reader) first e f moved =
        let (room, magic) = opened-magic bytes reader e in
        open_sniffed-pcap bytes (omega arith) magic ∙ ap opened_pcap e
    go (CaptureResult.err x) (ok (some b)) e f moved =
        let (room, magic) = first_block-magic bytes b f in
        open_sniffed-pcapng bytes (omega arith) magic
    go (CaptureResult.err x) (ok none) e f moved = open_sniffed-empty bytes moved.1
    go (CaptureResult.err x) (err y) e f moved = open_sniffed-NotPcap bytes x e
    go (CaptureResult.err x) panic e f moved = open_sniffed-NotPcap bytes x e
    go (CaptureResult.err x) stuck e f moved = moved
