-- ===== src/Capture/Pcapng/Progress.antt =====
-- How `PcapngSliceReader::next_block` of src/capture/format/pcapng.rs moves the reader.
use mathlib.Core.List.{append-nil}
use maja.Base.{
  ℕ, ◌+◌, ◌-◌, ◌≤◌, ◌≡◌, ◌⊎◌, refl, sym, ap, ◌∙◌, Bool, true, false, ◌||◌, Bool-cases, inl, inr,
  Option, none, some, List, [], ◌∷◌, ◌++◌, arith, ltb, ◌==◌, if◌then◌else◌, length, take, drop,
  length-drop,
}
use maja.Base.Words.{from_bytes}
use maja.Context.{slice}
use maja.Capture.{Endian, CaptureError, read_u32, truncated_capture, invalid_magic_number}
use maja.Capture.Pcapng.{Result, ok, err, panic, stuck, ◌>>=◌}
use maja.Capture.Pcapng.Section.{
  magic_endian, SectionHeader, parse_section, InterfaceDescription, parse_interface,
}
use maja.Capture.Pcapng.Blocks.{parse_simple, parse_enhanced}
use maja.Capture.Pcapng.Reader.{
  Block, BlockRecord, SliceReader, section_type, section_block_type, block_type, keep_section,
  keep_interface, handle, take_block, next_block,
}
use maja.Capture.Pcapng.Decided.{Decided, Decided-ok, Decided-err, Decided-panic, Decided-set}
use maja.Capture.Pcapng.Bodies.{
  parse_section-Decided, parse_interface-Decided, parse_simple-Decided, parse_enhanced-Decided,
}

-- Interfaces are added at the end, so that an index keeps its meaning.
abbrev pub Grows : List InterfaceDescription → List InterfaceDescription → Type 0
Grows old new = (more : List InterfaceDescription) × (new ≡ old ++ more)

-- A block's body returns, changes no more than the tables of the reader, and that only if it is
-- parsed.
record Handled (reader : SliceReader) (r : Result Block × SliceReader) : Type 0 where
  returns : Decided r.0
  bytes_kept : r.1.bytes ≡ reader.bytes
  at_kept : r.1.at ≡ reader.at
  grows : Grows reader.interfaces r.1.interfaces
  untouched : (e : CaptureError) → r.0 ≡ err e → r.1 ≡ reader

same_reader : (reader : SliceReader) (r : Result Block) → Decided r → Handled reader (r, reader)
same_reader reader r h = record {
  returns = h;
  bytes_kept = refl;
  at_kept = refl;
  grows = ([], sym (append-nil reader.interfaces));
  untouched = λ e p. refl;
}

keep_section-Handled :
    (reader : SliceReader) (r : Result SectionHeader)
    → Decided r
    → Handled reader (keep_section reader r)
keep_section-Handled reader (ok s) h = record {
  returns = Decided-ok _;
  bytes_kept = refl;
  at_kept = refl;
  grows = ([], sym (append-nil reader.interfaces));
  untouched = λ e p. absurd (cc);
}
keep_section-Handled reader (err e) h = same_reader reader (err e) (Decided-err e)
keep_section-Handled reader panic h = same_reader reader panic Decided-panic
keep_section-Handled reader stuck h = absurd (h refl)

keep_interface-Handled :
    (reader : SliceReader) (r : Result InterfaceDescription)
    → Decided r
    → Handled reader (keep_interface reader r)
keep_interface-Handled reader (ok i) h = record {
  returns = Decided-ok _;
  bytes_kept = refl;
  at_kept = refl;
  grows = (i ∷ [], refl);
  untouched = λ e p. absurd (cc);
}
keep_interface-Handled reader (err e) h = same_reader reader (err e) (Decided-err e)
keep_interface-Handled reader panic h = same_reader reader panic Decided-panic
keep_interface-Handled reader stuck h = absurd (h refl)

Handled-if :
    (reader : SliceReader) (test : Bool) (a b : Result Block × SliceReader)
    → Handled reader a
    → Handled reader b
    → Handled reader (if test then a else b)
Handled-if reader true a b h k = h
Handled-if reader false a b h k = k

handle-Handled :
    (kind : ℕ) (endian : Endian) (raw : List ℕ) (reader : SliceReader)
    → Handled reader (handle kind endian raw reader)
unfolding handle
handle-Handled kind endian raw reader =
    Handled-if reader (kind == section_type) _ _
      (keep_section-Handled reader (parse_section raw) (parse_section-Decided raw))
      (Handled-if reader (kind == 1) _ _
        (keep_interface-Handled reader (parse_interface raw endian)
          (parse_interface-Decided raw endian))
        (Handled-if reader (kind == 3) _ _
          (same_reader reader _
            (Decided-set _ (parse_simple raw endian) (parse_simple-Decided raw endian)))
          (Handled-if reader (kind == 6) _ _
            (same_reader reader _
              (Decided-set _ (parse_enhanced raw endian) (parse_enhanced-Decided raw endian)))
            (same_reader reader _ (Decided-ok _)))))

-- The reader is further in the same bytes, with all its interfaces.
abbrev pub Forward : ℕ → SliceReader → SliceReader → Type 0
Forward least reader reader' =
    (reader'.bytes ≡ reader.bytes)
    × (reader.at + least ≤ reader'.at)
    × (reader'.at ≤ length reader.bytes)
    × Grows reader.interfaces reader'.interfaces

-- The errors of a block whose end is not known.
abbrev pub IsFraming : CaptureError → Type 0
IsFraming e = (e ≡ truncated_capture "pcapng block") ⊎ ((n : ℕ) × (e ≡ invalid_magic_number n))

abbrev pub Moved : SliceReader → Result (Option BlockRecord) → SliceReader → Type 0
Moved reader (ok none) reader' = (reader' ≡ reader) × (reader.at ≡ length reader.bytes)
Moved reader (ok (some b)) reader' =
    Forward 12 reader reader'
    × (b.offset ≡ reader.at)
    × (b.raw ≡ slice reader.bytes reader.at reader'.at)
Moved reader (err e) reader' =
    (reader' ≡ reader) × IsFraming e
    ⊎ (reader' ≡ record reader { at = reader'.at }) × Forward 12 reader reader'
Moved reader panic reader' = Unit
Moved reader stuck reader' = ⊥

take_block-Moved :
    (found : ℕ × Endian) (reader : SliceReader)
    → let r = take_block found (drop reader.at reader.bytes) reader in Moved reader r.0 r.1
unfolding take_block
take_block-Moved (kind, endian) reader =
    elim (Bool-cases (ltb total 12 || ltb (length remaining) total)) [
      | inl short ↦ rw short (inl (refl, inl refl))
      | inr whole ↦ rw whole (
          moved _ (handle-Handled kind endian (take total remaining) after) (ground arith)
            (ground (arith, length-drop reader.at reader.bytes)))
    ]
  where
    remaining : List ℕ
    remaining = drop reader.at reader.bytes

    total : ℕ
    total = read_u32 endian (slice remaining 4 8)

    after : SliceReader
    after = record reader { at = reader.at + total }

    moved :
        (r : Result Block × SliceReader)
        → Handled after r
        → 12 ≤ total
        → reader.at + total ≤ length reader.bytes
        → Moved reader
            (r.0 >>= λ b.
              ok (some (record { offset = reader.at; raw = take total remaining; block = b })))
            r.1
    moved (ok b, reader') h low high =
        let len : total ≡ reader'.at - reader.at = omega (arith, h.at_kept) in
        (
          (h.bytes_kept, omega (arith, h.at_kept), omega (arith, h.at_kept), h.grows),
          refl,
          ap (λ (n : ℕ). take n remaining) len,
        )
    moved (err e, reader') h low high = inr (
      h.untouched e refl ∙ ap (λ (n : ℕ). record reader { at = n }) (sym h.at_kept),
      (h.bytes_kept, omega (arith, h.at_kept), omega (arith, h.at_kept), h.grows),
    )
    moved (panic, reader') h low high = tt
    moved (stuck, reader') h low high = h.returns refl

pub block_type-cases :
    (section : Option SectionHeader) (remaining : List ℕ)
    → ((found : ℕ × Endian) × (block_type section remaining ≡ ok found))
      ⊎ ((n : ℕ) × (block_type section remaining ≡ err (invalid_magic_number n)))
unfolding block_type
block_type-cases section remaining =
    elim (Bool-cases (from_bytes true (take 4 remaining) == section_type)) [
      | inl header ↦ inl ((section_type, magic_endian (slice remaining 8 12)), rw header refl)
      | inr other ↦ rw other (by_section section)
    ]
  where
    by_section :
        (s : Option SectionHeader)
        → ((found : ℕ × Endian) × (section_block_type s remaining ≡ ok found))
          ⊎ ((n : ℕ) × (section_block_type s remaining ≡ err (invalid_magic_number n)))
    by_section none = inr (_, refl)
    by_section (some s) = inl (_, refl)

pub next_block-Moved :
    (reader : SliceReader)
    → reader.at ≤ length reader.bytes
    → Moved reader (next_block reader).0 (next_block reader).1
unfolding next_block
next_block-Moved reader inside = elim (Bool-cases (length (drop reader.at reader.bytes) == 0)) [
  | inl done ↦ rw done (refl, ground (arith, length-drop reader.at reader.bytes))
  | inr more ↦ rw more (elim (Bool-cases (ltb (length (drop reader.at reader.bytes)) 12)) [
    | inl short ↦ rw short (inl (refl, inl refl))
    | inr room ↦ rw room (elim (block_type-cases reader.section (drop reader.at reader.bytes)) [
      | inl (found, e) ↦ rw e (take_block-Moved found reader)
      | inr (n, e) ↦ rw e (inl (refl, inr (n, refl)))
    ])
  ])
]
