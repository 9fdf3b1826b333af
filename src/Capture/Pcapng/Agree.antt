-- ===== src/Capture/Pcapng/Agree.antt =====
-- `PcapngReader::next_packet` and `PcapngSliceReader::next_packet_with_offset` of
-- src/capture/format/pcapng.rs agree.
use maja.Base.{
  ℕ, zero, suc, ◌+◌, ◌≤◌, ◌<◌, ◌≡◌, ◌⊎◌, refl, ap, ◌∙◌, true, Option, none, some, List, [], ◌∷◌,
  arith, ltb, ◌==◌, ◌||◌, length, take, drop, length-drop, Bool-cases, inl, inr,
}
use maja.Base.Words.{from_bytes}
use maja.Context.{slice}
use maja.Capture.{Endian, CaptureError, read_u32, invalid_magic_number, PacketRecord}
use maja.Capture.Pcapng.{Result, ok, err, panic, stuck}
use maja.Capture.Pcapng.Section.{SectionHeader, magic_endian}
use maja.Capture.Pcapng.Reader.{
  SliceReader, section_type, section_block_type, block_type, take_block, take_typed, next_block,
  continue_with, packet_loop, next_packet_with_offset,
}
use maja.Capture.Pcapng.Stream.{
  StreamReader, M, and_then, packet_step, stream_loop, stream_packet, read_next_block,
}
use maja.Capture.Pcapng.Progress.{block_type-cases}
use maja.Capture.Pcapng.Blockwise.{
  streaming, read_next_block-block, read_next_block-error, read_next_block-end,
}
use maja.Capture.Pcapng.Streamed.{Matches, packet_kind-Matches}

block_type-order :
    (s : SliceReader) (xs : List ℕ) (kind : ℕ) (endian : Endian)
    → block_type s.section xs ≡ ok (kind, endian)
    → ((kind == section_type) ≡ true)
      ⊎ ((h : SectionHeader) × (s.section ≡ some h) × (endian ≡ h.endian))
unfolding block_type
block_type-order s xs kind endian e =
    elim (Bool-cases (from_bytes true (take 4 xs) == section_type)) [
      | inl header ↦ inl (of_header (magic_endian (slice xs 8 12)) (rw header at e))
      | inr other ↦ inr (of_section s.section (rw other at e))
    ]
  where
    of_header :
        (order : Endian)
        → ◌≡◌ {A = Result (ℕ × Endian)} (ok (section_type, order)) (ok (kind, endian))
        → (kind == section_type) ≡ true
    of_header order h = let same : kind ≡ section_type = cc in rw same refl

    of_section :
        (section : Option SectionHeader)
        → section_block_type section xs ≡ ok (kind, endian)
        → (h : SectionHeader) × (section ≡ some h) × (endian ≡ h.endian)
    of_section none h = absurd (cc)
    of_section (some t) h = (t, refl, cc)

no_bytes : (xs : List ℕ) → length xs ≡ 0 → [] ≡ xs
no_bytes [] h = refl
no_bytes (x ∷ xs) h = absurd (omega arith)

stays_err :
    (next : Option ℕ → M (Option PacketRecord)) (r : Result (Option ℕ) × StreamReader)
    (e : CaptureError)
    → r.0 ≡ err e
    → (and_then next r).0 ≡ err e
stays_err next (ok a, t) e h = cc
stays_err next (err x, t) e h = cc
stays_err next (panic, t) e h = cc
stays_err next (stuck, t) e h = cc

abbrev Agreement : ℕ → ℕ → Type 0
Agreement f g =
    (s : SliceReader) (b : List ℕ)
    → 0 < f
    → 0 < g
    → s.at ≤ length s.bytes
    → length s.bytes < s.at + f
    → length s.bytes < s.at + g
    → Matches (packet_loop f s) (stream_loop g (streaming s b))

module _ (f g : ℕ) (loops : Agreement f g) (s : SliceReader) (b : List ℕ)
    (inside : s.at ≤ length s.bytes) (enough : length s.bytes < s.at + suc f)
    (enough' : length s.bytes < s.at + suc g) where
  take_block-Matches :
      (found : ℕ × Endian)
      → block_type s.section (drop s.at s.bytes) ≡ ok found
      → Matches
          (continue_with (take_block found (drop s.at s.bytes) s) (packet_loop f))
          (and_then (packet_step (stream_loop g)) (read_next_block (streaming s b)))
  unfolding take_block
  take_block-Matches (kind, endian) e = elim (Bool-cases (ltb total 12 || ltb (length xs) total)) [
    | inl short ↦ rw short (inl refl)
    | inr whole ↦
        let low : 12 ≤ total = ground arith in
        let room : total ≤ length xs = ground arith in
        rw whole (
          rw (read_next_block-block s b kind endian e low room) (
            packet_kind-Matches after (take total xs) s.at (packet_loop f) (stream_loop g) kind
              endian (block_type-order s xs kind endian e)
              (λ s' same place. again s' same place low (omega (arith, length-drop s.at s.bytes)))))
  ]
    where
      xs : List ℕ
      xs = drop s.at s.bytes

      total : ℕ
      total = read_u32 endian (slice xs 4 8)

      after : SliceReader
      after = record s { at = s.at + total }

      again :
          (s' : SliceReader)
          → s'.bytes ≡ s.bytes
          → s'.at ≡ s.at + total
          → 12 ≤ total
          → s.at + total ≤ length s.bytes
          → Matches (packet_loop f s') (stream_loop g (streaming s' (take total xs)))
      again s' same place low room =
          let len : length s'.bytes ≡ length s.bytes = ap (λ (bytes : List ℕ). length bytes) same in
          loops s' (take total xs) (omega arith) (omega arith) (omega arith) (omega arith)
            (omega arith)

packet_loop-Matches : (f g : ℕ) → Agreement f g
unfolding packet_loop stream_loop next_block
packet_loop-Matches zero g s b left left' inside enough enough' = absurd (omega arith)
packet_loop-Matches (suc f) zero s b left left' inside enough enough' = absurd (omega arith)
packet_loop-Matches (suc f) (suc g) s b left left' inside enough enough' =
    elim (Bool-cases (length xs == 0)) [
      | inl done ↦
          let nothing : length xs ≡ 0 = ground arith in
          rw done (
            b,
            ap (and_then (packet_step (stream_loop g))) (read_next_block-end s b nothing)
                ∙ ap (λ (rest : List ℕ). (ok none, record (streaming s b) { rest = rest }))
                    (no_bytes xs nothing),
          )
      | inr more ↦ rw more (elim (Bool-cases (ltb (length xs) 12)) [
        | inl short ↦ rw short (inl refl)
        | inr room ↦ rw room (
            typed (block_type-cases s.section xs) (ground arith)
              (take_block-Matches f g (packet_loop-Matches f g) s b inside enough enough'))
      ])
    ]
  where
    xs : List ℕ
    xs = drop s.at s.bytes

    typed :
        ((found : ℕ × Endian) × (block_type s.section xs ≡ ok found))
          ⊎ ((n : ℕ) × (block_type s.section xs ≡ err (invalid_magic_number n)))
        → 8 ≤ length xs
        → ((found : ℕ × Endian)
            → block_type s.section xs ≡ ok found
            → Matches
                (continue_with (take_block found xs s) (packet_loop f))
                (and_then (packet_step (stream_loop g)) (read_next_block (streaming s b))))
        → Matches
            (continue_with (take_typed xs s (block_type s.section xs)) (packet_loop f))
            (and_then (packet_step (stream_loop g)) (read_next_block (streaming s b)))
    typed (inl (found, e)) room step = rw e (step found e)
    typed (inr (n, e)) room step = rw e (
        inr (
          inl (
            (n, refl),
            stays_err (packet_step (stream_loop g)) (read_next_block (streaming s b))
                (invalid_magic_number n) (read_next_block-error s b n room e),
          )))

-- The reader over a stream, with the section, the interfaces and the remaining bytes of a reader
-- over a slice that stands inside of its bytes, gives what that reader gives when it looks for the
-- next packet: the same packet record or the end of the capture, after which the two stand at the
-- same place with the same section and interfaces; the same error, after which they do so too,
-- unless the block stands outside of a section; or a panic. Where the slice ends inside of a block
-- or a block's length is below twelve, which is the slice reader's own error, nothing is stated.
pub stream_packet-next_packet_with_offset :
    (s : SliceReader) (buffer : List ℕ)
    → s.at ≤ length s.bytes
    → Matches (next_packet_with_offset s) (stream_packet (streaming s buffer))
stream_packet-next_packet_with_offset s buffer inside =
    packet_loop-Matches (suc (length s.bytes)) (suc (length (drop s.at s.bytes))) s buffer
      (omega arith) (omega arith) inside (omega arith) (omega (arith, length-drop s.at s.bytes))
