-- ===== src/Capture/Pcapng/Streamed.antt =====
-- What a block does to `PcapngReader` and to `PcapngSliceReader` of src/capture/format/pcapng.rs.
use maja.Base.{
  ℕ, ◌≡◌, ◌⊎◌, refl, true, Option, none, some, List, [], ◌∷◌, ◌++◌, ◌==◌, get_elem?, Bool-cases,
  inl, inr,
}
use maja.Capture.{
  Endian, truncated_capture, invalid_magic_number, PacketRecord, LocatedPacketRecord,
}
use maja.Capture.Pcapng
use maja.Capture.Pcapng.{Result, ok, err, panic, stuck}
use maja.Capture.Pcapng.Section.{
  SectionHeader, parse_section, InterfaceDescription, parse_interface,
}
use maja.Capture.Pcapng.Blocks.{
  SimplePacketHeader, parse_simple, EnhancedPacketHeader, parse_enhanced, enhanced_record,
}
use maja.Capture.Pcapng.Reader.{
  Block, simple_packet, enhanced_packet, BlockRecord, SliceReader, section_type, keep_section,
  keep_interface, handle, located, simple_found, enhanced_found, continue_with,
}
use maja.Capture.Pcapng.Stream
use maja.Capture.Pcapng.Stream.{
  StreamReader, M, and_then, set_section, push_interface, expect_section, simple_entry,
  enhanced_entry, simple_step, enhanced_step, packet_kind, packet_step, stream_loop, stream_packet,
  read_next_block,
}
use maja.Capture.Pcapng.Decided.{Decided}
use maja.Capture.Pcapng.Bodies.{
  parse_section-Decided, parse_interface-Decided, parse_simple-Decided, parse_enhanced-Decided,
  enhanced_record-Decided,
}
use maja.Capture.Pcapng.Blockwise.{streaming}

-- What the reader over a slice gives, the reader over a stream gives, and stands at the same place
-- afterwards; but a block that is cut off is each one's own error, and a block outside a section
-- leaves the stream behind its first bytes.
abbrev pub Matches :
    Result (Option LocatedPacketRecord) × SliceReader
    → Result (Option PacketRecord) × StreamReader
    → Type 0
Matches (ok none, s) r = (b : List ℕ) × (r ≡ (ok none, streaming s b))
Matches (ok (some p), s) r = (b : List ℕ) × (r ≡ (ok (some p.packet), streaming s b))
Matches (err e, s) r =
    (e ≡ truncated_capture "pcapng block")
    ⊎ ((((n : ℕ) × (e ≡ invalid_magic_number n)) × (r.0 ≡ err e))
        ⊎ ((b : List ℕ) × (r ≡ (err e, streaming s b))))
Matches (panic, s) r = r.0 ≡ panic
Matches (stuck, s) r = ⊥

module _ (s : SliceReader) (raw : List ℕ) (offset : ℕ)
    (slice_more : SliceReader → Result (Option LocatedPacketRecord) × SliceReader)
    (stream_more : M (Option PacketRecord)) where
  -- The block's record and the reader that it leaves.
  abbrev pub framed : Result Block × SliceReader → Result (Option BlockRecord) × SliceReader
  framed r =
      (Pcapng.◌>>=◌ r.0 (λ b. ok (some (record { offset = offset; raw = raw; block = b }))), r.1)

  abbrev pub Again : Type 0
  Again =
      (s' : SliceReader)
      → s'.bytes ≡ s.bytes
      → s'.at ≡ s.at
      → Matches (slice_more s') (stream_more (streaming s' raw))

  section-Matches :
      (r : Result SectionHeader)
      → Decided r
      → Again
      → Matches
          (continue_with (framed (keep_section s r)) slice_more)
          (and_then (λ h. Stream.◌>>◌ (set_section h) stream_more) (r, streaming s raw))
  section-Matches (ok h) d again = again (record s { section = some h }) refl refl
  section-Matches (err e) d again = inr (inr (raw, refl))
  section-Matches panic d again = refl
  section-Matches stuck d again = d refl

  interface-Matches :
      (r : Result InterfaceDescription)
      → Decided r
      → Again
      → Matches
          (continue_with (framed (keep_interface s r)) slice_more)
          (and_then (λ i. Stream.◌>>◌ (push_interface i) stream_more) (r, streaming s raw))
  interface-Matches (ok i) d again =
      again (record s { interfaces = s.interfaces ++ (i ∷ []) }) refl refl
  interface-Matches (err e) d again = inr (inr (raw, refl))
  interface-Matches panic d again = refl
  interface-Matches stuck d again = d refl

  simple-Matches :
      (r : Result (SimplePacketHeader × List ℕ))
      → Decided r
      → Matches
          (continue_with
            (framed (Pcapng.◌>>=◌ r (λ found. ok (simple_packet found.0 found.1)), s))
            slice_more)
          (and_then simple_step (r, streaming s raw))
  simple-Matches (ok (header, bytes)) d = go (get_elem? s.interfaces 0)
    where
      go :
          (entry : Option InterfaceDescription)
          → Matches
              (
                simple_found header bytes
                    (record { offset = offset; raw = raw; block = simple_packet header bytes })
                    entry,
                s,
              )
              (simple_entry header bytes entry, streaming s raw)
      go none = inr (inr (raw, refl))
      go (some i) = (raw, refl)
  simple-Matches (err e) d = inr (inr (raw, refl))
  simple-Matches panic d = refl
  simple-Matches stuck d = d refl

  enhanced-Matches :
      (r : Result (EnhancedPacketHeader × List ℕ))
      → Decided r
      → Matches
          (continue_with
            (framed (Pcapng.◌>>=◌ r (λ found. ok (enhanced_packet found.0 found.1)), s))
            slice_more)
          (and_then enhanced_step (r, streaming s raw))
  enhanced-Matches (ok (header, bytes)) d = go (get_elem? s.interfaces header.interface_id)
    where
      b : BlockRecord
      b = record { offset = offset; raw = raw; block = enhanced_packet header bytes }

      with_record :
          (r : Result PacketRecord)
          → Decided r
          → Matches (located b r, s) (Pcapng.◌>>=◌ r (λ p. ok (some p)), streaming s raw)
      with_record (ok p) d = (raw, refl)
      with_record (err e) d = inr (inr (raw, refl))
      with_record panic d = refl
      with_record stuck d = d refl

      go :
          (entry : Option InterfaceDescription)
          → Matches
              (enhanced_found header bytes b entry, s)
              (enhanced_entry header bytes entry, streaming s raw)
      go none = inr (inr (raw, refl))
      go (some i) =
          with_record (enhanced_record header i bytes) (enhanced_record-Decided header i bytes)
  enhanced-Matches (err e) d = inr (inr (raw, refl))
  enhanced-Matches panic d = refl
  enhanced-Matches stuck d = d refl

  pub packet_kind-Matches :
      (kind : ℕ) (endian : Endian)
      → ((kind == section_type) ≡ true)
        ⊎ ((h : SectionHeader) × (s.section ≡ some h) × (endian ≡ h.endian))
      → Again
      → Matches
          (continue_with (framed (handle kind endian raw s)) slice_more)
          (packet_kind stream_more kind (streaming s raw))
  unfolding handle packet_kind
  packet_kind-Matches kind endian (inl header) again =
      rw header (section-Matches (parse_section raw) (parse_section-Decided raw) again)
  packet_kind-Matches kind endian (inr (h, section, order)) again =
      elim (Bool-cases (kind == section_type)) [
        | inl e ↦ rw e (section-Matches (parse_section raw) (parse_section-Decided raw) again)
        | inr e ↦ rw e (elim (Bool-cases (kind == 1)) [
          | inl e ↦ rw e (
              rw (in_order parse_interface) (
                interface-Matches (parse_interface raw endian) (parse_interface-Decided raw endian)
                  again))
          | inr e ↦ rw e (elim (Bool-cases (kind == 3)) [
            | inl e ↦ rw e (
                rw (in_order parse_simple)
                  (simple-Matches (parse_simple raw endian) (parse_simple-Decided raw endian)))
            | inr e ↦ rw e (elim (Bool-cases (kind == 6)) [
              | inl e ↦ rw e (
                  rw (in_order parse_enhanced) (
                    enhanced-Matches (parse_enhanced raw endian)
                      (parse_enhanced-Decided raw endian)))
              | inr e ↦ rw e (again s refl refl)
            ])
          ])
        ])
      ]
    where
      in_order :
          {A : Type 0} (parse : List ℕ → Endian → Result A)
          → expect_section parse raw s.section ≡ parse raw endian
      in_order parse = rw section (rw order refl)
