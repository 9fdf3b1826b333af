-- ===== src/Capture/Pcapng/Scan.antt =====
-- What `PcapngSliceReader::next_packet_with_offset` of src/capture/format/pcapng.rs finds.
use mathlib.Core.List.{append_assoc, append-nil}
use maja.Base.{
  inl, inr, ℕ, zero, suc, ◌+◌, ◌≤◌, ◌<◌, ◌≡◌, refl, sym, ap, ◌∙◌, Option, none, some, List, [],
  ◌++◌, arith, length, get_elem?,
}
use maja.Context.{slice}
use maja.Capture.{
  missing_pcapng_interface_description_block, invalid_pcapng_packet_interface_id,
  LocatedPacketRecord, PacketRecord, CaptureError,
}
use maja.Capture.Pcapng.{Result, ok, err, panic, stuck}
use maja.Capture.Pcapng.Section.{InterfaceDescription}
use maja.Capture.Pcapng.Blocks.{
  simple_record, enhanced_record, packet_timestamp, EnhancedPacketHeader, SimplePacketHeader,
}
use maja.Capture.Pcapng.Reader.{
  Block, section_header, interface_description, simple_packet, enhanced_packet, raw_block,
  BlockRecord, SliceReader, located, next_block, simple_found, enhanced_found, after_block,
  continue_with, packet_loop, next_packet_with_offset,
}
use maja.Capture.Pcapng.Decided.{Decided, Decided-ok, ok_of_bind}
use maja.Capture.Pcapng.Bodies.{enhanced_record-Decided}
use maja.Capture.Pcapng.Progress.{Forward, Moved, next_block-Moved}

-- The packet of a block between the two positions of the reader, with the link type of an interface
-- that the reader knows; otherwise the end of the bytes, or an error.
abbrev pub Found : SliceReader → Result (Option LocatedPacketRecord) → SliceReader → Type 0
Found reader (ok none) reader' = Forward 0 reader reader' × (reader'.at ≡ length reader.bytes)
Found reader (ok (some p)) reader' =
    Forward 12 reader reader'
    × (reader.at ≤ p.offset)
    × (p.offset + 12 ≤ reader'.at)
    × (p.raw ≡ slice reader.bytes p.offset reader'.at)
    × ((n : ℕ) × (i : InterfaceDescription) × (get_elem? reader'.interfaces n ≡ some i)
        × (p.packet.link_type ≡ i.link_type))
Found reader (err e) reader' = Forward 0 reader reader'
Found reader panic reader' = Unit
Found reader stuck reader' = ⊥

enhanced_record-link :
    (header : EnhancedPacketHeader) (interface : InterfaceDescription) (found : List ℕ)
    (p : PacketRecord)
    → enhanced_record header interface found ≡ ok p
    → p.link_type ≡ interface.link_type
enhanced_record-link header interface found p e =
    let (timestamp, e1, e2) = ok_of_bind _ (packet_timestamp header interface) e in cc

module _ (reader reader' : SliceReader) (b : BlockRecord)
    (moved : Moved reader (ok (some b)) reader') where
  -- A packet record of that block.
  Found-record :
      (r : Result PacketRecord) (n : ℕ) (i : InterfaceDescription)
      → Decided r
      → get_elem? reader'.interfaces n ≡ some i
      → ((p : PacketRecord) → r ≡ ok p → p.link_type ≡ i.link_type)
      → Found reader (located b r) reader'
  Found-record (ok p) n i h e link = (
    moved.0,
    omega (arith, moved.1),
    omega (arith, moved.1, moved.0.1),
    rw moved.1 (moved.2),
    (n, i, e, link p refl),
  )
  Found-record (err x) n i h e link = (moved.0.0, omega (arith, moved.0.1), moved.0.2, moved.0.3)
  Found-record panic n i h e link = tt
  Found-record stuck n i h e link = h refl

  Found-err : (x : CaptureError) → Found reader (err x) reader'
  Found-err x = (moved.0.0, omega (arith, moved.0.1), moved.0.2, moved.0.3)

  Found-simple :
      (header : SimplePacketHeader) (bytes : List ℕ) (entry : Option InterfaceDescription)
      → get_elem? reader'.interfaces 0 ≡ entry
      → Found reader (simple_found header bytes b entry) reader'
  Found-simple header bytes none e = Found-err missing_pcapng_interface_description_block
  Found-simple header bytes (some i) e =
      Found-record (ok (simple_record header i bytes)) 0 i (Decided-ok _) e (λ p h. cc)

  Found-enhanced :
      (header : EnhancedPacketHeader) (bytes : List ℕ) (entry : Option InterfaceDescription)
      → get_elem? reader'.interfaces header.interface_id ≡ entry
      → Found reader (enhanced_found header bytes b entry) reader'
  Found-enhanced header bytes none e =
      Found-err (invalid_pcapng_packet_interface_id header.interface_id)
  Found-enhanced header bytes (some i) e =
      Found-record (enhanced_record header i bytes) header.interface_id i
        (enhanced_record-Decided header i bytes) e (λ p h. enhanced_record-link header i bytes p h)

Forward-trans :
    (least : ℕ) (r1 r2 r3 : SliceReader)
    → Forward 12 r1 r2
    → Forward least r2 r3
    → Forward least r1 r3
Forward-trans least r1 r2 r3 a b = (
  b.0 ∙ a.0,
  omega arith,
  omega (arith, ap (λ (bytes : List ℕ). length bytes) a.0),
  (
    a.3.0 ++ b.3.0,
    b.3.1
        ∙ ap (λ (is : List InterfaceDescription). is ++ b.3.0) a.3.1
        ∙ append_assoc r1.interfaces a.3.0 b.3.0,
  ),
)

Found-after :
    (r1 r2 r3 : SliceReader) (result : Result (Option LocatedPacketRecord))
    → Forward 12 r1 r2
    → Found r2 result r3
    → Found r1 result r3
Found-after r1 r2 r3 (ok none) a f =
    (Forward-trans 0 r1 r2 r3 a f.0, f.1 ∙ ap (λ (bytes : List ℕ). length bytes) a.0)
Found-after r1 r2 r3 (ok (some p)) a f = (
  Forward-trans 12 r1 r2 r3 a f.0,
  omega (arith, f.1, a.1),
  f.2,
  f.3 ∙ ap (λ (bytes : List ℕ). slice bytes p.offset r3.at) a.0,
  f.4,
)
Found-after r1 r2 r3 (err e) a f = Forward-trans 0 r1 r2 r3 a f
Found-after r1 r2 r3 panic a f = tt
Found-after r1 r2 r3 stuck a f = f

after_block-Found :
    (reader reader' : SliceReader) (b : BlockRecord) (block : Block)
    (rest : Result (Option LocatedPacketRecord) × SliceReader)
    → Moved reader (ok (some b)) reader'
    → Found reader' rest.0 rest.1
    → let r = after_block reader' b block rest in Found reader r.0 r.1
after_block-Found reader reader' b (simple_packet header bytes) rest moved later =
    Found-simple reader reader' b moved header bytes (get_elem? reader'.interfaces 0) refl
after_block-Found reader reader' b (enhanced_packet header bytes) rest moved later =
    Found-enhanced reader reader' b moved header bytes
      (get_elem? reader'.interfaces header.interface_id) refl
after_block-Found reader reader' b (section_header s) rest moved later =
    Found-after reader reader' rest.1 rest.0 moved.0 later
after_block-Found reader reader' b (interface_description i) rest moved later =
    Found-after reader reader' rest.1 rest.0 moved.0 later
after_block-Found reader reader' b (raw_block kind bytes) rest moved later =
    Found-after reader reader' rest.1 rest.0 moved.0 later

Forward-same :
    (reader reader' : SliceReader)
    → reader.at ≤ length reader.bytes
    → reader' ≡ reader
    → Forward 0 reader reader'
Forward-same reader reader' inside same =
    rw same (refl, omega arith, inside, ([], sym (append-nil reader.interfaces)))

packet_loop-Found :
    (fuel : ℕ) (reader : SliceReader)
    → 0 < fuel
    → reader.at ≤ length reader.bytes
    → length reader.bytes < reader.at + fuel
    → Found reader (packet_loop fuel reader).0 (packet_loop fuel reader).1
unfolding packet_loop
packet_loop-Found zero reader room inside enough = absurd (omega arith)
packet_loop-Found (suc fuel) reader room inside enough =
    go (next_block reader) (next_block-Moved reader inside) (packet_loop-Found fuel)
  where
    go :
        (r : Result (Option BlockRecord) × SliceReader)
        → Moved reader r.0 r.1
        → ((reader' : SliceReader)
            → 0 < fuel
            → reader'.at ≤ length reader'.bytes
            → length reader'.bytes < reader'.at + fuel
            → Found reader' (packet_loop fuel reader').0 (packet_loop fuel reader').1)
        → let r' = continue_with r (packet_loop fuel) in Found reader r'.0 r'.1
    go (ok none, reader') moved again = (
      Forward-same reader reader' inside moved.0,
      ap (λ (r : SliceReader). r.at) moved.0 ∙ moved.1,
    )
    go (ok (some b), reader') moved again =
        let len : length reader'.bytes ≡ length reader.bytes =
          ap (λ (bytes : List ℕ). length bytes) moved.0.0 in
        after_block-Found reader reader' b b.block (packet_loop fuel reader') moved (
          again reader' (omega (arith, moved.0.1, moved.0.2)) (omega (arith, moved.0.2))
            (omega (arith, moved.0.1)))
    go (err e, reader') (inl (same, framing)) again = Forward-same reader reader' inside same
    go (err e, reader') (inr (same, forward)) again =
        (forward.0, omega (arith, forward.1), forward.2, forward.3)
    go (panic, reader') moved again = tt
    go (stuck, reader') moved again = moved

-- The search for the next packet returns, whatever the bytes are: at the end of the bytes, with an
-- error, by a panic, or with a packet whose raw bytes are those of the input between its offset
-- and the position at which the reader then stands, at least twelve, and whose link type is that
-- of an interface that the reader knows; in all cases but a panic the reader has moved forward
-- inside of the same bytes and has only added interfaces at the end of its table. The reader
-- stands inside of its bytes before.
pub next_packet_with_offset-Found :
    (reader : SliceReader)
    → reader.at ≤ length reader.bytes
    → let r = next_packet_with_offset reader in Found reader r.0 r.1
next_packet_with_offset-Found reader inside =
    packet_loop-Found (suc (length reader.bytes)) reader (omega arith) inside (omega arith)
