-- ===== src/Capture/Pcapng/Bodies.antt =====
-- The parsers of the blocks of src/capture/format/pcapng.rs, and the timestamps, return.
use Prim.Native.String.{String}
use maja.Base.{ℕ, ◌+◌, ◌*◌, ◌-◌, ◌^◌, List, arith, ltb, leb, ◌==◌, if◌then◌else◌, length}
use maja.Capture.{ℤ, pos, negsuc, Endian}
use maja.Capture.Pcapng.{
  ok, ◌>>=◌, range, index, read_number, read_signed, signed, text, padded, all_options,
  check_block_total_length,
}
use maja.Capture.Pcapng.Section.{
  unwrap_or, magic_endian, SectionHeader, section_option, section_fields, parse_section,
  InterfaceDescription, interface_option, parse_interface,
}
use maja.Capture.Pcapng.Blocks.{
  EnhancedPacketHeader, parse_simple, packet_fields, packet_option, parse_enhanced, in_i64, times,
  over, plus, power, rescale, calc_timestamp, packet_timestamp, enhanced_record,
}
use maja.Capture.Pcapng.Decided.{
  Decided, Decided-bind, Decided-if, Decided-ok, Decided-err, Decided-panic, range-Decided,
  index-Decided, read_number-Decided, read_signed-Decided, text-Decided,
  check_block_total_length-Decided, all_options-Decided, Decided-set,
}

section_option-Decided :
    (code : ℕ) (value : List ℕ) (s : SectionHeader) → Decided (section_option code value s)
unfolding section_option
section_option-Decided code value s e = ground (arith, text-Decided value)

section_fields-Decided : (block : List ℕ) → Decided (section_fields block)
unfolding section_fields
section_fields-Decided block =
    Decided-bind _ (range block 8 12) (range-Decided block 8 12) (λ magic.
      Decided-bind _ (range block 12 14) (range-Decided block 12 14) (λ major.
        Decided-bind _ (range block 14 16) (range-Decided block 14 16) (λ minor.
          Decided-bind _ (range block 16 24) (range-Decided block 16 24) (λ len.
            Decided-bind _ (read_signed 8 (magic_endian magic) len)
              (read_signed-Decided 8 (magic_endian magic) len) (λ section_length. Decided-ok _)))))

pub parse_section-Decided : (block : List ℕ) → Decided (parse_section block)
unfolding parse_section
parse_section-Decided block = Decided-if _ _ _ (Decided-err _) (
    Decided-bind _ (section_fields block) (section_fields-Decided block) (λ fields.
      Decided-bind _ (all_options section_option block fields.endian 24 fields)
        (all_options-Decided section_option block fields.endian 24 fields section_option-Decided)
        (λ section.
          Decided-bind _ (check_block_total_length block fields.endian "Section header")
            (check_block_total_length-Decided block fields.endian "Section header")
            (λ done. Decided-ok section))))

interface_option-Decided :
    (endian : Endian) (code : ℕ) (value : List ℕ) (s : InterfaceDescription)
    → Decided (interface_option endian code value s)
unfolding interface_option
interface_option-Decided endian code value s =
    Decided-if (code == 2) _ _ (Decided-set _ (text value) (text-Decided value)) (
      Decided-if (code == 3) _ _ (Decided-set _ (text value) (text-Decided value)) (
        Decided-if (code == 4) _ _
          (Decided-bind _ (range value 0 4) (range-Decided value 0 4)
            (λ addr. Decided-set _ (range value 4 8) (range-Decided value 4 8)))
          (Decided-if (code == 5) _ _
            (Decided-bind _ (range value 0 16) (range-Decided value 0 16)
              (λ addr. Decided-set _ (index value 16) (index-Decided value 16)))
            (Decided-if (code == 6) _ _
              (Decided-if (length value == 6) _ _ (Decided-ok _) Decided-panic)
              (Decided-if (code == 7) _ _
                (Decided-if (length value == 8) _ _ (Decided-ok _) (Decided-err _))
                (Decided-if (code == 8) _ _
                  (Decided-set _ (read_number 8 endian value) (read_number-Decided 8 endian value))
                  (Decided-if (code == 9) _ _
                    (Decided-set _ (index value 0) (index-Decided value 0))
                    (Decided-if (code == 10) _ _
                      (Decided-set _ (read_signed 4 endian value)
                        (read_signed-Decided 4 endian value))
                      (Decided-if (code == 11) _ _ (Decided-ok _) (
                        Decided-if (code == 12) _ _
                          (Decided-set _ (text value) (text-Decided value))
                          (Decided-if (code == 13) _ _
                            (Decided-set _ (index value 0) (index-Decided value 0))
                            (Decided-if (code == 14) _ _
                              (Decided-set _ (read_signed 8 endian value)
                                (read_signed-Decided 8 endian value))
                              (Decided-if (code == 15) _ _
                                (Decided-set _ (text value) (text-Decided value))
                                (Decided-if (code == 16) _ _
                                  (Decided-set _ (read_number 8 endian value)
                                    (read_number-Decided 8 endian value))
                                  (Decided-if (code == 17) _ _
                                    (Decided-set _ (read_number 8 endian value)
                                      (read_number-Decided 8 endian value))
                                    (Decided-if (code == 18) _ _
                                      (Decided-set _ (text value) (text-Decided value))
                                      (Decided-ok s)))))))))))))))))

packet_option-Decided :
    (endian : Endian) (code : ℕ) (value : List ℕ) (s : EnhancedPacketHeader)
    → Decided (packet_option endian code value s)
unfolding packet_option
packet_option-Decided endian code value s e = ground (
  arith,
  range-Decided value 0 4,
  range-Decided value 4 8,
  read_number-Decided 8 endian value,
  read_number-Decided 4 endian value,
)

module _ (block : List ℕ) (endian : Endian) where
  -- The last check of a block.
  checked :
      {A : Type 0} (what : String) (a : A)
      → Decided (check_block_total_length block endian what >>= λ done. ok a)
  checked what a =
      Decided-set (λ done. a) (check_block_total_length block endian what)
        (check_block_total_length-Decided block endian what)

  pub parse_interface-Decided : Decided (parse_interface block endian)
  unfolding parse_interface
  parse_interface-Decided = Decided-if (ltb (length block) 20) _ _ (Decided-err _) (
      Decided-bind _ (range block 8 10) (range-Decided block 8 10) (λ link_type.
        Decided-bind _ (range block 12 16) (range-Decided block 12 16) (λ snap_len.
          Decided-bind _ (all_options (interface_option endian) block endian 16 _)
            (all_options-Decided (interface_option endian) block endian 16 _
              (interface_option-Decided endian))
            (checked "Interface description"))))

  pub parse_simple-Decided : Decided (parse_simple block endian)
  unfolding parse_simple
  parse_simple-Decided = Decided-if (ltb (length block) 16) _ _ (Decided-err _) (
      Decided-bind _ (check_block_total_length block endian "Simple packet")
        (check_block_total_length-Decided block endian "Simple packet")
        (λ done. Decided-bind _ (range block 8 12) (range-Decided block 8 12) (λ original_len.
          Decided-set _ (range block 12 (length block - 4))
            (range-Decided block 12 (length block - 4)))))

  pub parse_enhanced-Decided : Decided (parse_enhanced block endian)
  unfolding parse_enhanced
  parse_enhanced-Decided =
      let fields = packet_fields endian block in
      Decided-if (ltb (length block) 32) _ _ (Decided-err _) (
        Decided-if (ltb 0xffffffff (padded fields.captured_len)) _ _ Decided-panic (
          Decided-if (ltb (length block) (28 + padded fields.captured_len + 4)) _ _ (Decided-err _)
            (Decided-bind _ (range block 28 (28 + fields.captured_len))
              (range-Decided block 28 (28 + fields.captured_len))
              (λ found.
                Decided-bind _
                  (all_options (packet_option endian) block endian (28 + padded fields.captured_len)
                    fields)
                  (all_options-Decided (packet_option endian) block endian
                    (28 + padded fields.captured_len) fields (packet_option-Decided endian))
                  (λ header. checked "Enhanced packet" (header, found))))))

in_i64-Decided : (n : ℤ) → Decided (in_i64 n)
in_i64-Decided (pos n) = Decided-if (ltb n (2 ^ 63)) _ _ (Decided-ok _) Decided-panic
in_i64-Decided (negsuc n) = Decided-if (ltb n (2 ^ 63)) _ _ (Decided-ok _) Decided-panic

power-Decided : (base exponent : ℕ) → Decided (power base exponent)
power-Decided base exponent =
    Decided-if (ltb (base ^ exponent) (2 ^ 63)) _ _ (Decided-ok _) Decided-panic

rescale-Decided : (base fine exponent : ℕ) (raw : ℤ) → Decided (rescale base fine exponent raw)
rescale-Decided base fine exponent raw =
    Decided-if (leb exponent fine) _ _
      (Decided-bind _ (power base (fine - exponent)) (power-Decided base (fine - exponent))
        (λ k. in_i64-Decided (times raw k)))
      (Decided-bind _ (power base (exponent - fine)) (power-Decided base (exponent - fine))
        (λ k. in_i64-Decided (over raw k)))

calc_timestamp-Decided :
    (raw tsresol : ℕ) (tsoffset : ℤ) → Decided (calc_timestamp raw tsresol tsoffset)
unfolding calc_timestamp
calc_timestamp-Decided raw tsresol tsoffset =
    Decided-bind _
      (if ltb tsresol 128
        then rescale 10 9 tsresol (signed 64 raw)
        else rescale 2 30 (tsresol - 128) (signed 64 raw))
      (Decided-if (ltb tsresol 128) _ _ (rescale-Decided 10 9 tsresol (signed 64 raw))
        (rescale-Decided 2 30 (tsresol - 128) (signed 64 raw)))
      (λ timestamp.
        Decided-bind _ (in_i64 (times tsoffset 1000000000))
          (in_i64-Decided (times tsoffset 1000000000))
          (λ offset. in_i64-Decided (plus timestamp offset)))

pub enhanced_record-Decided :
    (header : EnhancedPacketHeader) (interface : InterfaceDescription) (found : List ℕ)
    → Decided (enhanced_record header interface found)
unfolding packet_timestamp
enhanced_record-Decided header interface found = Decided-set _ (packet_timestamp header interface) (
    calc_timestamp-Decided (header.timestamp_high * 2 ^ 32 + header.timestamp_low)
      (unwrap_or interface.tsresol 6) (unwrap_or interface.tsoffset (pos 0)))
