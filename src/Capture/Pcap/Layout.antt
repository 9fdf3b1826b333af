-- ===== src/Capture/Pcap/Layout.antt =====
-- The headers of a capture, as bytes, and what is read from them.
use mathlib.Core.List.{append_assoc}
use maja.Base.{
  ℕ, zero, suc, ◌+◌, ◌^◌, ◌≤◌, ◌<◌, ◌≡◌, refl, ap, ◌∙◌, Bool, true, false, some, List, [], ◌∷◌,
  ◌++◌, arith, ltb, length, length-append, take, drop, take-append,
}
use maja.Base.Words.{from_bytes, to_bytes, from_bytes-to_bytes, length-to_bytes}
use maja.Protocol.{LinkType}
use maja.Capture.{ok, Endian, big, little, is_big, read_u16, read_u32, link_type_into}
use maja.Capture.Pcap.{
  PcapHeader, parse_header, endian_of, header_fields, PcapPacketHeader, parse_packet_header,
}
use maja.Capture.Pcap.Writer.{new_writer, new_header, magic_of}

drop-past :
    {A : Type 0} (n k : ℕ) (xs ys : List A) → length xs ≡ n → drop (n + k) (xs ++ ys) ≡ drop k ys
drop-past zero k [] ys h = ap (λ (m : ℕ). drop m ys) (omega arith)
drop-past zero k (x ∷ xs) ys h = absurd (omega arith)
drop-past (suc n) k [] ys h = absurd (omega arith)
drop-past (suc n) k (x ∷ xs) ys h =
    let e : suc n + k ≡ suc (n + k) = omega arith in rw e (drop-past n k xs ys (omega arith))

pub read_u32-to_bytes :
    (e : Endian) (v : ℕ) (more : List ℕ)
    → v < 2 ^ 32
    → read_u32 e (to_bytes (is_big e) 4 v ++ more) ≡ v
unfolding read_u32
read_u32-to_bytes e v more h =
    rw (take-append 4 (to_bytes (is_big e) 4 v) more (length-to_bytes (is_big e) 4 v))
      (from_bytes-to_bytes (is_big e) 4 v (omega arith))

pub read_u16-to_bytes :
    (e : Endian) (v : ℕ) (more : List ℕ)
    → v < 2 ^ 16
    → read_u16 e (to_bytes (is_big e) 2 v ++ more) ≡ v
unfolding read_u16
read_u16-to_bytes e v more h =
    rw (take-append 2 (to_bytes (is_big e) 2 v) more (length-to_bytes (is_big e) 2 v))
      (from_bytes-to_bytes (is_big e) 2 v (omega arith))

-- A packet header that was written, and whatever follows it, reads back.
pub parse_packet_header-written :
    (e : Endian) (header : PcapPacketHeader) (more : List ℕ)
    → header.ts_sec < 2 ^ 32
    → header.ts_usec < 2 ^ 32
    → header.incl_len < 2 ^ 32
    → header.orig_len < 2 ^ 32
    → parse_packet_header
        (to_bytes (is_big e) 4 header.ts_sec
          ++ (to_bytes (is_big e) 4 header.ts_usec
              ++ (to_bytes (is_big e) 4 header.incl_len
                  ++ (to_bytes (is_big e) 4 header.orig_len ++ more))))
        e
      ≡ header
unfolding parse_packet_header
parse_packet_header-written e header more a b c d =
    let w = λ (v : ℕ). to_bytes (is_big e) 4 v in
    let past = λ (k v : ℕ) (ys : List ℕ). drop-past 4 k (w v) ys (length-to_bytes (is_big e) 4 v) in
    let r3 : List ℕ = w header.orig_len ++ more in
    let r2 : List ℕ = w header.incl_len ++ r3 in
    let r1 : List ℕ = w header.ts_usec ++ r2 in
    let f0 = read_u32-to_bytes e header.ts_sec r1 a in
    let f1 = ap (read_u32 e) (past 0 header.ts_sec r1) ∙ read_u32-to_bytes e header.ts_usec r2 b in
    let f2 =
      ap (read_u32 e) (past 4 header.ts_sec r1 ∙ past 0 header.ts_usec r2)
      ∙ read_u32-to_bytes e header.incl_len r3 c in
    let f3 =
      ap (read_u32 e)
        (past 8 header.ts_sec r1 ∙ past 4 header.ts_usec r2 ∙ past 0 header.incl_len r3)
      ∙ read_u32-to_bytes e header.orig_len more d in
    rw (f0, f1, f2, f3) refl

-- The fields of the global header behind the magic number.
header_fields-written :
    (e : Endian) (h : PcapHeader) (more : List ℕ)
    → h.major_version < 2 ^ 16
    → h.minor_version < 2 ^ 16
    → h.reserved_1 < 2 ^ 32
    → h.reserved_2 < 2 ^ 32
    → h.snap_len < 2 ^ 32
    → h.additional_info_link_type < 2 ^ 32
    → header_fields h.magic_number e (
        to_bytes true 4 h.magic_number
        ++ (to_bytes (is_big e) 2 h.major_version
            ++ (to_bytes (is_big e) 2 h.minor_version
                ++ (to_bytes (is_big e) 4 h.reserved_1
                    ++ (to_bytes (is_big e) 4 h.reserved_2
                        ++ (to_bytes (is_big e) 4 h.snap_len
                            ++ (to_bytes (is_big e) 4 h.additional_info_link_type ++ more)))))))
      ≡ h
header_fields-written e h more a b c d f g =
    let w2 = λ (v : ℕ). to_bytes (is_big e) 2 v in
    let w4 = λ (v : ℕ). to_bytes (is_big e) 4 v in
    let magic = λ (k : ℕ) (ys : List ℕ).
      drop-past 4 k (to_bytes true 4 h.magic_number) ys (length-to_bytes true 4 h.magic_number) in
    let past2 =
      λ (k v : ℕ) (ys : List ℕ). drop-past 2 k (w2 v) ys (length-to_bytes (is_big e) 2 v) in
    let past4 =
      λ (k v : ℕ) (ys : List ℕ). drop-past 4 k (w4 v) ys (length-to_bytes (is_big e) 4 v) in
    let r6 : List ℕ = w4 h.additional_info_link_type ++ more in
    let r5 : List ℕ = w4 h.snap_len ++ r6 in
    let r4 : List ℕ = w4 h.reserved_2 ++ r5 in
    let r3 : List ℕ = w4 h.reserved_1 ++ r4 in
    let r2 : List ℕ = w2 h.minor_version ++ r3 in
    let r1 : List ℕ = w2 h.major_version ++ r2 in
    let f1 = ap (read_u16 e) (magic 0 r1) ∙ read_u16-to_bytes e h.major_version r2 a in
    let f2 =
      ap (read_u16 e) (magic 2 r1 ∙ past2 0 h.major_version r2)
      ∙ read_u16-to_bytes e h.minor_version r3 b in
    let f3 =
      ap (read_u32 e) (magic 4 r1 ∙ past2 2 h.major_version r2 ∙ past2 0 h.minor_version r3)
      ∙ read_u32-to_bytes e h.reserved_1 r4 c in
    let f4 =
      ap (read_u32 e) (
        magic 8 r1
        ∙ past2 6 h.major_version r2
        ∙ past2 4 h.minor_version r3
        ∙ past4 0 h.reserved_1 r4)
      ∙ read_u32-to_bytes e h.reserved_2 r5 d in
    let f5 =
      ap (read_u32 e) (
        magic 12 r1
        ∙ past2 10 h.major_version r2
        ∙ past2 8 h.minor_version r3
        ∙ past4 4 h.reserved_1 r4
        ∙ past4 0 h.reserved_2 r5)
      ∙ read_u32-to_bytes e h.snap_len r6 f in
    let f6 =
      ap (read_u32 e) (
        magic 16 r1
        ∙ past2 14 h.major_version r2
        ∙ past2 12 h.minor_version r3
        ∙ past4 8 h.reserved_1 r4
        ∙ past4 4 h.reserved_2 r5
        ∙ past4 0 h.snap_len r6)
      ∙ read_u32-to_bytes e h.additional_info_link_type more g in
    rw (f1, f2, f3, f4, f5, f6) refl

endian_of-magic :
    (e : Endian) (nanosecond : Bool) → endian_of (magic_of (is_big e) nanosecond) ≡ some e
endian_of-magic big true = refl
endian_of-magic big false = refl
endian_of-magic little true = refl
endian_of-magic little false = refl

magic-lt : (big_endian nanosecond : Bool) → magic_of big_endian nanosecond < 2 ^ 32
magic-lt true true = omega arith
magic-lt true false = omega arith
magic-lt false true = omega arith
magic-lt false false = omega arith

assoc_six :
    (a b c d e f g more : List ℕ)
    → (a ++ (b ++ (c ++ (d ++ (e ++ (f ++ g)))))) ++ more
      ≡ a ++ (b ++ (c ++ (d ++ (e ++ (f ++ (g ++ more))))))
assoc_six a b c d e f g more =
    append_assoc a _ more
    ∙ ap (λ (t : List ℕ). a ++ t)
        (append_assoc b _ more
          ∙ ap (λ (t : List ℕ). b ++ t)
              (append_assoc c _ more
                ∙ ap (λ (t : List ℕ). c ++ t)
                    (append_assoc d _ more
                      ∙ ap (λ (t : List ℕ). d ++ t)
                          (append_assoc e _ more
                            ∙ ap (λ (t : List ℕ). e ++ t) (append_assoc f g more)))))

length-written : (xs ys : List ℕ) (n : ℕ) → length xs ≡ n → length (xs ++ ys) ≡ n + length ys
length-written xs ys n h = omega (arith, length-append xs ys)

read_magic :
    (m : ℕ) (more : List ℕ) → m < 2 ^ 32 → from_bytes true (take 4 (to_bytes true 4 m ++ more)) ≡ m
unfolding read_u32
read_magic m more h = read_u32-to_bytes big m more h

parse_header-steps :
    (bytes : List ℕ) (m : ℕ) (e : Endian) (h : PcapHeader)
    → 24 ≤ length bytes
    → from_bytes true (take 4 bytes) ≡ m
    → endian_of m ≡ some e
    → header_fields m e bytes ≡ h
    → parse_header bytes ≡ ok h
unfolding parse_header
parse_header-steps bytes m e h long magic order fields =
    let s : ltb (length bytes) 24 ≡ false = ground arith in
    rw s (rw magic (rw order (ap ok fields)))

parse_header-written :
    (e : Endian) (h : PcapHeader) (more : List ℕ)
    → endian_of h.magic_number ≡ some e
    → h.magic_number < 2 ^ 32
    → h.major_version < 2 ^ 16
    → h.minor_version < 2 ^ 16
    → h.reserved_1 < 2 ^ 32
    → h.reserved_2 < 2 ^ 32
    → h.snap_len < 2 ^ 32
    → h.additional_info_link_type < 2 ^ 32
    → parse_header (
        to_bytes true 4 h.magic_number
        ++ (to_bytes (is_big e) 2 h.major_version
            ++ (to_bytes (is_big e) 2 h.minor_version
                ++ (to_bytes (is_big e) 4 h.reserved_1
                    ++ (to_bytes (is_big e) 4 h.reserved_2
                        ++ (to_bytes (is_big e) 4 h.snap_len
                            ++ (to_bytes (is_big e) 4 h.additional_info_link_type ++ more)))))))
      ≡ ok h
parse_header-written e h more magic m a b c d f g =
    let w2 = λ (v : ℕ). to_bytes (is_big e) 2 v in
    let w4 = λ (v : ℕ). to_bytes (is_big e) 4 v in
    let r6 : List ℕ = w4 h.additional_info_link_type ++ more in
    let r5 : List ℕ = w4 h.snap_len ++ r6 in
    let r4 : List ℕ = w4 h.reserved_2 ++ r5 in
    let r3 : List ℕ = w4 h.reserved_1 ++ r4 in
    let r2 : List ℕ = w2 h.minor_version ++ r3 in
    let r1 : List ℕ = w2 h.major_version ++ r2 in
    parse_header-steps (to_bytes true 4 h.magic_number ++ r1) h.magic_number e h
      (omega (
        arith,
        length-written (to_bytes true 4 h.magic_number) r1 4
            (length-to_bytes true 4 h.magic_number),
        length-written (w2 h.major_version) r2 2 (length-to_bytes (is_big e) 2 h.major_version),
        length-written (w2 h.minor_version) r3 2 (length-to_bytes (is_big e) 2 h.minor_version),
        length-written (w4 h.reserved_1) r4 4 (length-to_bytes (is_big e) 4 h.reserved_1),
        length-written (w4 h.reserved_2) r5 4 (length-to_bytes (is_big e) 4 h.reserved_2),
        length-written (w4 h.snap_len) r6 4 (length-to_bytes (is_big e) 4 h.snap_len),
        length-written (w4 h.additional_info_link_type) more 4
            (length-to_bytes (is_big e) 4 h.additional_info_link_type),
      ))
      (read_magic h.magic_number r1 m) magic (header_fields-written e h more a b c d f g)

module _ (nanosecond : Bool) (snap_len : ℕ) (link_type : LinkType) (more : List ℕ) where
  parse_header-endian :
      (e : Endian)
      → snap_len < 2 ^ 32
      → link_type_into link_type < 2 ^ 16
      → parse_header ((new_writer (is_big e) nanosecond snap_len link_type).written ++ more)
        ≡ ok (new_header (is_big e) nanosecond snap_len link_type)
  unfolding new_writer
  parse_header-endian e h k =
      let header = new_header (is_big e) nanosecond snap_len link_type in
      let w4 = λ (v : ℕ). to_bytes (is_big e) 4 v in
      ap parse_header (
        assoc_six (to_bytes true 4 header.magic_number) (to_bytes (is_big e) 2 2)
          (to_bytes (is_big e) 2 4) (w4 0) (w4 0) (w4 snap_len) (w4 (link_type_into link_type))
          more)
      ∙ parse_header-written e (new_header (is_big e) nanosecond snap_len link_type) more
          (endian_of-magic e nanosecond) (magic-lt (is_big e) nanosecond) (omega arith)
          (omega arith) (omega arith) (omega arith) h (omega arith)

  -- The global header that a writer has written, and whatever follows it, reads back.
  pub parse_header-new_writer :
      (big_endian : Bool)
      → snap_len < 2 ^ 32
      → link_type_into link_type < 2 ^ 16
      → parse_header ((new_writer big_endian nanosecond snap_len link_type).written ++ more)
        ≡ ok (new_header big_endian nanosecond snap_len link_type)
  parse_header-new_writer true h k = parse_header-endian big h k
  parse_header-new_writer false h k = parse_header-endian little h k
