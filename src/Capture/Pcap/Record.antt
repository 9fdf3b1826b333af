-- ===== src/Capture/Pcap/Record.antt =====
-- One packet that `PcapWriter` writes, as `PcapSliceReader` reads it.
use mathlib.Core.List.{append_assoc}
use maja.Base.{
  ℕ, ◌+◌, ◌-◌, ◌^◌, ◌≤◌, ◌<◌, ◌≡◌, refl, sym, ap, ◌∙◌, Bool, false, some, List, ◌++◌, arith, ltb,
  ◌==◌, length, length-append, take, drop, take-append, drop-append, length-take,
}
use maja.Base.Words.{to_bytes, length-to_bytes}
use maja.Context.{slice}
use maja.Capture.{ok, is_big}
use maja.Capture.Pcap.{PcapHeader, endian, PcapPacketHeader, parse_packet_header}
use maja.Capture.Pcap.Reader.{PcapPacketRecord, SliceReader, read_packet_raw}
use maja.Capture.Pcap.Writer.{Writer, captured, write_packet_raw}
use maja.Capture.Pcap.Layout.{parse_packet_header-written}

-- The fields of the header are `u32`s.
pub record Fits (header : PcapPacketHeader) : Type 0 where
  pub ts_sec : header.ts_sec < 2 ^ 32
  pub ts_usec : header.ts_usec < 2 ^ 32
  pub incl_len : header.incl_len < 2 ^ 32
  pub orig_len : header.orig_len < 2 ^ 32

captured-le :
    (w : Writer) (header : PcapPacketHeader) (bytes : List ℕ)
    → captured w header bytes ≤ length bytes
captured-le w header bytes = omega arith

-- What the reader makes of it.
abbrev pub expected : Writer → PcapPacketHeader → List ℕ → PcapPacketRecord
expected w header bytes = record {
  offset = length w.written;
  header = record header { incl_len = captured w header bytes };
  bytes = take (captured w header bytes) bytes;
}

slice-body :
    (before head body more : List ℕ)
    → length head ≡ 16
    → slice
        (before ++ (head ++ (body ++ more)))
        (length before + 16)
        (length before + 16 + length body)
      ≡ body
slice-body before head body more sixteen =
    let e : length before + 16 + length body - (length before + 16) ≡ length body = omega arith in
    let l : length (before ++ head) ≡ length before + 16 =
      omega (arith, length-append before head) in
    rw (e, sym (append_assoc before head (body ++ more)))
      (rw (drop-append (length before + 16) (before ++ head) (body ++ more) l)
        (take-append (length body) body more refl))

-- A record that stands at the position of the reader.
read_packet_raw-at :
    (global : PcapHeader) (before head body more : List ℕ) (h : PcapPacketHeader)
    → length head ≡ 16
    → parse_packet_header (head ++ (body ++ more)) (endian global) ≡ h
    → h.incl_len ≡ length body
    → read_packet_raw
        (record { header = global; bytes = before ++ (head ++ (body ++ more)); at = length before })
      ≡ (
        ok (some (record { offset = length before; header = h; bytes = body })),
        record {
          header = global;
          bytes = before ++ (head ++ (body ++ more));
          at = length before + 16 + length body;
        },
      )
unfolding read_packet_raw
read_packet_raw-at global before head body more h sixteen parsed len =
    let all : List ℕ = before ++ (head ++ (body ++ more)) in
    let l1 = length-append before (head ++ (body ++ more)) in
    let l2 = length-append head (body ++ more) in
    let l3 = length-append body more in
    let rest : drop (length before) all ≡ head ++ (body ++ more) =
      drop-append (length before) before _ refl in
    let filled : (length (head ++ (body ++ more)) == 0) ≡ false = ground arith in
    let long : ltb (length (head ++ (body ++ more))) 16 ≡ false = ground arith in
    let room : ltb (length all) (length before + 16 + length body) ≡ false = ground arith in
    let body_at : slice all (length before + 16) (length before + 16 + length body) ≡ body =
      slice-body before head body more sixteen in
    rw rest (rw (filled, long) (rw (parsed, len) (rw room (rw body_at refl))))

regroup :
    (before a b c d body more : List ℕ)
    → (before ++ (a ++ (b ++ (c ++ (d ++ body))))) ++ more
      ≡ before ++ ((a ++ (b ++ (c ++ d))) ++ (body ++ more))
regroup before a b c d body more =
    rw
      (
        append_assoc before (a ++ (b ++ (c ++ (d ++ body)))) more,
        append_assoc a (b ++ (c ++ (d ++ body))) more,
        append_assoc b (c ++ (d ++ body)) more,
        append_assoc c (d ++ body) more,
        append_assoc d body more,
        append_assoc a (b ++ (c ++ d)) (body ++ more),
        append_assoc b (c ++ d) (body ++ more),
        append_assoc c d (body ++ more),
      )
      refl

regroup_head :
    (a b c d tail : List ℕ) → (a ++ (b ++ (c ++ d))) ++ tail ≡ a ++ (b ++ (c ++ (d ++ tail)))
regroup_head a b c d tail =
    rw (append_assoc a (b ++ (c ++ d)) tail, append_assoc b (c ++ d) tail, append_assoc c d tail)
      refl

length-words :
    (a b c d : List ℕ)
    → length a ≡ 4
    → length b ≡ 4
    → length c ≡ 4
    → length d ≡ 4
    → length (a ++ (b ++ (c ++ d))) ≡ 16
length-words a b c d p q r s =
    omega (arith, length-append a (b ++ (c ++ d)), length-append b (c ++ d), length-append c d)

abbrev record_bytes : Bool → PcapPacketHeader → List ℕ → List ℕ
record_bytes big_endian h body =
    to_bytes big_endian 4 h.ts_sec
    ++ (to_bytes big_endian 4 h.ts_usec
        ++ (to_bytes big_endian 4 h.incl_len ++ (to_bytes big_endian 4 h.orig_len ++ body)))

-- The state of a reader.
abbrev pub reading : PcapHeader → List ℕ → ℕ → SliceReader
reading global bytes at = record { header = global; bytes = bytes; at = at }

module _ (global : PcapHeader) where
  read_packet_raw-endian :
      (before : List ℕ) (h : PcapPacketHeader) (body more : List ℕ)
      → Fits h
      → h.incl_len ≡ length body
      → read_packet_raw (
          reading global
            ((before ++ record_bytes (is_big (endian global)) h body) ++ more)
            (length before))
        ≡ (
          ok (some (record { offset = length before; header = h; bytes = body })),
          reading global
              ((before ++ record_bytes (is_big (endian global)) h body) ++ more)
              (length (before ++ record_bytes (is_big (endian global)) h body)),
        )
  read_packet_raw-endian before h body more fits len =
      let w4 = λ (v : ℕ). to_bytes (is_big (endian global)) 4 v in
      let four = λ (v : ℕ). length-to_bytes (is_big (endian global)) 4 v in
      let a : List ℕ = w4 h.ts_sec in
      let b : List ℕ = w4 h.ts_usec in
      let c : List ℕ = w4 h.incl_len in
      let d : List ℕ = w4 h.orig_len in
      let head : List ℕ = a ++ (b ++ (c ++ d)) in
      let sixteen : length head ≡ 16 =
        length-words a b c d (four h.ts_sec) (four h.ts_usec) (four h.incl_len) (four h.orig_len) in
      let parsed : parse_packet_header (head ++ (body ++ more)) (endian global) ≡ h =
        ap (λ (t : List ℕ). parse_packet_header t (endian global))
          (regroup_head a b c d (body ++ more))
        ∙ parse_packet_header-written (endian global) h (body ++ more) fits.ts_sec fits.ts_usec
            fits.incl_len fits.orig_len in
      let whole = regroup before a b c d body more in
      let behind : length (before ++ record_bytes (is_big (endian global)) h body)
          ≡ length before + 16 + length body =
        omega (
          arith,
          length-append before (record_bytes (is_big (endian global)) h body),
          ap (λ (t : List ℕ). length t) (regroup_head a b c d body),
          length-append head body,
          sixteen,
        ) in
      rw (behind, whole) (read_packet_raw-at global before head body more h sixteen parsed len)

  read_packet_raw-order :
      (big_endian : Bool) (before : List ℕ) (h : PcapPacketHeader) (body more : List ℕ)
      → big_endian ≡ is_big (endian global)
      → Fits h
      → h.incl_len ≡ length body
      → read_packet_raw
          (reading global ((before ++ record_bytes big_endian h body) ++ more) (length before))
        ≡ (
          ok (some (record { offset = length before; header = h; bytes = body })),
          reading global
              ((before ++ record_bytes big_endian h body) ++ more)
              (length (before ++ record_bytes big_endian h body)),
        )
  read_packet_raw-order big_endian before h body more same fits len =
      rw same (read_packet_raw-endian before h body more fits len)

  -- A reader at the position where a packet was written gives that packet, and moves behind it.
  pub read_packet_raw-written :
      (w : Writer) (header : PcapPacketHeader) (bytes more : List ℕ)
      → w.big_endian ≡ is_big (endian global)
      → Fits header
      → read_packet_raw
          (reading global ((write_packet_raw w header bytes).written ++ more) (length w.written))
        ≡ (
          ok (some (expected w header bytes)),
          reading global
              ((write_packet_raw w header bytes).written ++ more)
              (length (write_packet_raw w header bytes).written),
        )
  unfolding write_packet_raw
  read_packet_raw-written w header bytes more same fits =
      let n : ℕ = captured w header bytes in
      read_packet_raw-order w.big_endian w.written (record header { incl_len = n }) (take n bytes)
        more same
        (record {
          ts_sec = fits.ts_sec;
          ts_usec = fits.ts_usec;
          incl_len = omega (arith, fits.incl_len);
          orig_len = fits.orig_len;
        })
        (omega (arith, length-take n bytes))
