-- ===== src/Capture/Pcapng/Blocks.antt =====
-- The packet blocks of src/capture/format/pcapng.rs and their timestamps.
use maja.Base.{
  ℕ, suc, ◌+◌, ◌-◌, ◌*◌, ◌/◌, ◌^◌, Option, none, some, List, [], ◌∷◌, ◌++◌, ltb, leb, ◌==◌,
  if◌then◌else◌, length, zero,
}
use maja.Context.{slice}
use maja.Capture.{ℤ, pos, negsuc, Endian, read_u32, truncated_capture, PacketRecord}
use maja.Capture.Pcapng.{
  Result, ok, err, panic, ◌>>=◌, range, read_number, padded, all_options, check_block_total_length,
  signed,
}
use maja.Capture.Pcapng.Section.{InterfaceDescription, unwrap_or}

pub record SimplePacketHeader : Type 0 where
  pub original_len : ℕ

-- `SimplePacketHeader::parse`, with the packet data and its padding.
unfoldable pub parse_simple : List ℕ → Endian → Result (SimplePacketHeader × List ℕ)
parse_simple block endian =
    if ltb (length block) 16
    then err (truncated_capture "pcapng simple packet block")
    else (check_block_total_length block endian "Simple packet" >>= λ done.
        range block 8 12 >>= λ original_len. range block 12 (length block - 4) >>= λ found.
        ok (record { original_len = read_u32 endian original_len }, found))

-- `SimplePacketHeader::into_packet_record`.
abbrev pub simple_record : SimplePacketHeader → InterfaceDescription → List ℕ → PacketRecord
simple_record header interface found = record {
  timestamp = pos 0;
  original_length = header.original_len;
  bytes = found;
  link_type = interface.link_type;
}

pub record EnhancedPacketHeader : Type 0 where
  pub interface_id : ℕ
  pub timestamp_high : ℕ
  pub timestamp_low : ℕ
  pub captured_len : ℕ
  pub original_len : ℕ
  pub flags : Option ℕ
  pub hash : List (List ℕ)
  pub drop_count : Option ℕ
  pub packet_id : Option ℕ
  pub queue : Option ℕ
  pub verdict : List (List ℕ)
  pub processid_threadid : Option (ℕ × ℕ)

-- The arms of the options of an enhanced packet.
unfoldable pub packet_option :
    Endian → ℕ → List ℕ → EnhancedPacketHeader → Result EnhancedPacketHeader
packet_option endian code value s =
    if code == 2
    then (read_number 4 endian value >>= λ n. ok (record s { flags = some n }))
    else if code == 3
    then ok (record s { hash = s.hash ++ (value ∷ []) })
    else if code == 4
    then (read_number 8 endian value >>= λ n. ok (record s { drop_count = some n }))
    else if code == 5
    then (read_number 8 endian value >>= λ n. ok (record s { packet_id = some n }))
    else if code == 6
    then (read_number 4 endian value >>= λ n. ok (record s { queue = some n }))
    else if code == 7
    then ok (record s { verdict = s.verdict ++ (value ∷ []) })
    else if code == 8
    then (range value 0 4 >>= λ process. range value 4 8 >>= λ thread.
        ok (record s {
          processid_threadid = some (read_u32 endian process, read_u32 endian thread);
        }))
    else ok s

-- The fixed fields, of a block that holds them.
abbrev pub packet_fields : Endian → List ℕ → EnhancedPacketHeader
packet_fields endian block = record {
  interface_id = read_u32 endian (slice block 8 12);
  timestamp_high = read_u32 endian (slice block 12 16);
  timestamp_low = read_u32 endian (slice block 16 20);
  captured_len = read_u32 endian (slice block 20 24);
  original_len = read_u32 endian (slice block 24 28);
  flags = none;
  hash = [];
  drop_count = none;
  packet_id = none;
  queue = none;
  verdict = [];
  processid_threadid = none;
}

-- `EnhancedPacketHeaderOptions::parse`; the padded length is a `u32`.
unfoldable pub parse_enhanced : List ℕ → Endian → Result (EnhancedPacketHeader × List ℕ)
parse_enhanced block endian =
    if ltb (length block) 32
    then err (truncated_capture "pcapng enhanced packet block")
    else (let fields = packet_fields endian block in
        let options_start = 28 + padded fields.captured_len in
        if ltb 0xffffffff (padded fields.captured_len)
        then panic
        else if ltb (length block) (options_start + 4)
        then err (truncated_capture "pcapng enhanced packet block")
        else (range block 28 (28 + fields.captured_len) >>= λ found.
            all_options (packet_option endian) block endian options_start fields >>= λ header.
            check_block_total_length block endian "Enhanced packet" >>= λ done. ok (header, found)))

-- Minus `n`.
abbrev pub neg : ℕ → ℤ
neg zero = pos 0
neg (suc n) = negsuc n

-- The value of a computation on `i64`, which panics on an overflow.
abbrev pub in_i64 : ℤ → Result ℤ
in_i64 (pos n) = if ltb n (2 ^ 63) then ok (pos n) else panic
in_i64 (negsuc n) = if ltb n (2 ^ 63) then ok (negsuc n) else panic

abbrev pub times : ℤ → ℕ → ℤ
times (pos n) k = pos (n * k)
times (negsuc n) k = neg (suc n * k)

-- Division that rounds towards zero.
abbrev pub over : ℤ → ℕ → ℤ
over (pos n) k = pos (n / k)
over (negsuc n) k = neg (suc n / k)

abbrev sub_ℕ : ℕ → ℕ → ℤ
sub_ℕ a b = if leb b a then pos (a - b) else negsuc (b - a - 1)

abbrev pub plus : ℤ → ℤ → ℤ
plus (pos a) (pos b) = pos (a + b)
plus (pos a) (negsuc b) = sub_ℕ a (suc b)
plus (negsuc a) (pos b) = sub_ℕ b (suc a)
plus (negsuc a) (negsuc b) = negsuc (a + b + 1)

-- `base.pow(exponent)` on `i64`.
abbrev pub power : ℕ → ℕ → Result ℕ
power base exponent = if ltb (base ^ exponent) (2 ^ 63) then ok (base ^ exponent) else panic

-- A counter in units of `base ^ -exponent` seconds, in units of `base ^ -fine`.
abbrev pub rescale : ℕ → ℕ → ℕ → ℤ → Result ℤ
rescale base fine exponent raw =
    if leb exponent fine
    then (power base (fine - exponent) >>= λ k. in_i64 (times raw k))
    else (power base (exponent - fine) >>= λ k. in_i64 (over raw k))

-- `EnhancedPacketHeaderOptions::calc_timestamp`; `raw as i64` is its two's complement.
unfoldable pub calc_timestamp : ℕ → ℕ → ℤ → Result ℤ
calc_timestamp raw tsresol tsoffset =
    (if ltb tsresol 128
      then rescale 10 9 tsresol (signed 64 raw)
      else rescale 2 30 (tsresol - 128) (signed 64 raw))
    >>= λ timestamp. in_i64 (times tsoffset 1000000000) >>= λ offset. in_i64 (plus timestamp offset)

-- `packet_timestamp` and `into_packet_record`.
unfoldable pub packet_timestamp : EnhancedPacketHeader → InterfaceDescription → Result ℤ
unfolding calc_timestamp
packet_timestamp header interface =
    calc_timestamp (header.timestamp_high * 2 ^ 32 + header.timestamp_low)
      (unwrap_or interface.tsresol 6) (unwrap_or interface.tsoffset (pos 0))

abbrev pub enhanced_record :
    EnhancedPacketHeader → InterfaceDescription → List ℕ → Result PacketRecord
enhanced_record header interface found = packet_timestamp header interface >>= λ timestamp.
    ok (record {
      timestamp = timestamp;
      original_length = header.original_len;
      bytes = found;
      link_type = interface.link_type;
    })
