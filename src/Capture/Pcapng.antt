-- ===== src/Capture/Pcapng.antt =====
-- src/capture/format/pcapng.rs: results, numbers and options. `panic` is a slice or an index that is
-- out of bounds, or an overflow in a build that checks for it; `stuck` is that the fuel of a loop ran
-- out, which never happens. Logging is left out.
pub mod Section
pub mod Blocks
pub mod Reader
pub mod Decided
pub mod Bodies
pub mod Progress
pub mod Scan
mod Tests
pub mod Stream
pub mod Blockwise
pub mod Streamed
pub mod Agree
use Prim.Native.String.{String}
use maja.Base.{
  ℕ, zero, suc, ◌+◌, ◌-◌, ◌*◌, ◌/◌, ◌^◌, Bool, true, false, ◌&&◌, ◌||◌, Option, none, some, List,
  [], ◌∷◌, ltb, leb, ◌==◌, if◌then◌else◌, length, get_elem?, take, drop,
}
use maja.Base.Words.{from_bytes}
use maja.Context.{slice}
use maja.Capture.{
  ℤ, pos, negsuc, CaptureError, Endian, is_big, read_u16, read_u32,
  pcapng_block_total_length_mismatch, from_utf8,
}

pub data Result (A : Type 0) : Type 0 where
  ok : A → Result A
  err : CaptureError → Result A
  panic stuck : Result A

infixl 5 ◌>>=◌
abbrev pub ◌>>=◌ : {A B : Type 0} → Result A → (A → Result B) → Result B
ok a >>= f = f a
err e >>= f = err e
panic >>= f = panic
stuck >>= f = stuck

-- `&bytes[start..stop]` and `bytes[index]`.
unfoldable pub range : List ℕ → ℕ → ℕ → Result (List ℕ)
range bytes start stop =
    if leb start stop && leb stop (length bytes) then ok (slice bytes start stop) else panic

abbrev or_panic : {A : Type 0} → Option A → Result A
or_panic none = panic
or_panic (some a) = ok a

abbrev pub index : List ℕ → ℕ → Result ℕ
index bytes i = or_panic (get_elem? bytes i)

-- `Endian::read_u32`, `read_u64` and the signed ones index up to their width.
abbrev pub read_number : ℕ → Endian → List ℕ → Result ℕ
read_number width endian bytes =
    range bytes 0 width >>= λ octets. ok (from_bytes (is_big endian) octets)

-- Two's complement in `bits` bits.
abbrev pub signed : ℕ → ℕ → ℤ
signed bits n = if ltb n (2 ^ (bits - 1)) then pos n else negsuc (2 ^ bits - 1 - n)

abbrev pub read_signed : ℕ → Endian → List ℕ → Result ℤ
read_signed width endian bytes = read_number width endian bytes >>= λ n. ok (signed (8 * width) n)

-- Well-formed UTF-8, by the ranges of the continuation bytes.
abbrev continues : ℕ → Bool
continues b = leb 0x80 b && leb b 0xBF

abbrev pub second_ok : ℕ → ℕ → Bool
second_ok a b =
    if a == 0xE0
    then leb 0xA0 b && leb b 0xBF
    else if a == 0xED
    then leb 0x80 b && leb b 0x9F
    else if a == 0xF0
    then leb 0x90 b && leb b 0xBF
    else if a == 0xF4
    then leb 0x80 b && leb b 0x8F
    else continues b

-- The number of continuation bytes after a first byte.
abbrev pub continuation_len : ℕ → Option ℕ
continuation_len a =
    if ltb a 0x80
    then some 0
    else if leb 0xC2 a && leb a 0xDF
    then some 1
    else if leb 0xE0 a && leb a 0xEF
    then some 2
    else if leb 0xF0 a && leb a 0xF4
    then some 3
    else none

abbrev pub all_continue : List ℕ → Bool
all_continue [] = true
all_continue (b ∷ bs) = continues b && all_continue bs

-- One character at the front of the bytes: the bytes behind it.
abbrev pub char_rest : List ℕ → Option (List ℕ)
char_rest [] = none
char_rest (a ∷ rest) = elim (continuation_len a) [
  | none ↦ none
  | some n ↦ if n == 0 then some rest else (elim (get_elem? rest 0) [
    | none ↦ none
    | some b ↦
        if second_ok a b && leb n (length rest) && all_continue (take (n - 1) (drop 1 rest))
        then some (drop n rest)
        else none
  ])
]

pub is_utf8 : ℕ → List ℕ → Bool
is_utf8 fuel [] = true
is_utf8 zero (a ∷ rest) = false
is_utf8 (suc fuel) (a ∷ rest) = elim (char_rest (a ∷ rest)) [
  | none ↦ false
  | some others ↦ is_utf8 fuel others
]

-- `String::from_utf8`; a text is its bytes.
unfoldable pub text : List ℕ → Result (List ℕ)
unfolding is_utf8
text bytes = if is_utf8 (length bytes) bytes then ok bytes else err from_utf8

abbrev pub padded : ℕ → ℕ
padded n = (n + 3) / 4 * 4

-- An option: its type, its value, and where the next one starts.
pub record Located : Type 0 where
  pub code : ℕ
  pub value : List ℕ
  pub next : ℕ

-- `read_option`; the padded length is a `u16`.
unfoldable pub read_option : List ℕ → Endian → ℕ → Result Located
read_option block endian offset = range block offset (offset + 2) >>= λ type_bytes.
    range block (offset + 2) (offset + 4) >>= λ length_bytes.
    (let code = read_u16 endian type_bytes in
      let len = read_u16 endian length_bytes in
      if code == 0
      then ok (record { code = code; value = []; next = offset + 4 })
      else (range block (offset + 4) (offset + 4 + len) >>= λ value.
          if ltb 0xffff (padded len)
          then panic
          else ok (record { code = code; value = value; next = offset + 4 + padded len })))

-- The loop over the options of a block, with what each one does to the fields.
unfoldable pub options :
    {S : Type 0} → (ℕ → List ℕ → S → Result S) → ℕ → List ℕ → Endian → ℕ → S → Result S
options step zero block endian position s = stuck
options step (suc fuel) block endian position s =
    let more = read_option block endian position >>= λ found.
    (let others =
        step found.code found.value s >>= λ s'. options step fuel block endian found.next s' in
      if found.code == 0 then ok s else others) in
    if ltb position (length block - 4) then more else ok s

-- One unit of fuel for each byte is enough, since every option takes four bytes at least.
abbrev pub all_options :
    {S : Type 0} → (ℕ → List ℕ → S → Result S) → List ℕ → Endian → ℕ → S → Result S
all_options step block endian position s = options step (suc (length block)) block endian position s

-- `check_block_total_length`.
unfoldable pub check_block_total_length : List ℕ → Endian → String → Result (Unit {0})
check_block_total_length block endian what = range block 4 8 >>= λ leading_bytes.
    range block (length block - 4) (length block) >>= λ trailing_bytes.
    (let leading = read_u32 endian leading_bytes in
      let trailing = read_u32 endian trailing_bytes in
      if leading == trailing
      then ok tt
      else err (pcapng_block_total_length_mismatch what leading trailing))
