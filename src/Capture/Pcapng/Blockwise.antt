-- ===== src/Capture/Pcapng/Blockwise.antt =====
-- `PcapngReader::read_next_block` of src/capture/format/pcapng.rs takes the block at which the reader
-- over a slice stands.
use maja.Base.{
  ℕ, zero, suc, ◌+◌, ◌-◌, ◌≤◌, ◌≡◌, refl, ap, ◌∙◌, true, Option, none, some, List, [], ◌∷◌, ◌++◌,
  arith, leb, ◌==◌, le→leb, le→not_ltb, length, take, drop, length-take, length-drop, drop-drop,
  Bool-cases, inl, inr,
}
use maja.Base.Words.{from_bytes}
use maja.Context.{slice}
use maja.Capture.{Endian, read_u32, invalid_magic_number}
use maja.Capture.Pcapng.Stream
use maja.Capture.Pcapng.{Result, ok, err}
use maja.Capture.Pcapng.Section.{SectionHeader, magic_endian}
use maja.Capture.Pcapng.Reader.{SliceReader, section_type, section_block_type, block_type}
use maja.Capture.Pcapng.Stream.{
  StreamReader, and_then, read_exact, buffered, read_type, read_body, read_whole, or_end,
  read_next_block,
}

-- The first `k` of the bytes are in the buffer.
abbrev pub partial : SliceReader → List ℕ → ℕ → StreamReader
partial s bytes k = record {
  section = s.section;
  interfaces = s.interfaces;
  rest = drop k bytes;
  buffer = take k bytes;
}

take-take-drop : (k n m : ℕ) (xs : List ℕ) → k + n ≡ m → take k xs ++ take n (drop k xs) ≡ take m xs
take-take-drop zero n m xs h = ap (λ (i : ℕ). take i xs) (omega arith)
take-take-drop (suc k) n zero xs h = absurd (omega arith)
take-take-drop (suc k) zero (suc m) [] h = refl
take-take-drop (suc k) (suc n) (suc m) [] h = refl
take-take-drop (suc k) n (suc m) (x ∷ xs) h =
    ap (λ (ys : List ℕ). x ∷ ys) (take-take-drop k n m xs (omega arith))

take-take : (n : ℕ) (xs : List ℕ) → take n (take n xs) ≡ take n xs
take-take zero xs = refl
take-take (suc n) [] = refl
take-take (suc n) (x ∷ xs) = ap (λ (ys : List ℕ). x ∷ ys) (take-take n xs)

section_block_type-take :
    (section : Option SectionHeader) (xs : List ℕ)
    → section_block_type section (take 4 xs) ≡ section_block_type section xs
section_block_type-take none xs = rw (take-take 4 xs) refl
section_block_type-take (some s) xs = rw (take-take 4 xs) refl

-- The stream from the position of the reader over a slice on.
abbrev pub streaming : SliceReader → List ℕ → StreamReader
streaming s buffer = record {
  section = s.section;
  interfaces = s.interfaces;
  rest = drop s.at s.bytes;
  buffer = buffer;
}

module _ (s : SliceReader) (xs : List ℕ) where
  buffered-partial :
      (k n m : ℕ)
      → k + n ≡ m
      → m ≤ length xs
      → buffered n (partial s xs k) ≡ (ok (take n (drop k xs)), partial s xs m)
  unfolding buffered read_exact
  buffered-partial k n m h room =
      let fits : leb n (length (drop k xs)) ≡ true =
        le→leb n (length (drop k xs)) (omega (arith, length-drop k xs)) in
      rw fits (rw (drop-drop k n m xs h) (rw (take-take-drop k n m xs h) refl))

  read_body-partial :
      (k total : ℕ)
      → k ≤ total
      → total ≤ length xs
      → read_body total (partial s xs k) ≡ (ok (take (total - k) (drop k xs)), partial s xs total)
  unfolding read_body
  read_body-partial k total low room =
      let len : length (take k xs) ≡ k = omega (arith, length-take k xs) in
      rw len (rw (le→not_ltb total k low) (buffered-partial k (total - k) total (omega arith) room))

  -- A section header carries its byte order, which is read too.
  read_type-header :
      (from_bytes true (take 4 xs) == section_type) ≡ true
      → 12 ≤ length xs
      → read_type (take 4 xs) (partial s xs 8)
        ≡ (ok (section_type, magic_endian (slice xs 8 12)), partial s xs 12)
  unfolding read_type
  read_type-header header room = rw header (rw (buffered-partial 8 4 12 refl room) refl)

  read_type-found :
      (found : ℕ × Endian)
      → 12 ≤ length xs
      → block_type s.section xs ≡ ok found
      → (k : ℕ) × (k ≤ 12) × (read_type (take 4 xs) (partial s xs 8) ≡ (ok found, partial s xs k))
  unfolding block_type read_type
  read_type-found found room e = elim (Bool-cases (from_bytes true (take 4 xs) == section_type)) [
    | inl header ↦ (
      12,
      omega arith,
      read_type-header header room
          ∙ ap (λ (r : Result (ℕ × Endian)). (r, partial s xs 12)) (rw header at e),
    )
    | inr other ↦ (
      8,
      omega arith,
      rw other (
          ap (λ (r : Result (ℕ × Endian)). (r, partial s xs 8))
            (section_block_type-take s.section xs ∙ (rw other at e))),
    )
  ]

  read_type-error :
      (n : ℕ)
      → block_type s.section xs ≡ err (invalid_magic_number n)
      → read_type (take 4 xs) (partial s xs 8) ≡ (err (invalid_magic_number n), partial s xs 8)
  unfolding block_type read_type
  read_type-error n e = elim (Bool-cases (from_bytes true (take 4 xs) == section_type)) [
    | inl header ↦ absurd (no_error (section_type, magic_endian (slice xs 8 12)) (rw header at e))
    | inr other ↦ rw other (
        ap (λ (r : Result (ℕ × Endian)). (r, partial s xs 8))
          (section_block_type-take s.section xs ∙ (rw other at e)))
  ]
    where
      no_error : (found : ℕ × Endian) → ok found ≡ err (invalid_magic_number n) → ⊥
      no_error found h = cc

-- The first eight bytes of a block.
read_next_block-start :
    (s : SliceReader) (buffer : List ℕ)
    → let xs = drop s.at s.bytes in
      8 ≤ length xs
      → read_next_block (streaming s buffer)
        ≡ and_then
            (λ (found : ℕ × Endian).
              Stream.◌>>=◌
                (read_body (read_u32 found.1 (slice xs 4 8)))
                (λ body. Stream.pure (some found.0)))
            (read_type (take 4 xs) (partial s xs 8))
unfolding read_next_block read_exact
read_next_block-start s buffer room =
    let xs : List ℕ = drop s.at s.bytes in
    let fits : leb 4 (length xs) ≡ true = le→leb 4 (length xs) (omega arith) in
    rw fits (rw (buffered-partial s xs 4 4 8 refl room) refl)

-- A whole block.
pub read_next_block-block :
    (s : SliceReader) (buffer : List ℕ) (kind : ℕ) (endian : Endian)
    → let xs = drop s.at s.bytes in
      let total = read_u32 endian (slice xs 4 8) in
      block_type s.section xs ≡ ok (kind, endian)
      → 12 ≤ total
      → total ≤ length xs
      → read_next_block (streaming s buffer)
        ≡ (ok (some kind), streaming (record s { at = s.at + total }) (take total xs))
read_next_block-block s buffer kind endian e low room =
    let xs : List ℕ = drop s.at s.bytes in
    let total : ℕ = read_u32 endian (slice xs 4 8) in
    let (k, small, typed) = read_type-found s xs (kind, endian) (omega arith) e in
    read_next_block-start s buffer (omega arith)
    ∙ rw typed (
        rw (read_body-partial s xs k total (omega arith) room) (
          ap (λ (rest : List ℕ). (ok (some kind), record (partial s xs total) { rest = rest }))
            (drop-drop s.at total (s.at + total) s.bytes refl)))

pub read_next_block-error :
    (s : SliceReader) (buffer : List ℕ) (n : ℕ)
    → 8 ≤ length (drop s.at s.bytes)
    → block_type s.section (drop s.at s.bytes) ≡ err (invalid_magic_number n)
    → (read_next_block (streaming s buffer)).0 ≡ err (invalid_magic_number n)
read_next_block-error s buffer n room e =
    let start = read_next_block-start s buffer room in
    rw start (rw (read_type-error s (drop s.at s.bytes) n e) refl)

pub read_next_block-end :
    (s : SliceReader) (buffer : List ℕ)
    → length (drop s.at s.bytes) ≡ 0
    → read_next_block (streaming s buffer) ≡ (ok none, record (streaming s buffer) { rest = [] })
unfolding read_next_block read_exact
read_next_block-end s buffer e = rw e refl
