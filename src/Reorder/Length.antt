-- ===== src/Reorder/Length.antt =====
-- The bytes that the entries of a scan take, and the records that the reader of PCAP captures gives to
-- the scan of tools/maja-reordercap/src/main.rs.
use maja.Base.{
  ℕ, ◌+◌, ◌-◌, ◌≤◌, ◌≡◌, refl, sym, ap, ◌∙◌, true, Bool-cases, inl, inr, Option, none, some, List,
  [], ◌∷◌, ◌++◌, map, arith, le→leb, ltb, ◌==◌, length, length-append, leb, drop, length-take,
  length-drop,
}
use maja.Context.{slice}
use maja.Capture.{CaptureResult}
use maja.Capture.Pcap.{parse_packet_header, endian}
use maja.Capture.Pcap.Reader.{SliceReader, PcapPacketRecord, read_packet_raw}
use maja.Capture.Pcapng.Decided.{ok_inj, ok_of_bind}
use maja.Capture.Pcapng.{ok, range}
use maja.Reorder.{
  Scan, difference, push, PacketIndex, less, insert_entry, sort_by_timestamp, place, copy_all,
}

-- The number of bytes that the entries take.
abbrev pub total : List PacketIndex → ℕ
total [] = 0
total (x ∷ xs) = x.record_len + total xs

pub total-append :
    (xs : List PacketIndex) (x : PacketIndex) → total (xs ++ (x ∷ [])) ≡ total xs + x.record_len
total-append [] x = omega arith
total-append (y ∷ ys) x = omega (arith, total-append ys x)

total-insert_entry :
    (x : PacketIndex) (ys : List PacketIndex) → total (insert_entry x ys) ≡ x.record_len + total ys
total-insert_entry x [] = refl
total-insert_entry x (y ∷ ys) = elim (Bool-cases (less y.timestamp x.timestamp)) [
  | inl before ↦ rw before (omega (arith, total-insert_entry x ys))
  | inr after ↦ rw after refl
]

pub total-sort : (xs : List PacketIndex) → total (sort_by_timestamp xs) ≡ total xs
total-sort [] = refl
total-sort (x ∷ xs) =
    total-insert_entry x (sort_by_timestamp xs) ∙ ap (λ (n : ℕ). x.record_len + n) (total-sort xs)

-- Every entry lies in the bytes.
abbrev pub Fits : ℕ → List PacketIndex → Type 0
Fits n [] = Unit
Fits n (x ∷ xs) = (x.offset + x.record_len ≤ n) × Fits n xs

Fits-insert_entry :
    (n : ℕ) (x : PacketIndex) (ys : List PacketIndex)
    → x.offset + x.record_len ≤ n
    → Fits n ys
    → Fits n (insert_entry x ys)
Fits-insert_entry n x [] h k = (h, tt)
Fits-insert_entry n x (y ∷ ys) h k = elim (Bool-cases (less y.timestamp x.timestamp)) [
  | inl before ↦ rw before (k.0, Fits-insert_entry n x ys h k.1)
  | inr after ↦ rw after (h, k)
]

pub Fits-sort : (n : ℕ) (xs : List PacketIndex) → Fits n xs → Fits n (sort_by_timestamp xs)
Fits-sort n [] h = tt
Fits-sort n (x ∷ xs) h = Fits-insert_entry n x (sort_by_timestamp xs) h.0 (Fits-sort n xs h.1)

pub copy_all-total :
    (bytes : List ℕ) (xs : List PacketIndex)
    → Fits (length bytes) xs
    → (copied : List ℕ) × (copy_all bytes (map place xs) ≡ ok copied) × (length copied ≡ total xs)
unfolding range
copy_all-total bytes [] h = ([], refl, refl)
copy_all-total bytes (x ∷ xs) h =
    let (others, e, len) = copy_all-total bytes xs h.1 in
    let stop : ℕ = x.offset + x.record_len in
    let low : leb x.offset stop ≡ true = le→leb x.offset stop (omega arith) in
    let high : leb stop (length bytes) ≡ true = le→leb stop (length bytes) h.0 in
    let here : List ℕ = slice bytes x.offset stop in
    let n : length here ≡ x.record_len = omega (
      arith,
      length-take (stop - x.offset) (drop x.offset bytes),
      length-drop x.offset bytes,
      h.0,
    ) in
    (here ++ others, rw low (rw high (rw e refl)), omega (arith, length-append here others))

-- A record is where the reader stands, and the reader is behind it afterwards.
abbrev pub Tile : SliceReader → CaptureResult (Option PcapPacketRecord) × SliceReader → Type 0
Tile reader (CaptureResult.ok none, reader') = reader.at ≡ length reader.bytes
Tile reader (CaptureResult.ok (some found), reader') =
    (found.offset ≡ reader.at)
    × (reader'.bytes ≡ reader.bytes)
    × (reader'.at ≡ reader.at + 16 + length found.bytes)
    × (reader'.at ≤ length reader.bytes)
Tile reader (CaptureResult.err e, reader') = Unit

pub length-slice :
    (bytes : List ℕ) (start stop : ℕ)
    → start ≤ stop
    → stop ≤ length bytes
    → length (slice bytes start stop) ≡ stop - start
length-slice bytes start stop low high =
    omega (arith, length-take (stop - start) (drop start bytes), length-drop start bytes)

pub read_packet_raw-Tile :
    (reader : SliceReader) → reader.at ≤ length reader.bytes → Tile reader (read_packet_raw reader)
unfolding read_packet_raw
read_packet_raw-Tile reader inside =
    let remaining : List ℕ = drop reader.at reader.bytes in
    let start : ℕ = reader.at + 16 in
    let stop : ℕ = start + (parse_packet_header remaining (endian reader.header)).incl_len in
    elim (Bool-cases (length remaining == 0)) [
      | inl done ↦ rw done (ground (arith, length-drop reader.at reader.bytes))
      | inr more ↦ rw more (elim (Bool-cases (ltb (length remaining) 16)) [
        | inl short ↦ rw short tt
        | inr room ↦ rw room (elim (Bool-cases (ltb (length reader.bytes) stop)) [
          | inl long ↦ rw long tt
          | inr fits ↦
              let high : stop ≤ length reader.bytes = ground arith in
              rw fits (
                refl,
                refl,
                omega (arith, length-slice reader.bytes start stop (omega arith) high),
                high,
              )
        ])
      ])
    ]

pub push-index :
    (s s' : Scan) (x : PacketIndex) (frame : ℕ)
    → push s x frame ≡ ok s'
    → s'.index ≡ s.index ++ (x ∷ [])
unfolding push
push-index s s' x frame e = elim (Bool-cases (less x.timestamp s.max_timestamp)) [
  | inl before ↦
      let (backward, e1, e2) =
        ok_of_bind _ (difference s.max_timestamp x.timestamp) (rw before at e) in
      ap (λ (t : Scan). t.index) (sym (ok_inj e2))
  | inr after ↦ ap (λ (t : Scan). t.index) (sym (ok_inj (rw after at e)))
]

pub Fits-append :
    (n : ℕ) (xs : List PacketIndex) (x : PacketIndex)
    → Fits n xs
    → x.offset + x.record_len ≤ n
    → Fits n (xs ++ (x ∷ []))
Fits-append n [] x h k = (k, tt)
Fits-append n (y ∷ ys) x h k = (h.0, Fits-append n ys x h.1 k)
