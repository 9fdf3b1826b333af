-- ===== src/Reorder/Scanned.antt =====
-- The scan of tools/maja-reordercap/src/main.rs finds a packet out of order exactly if sorting moves
-- one.
use mathlib.Core.Path.{subst}
use maja.Base.{
  ℕ, zero, suc, ◌+◌, ◌≡◌, ◌⊎◌, ◌↔◌, refl, sym, ap, true, false, Bool-cases, inl, inr, Option, none,
  some, List, [], ◌∷◌, ◌++◌, arith, length,
}
use maja.Context.{slice}
use maja.Capture.{ℤ, pos, negsuc, CaptureResult}
use maja.Capture.Pcap.{to_packet}
use maja.Capture.Pcap.Reader.{
  SliceReader, PcapPacketRecord, read_packet_raw, packet_of, map_found, next_packet_with_offset,
  open_slice,
}
use maja.Capture.Pcapng.{ok, ◌>>=◌}
use maja.Capture.Pcapng.Decided.{ok_inj, ok_of_bind}
use maja.Reorder.{
  PacketIndex, Misplaced, opened, Scan, i64_min, new_scan, less, difference, push, entry_of,
  on_found, scan_records, SectionScan, whole_capture, scan_pcap, sort_by_timestamp, reorder,
  misplaced_count,
}
use maja.Reorder.Order.{
  AtMost, AtMost-weaken, AtMost-append, IsOrdered, IsOrdered-append, IsOrdered-last,
  sort_by_timestamp-IsOrdered, sort_by_timestamp-ordered,
}

-- The time is that of an entry.
abbrev Attained : ℤ → List PacketIndex → Type 0
Attained t [] = ⊥
Attained t (x ∷ xs) = (x.timestamp ≡ t) ⊎ Attained t xs

Attained-append : (xs : List PacketIndex) (x : PacketIndex) → Attained x.timestamp (xs ++ (x ∷ []))
Attained-append [] x = inl refl
Attained-append (y ∷ ys) x = inr (Attained-append ys x)

Attained-weaken :
    (t : ℤ) (xs : List PacketIndex) (x : PacketIndex) → Attained t xs → Attained t (xs ++ (x ∷ []))
Attained-weaken t [] x h = absurd h
Attained-weaken t (y ∷ ys) x (inl e) = inl e
Attained-weaken t (y ∷ ys) x (inr h) = inr (Attained-weaken t ys x h)

Attained-AtMost : (s t : ℤ) (xs : List PacketIndex) → Attained t xs → AtMost s xs → less s t ≡ false
Attained-AtMost s t [] h k = absurd h
Attained-AtMost s t (x ∷ xs) (inl e) k = rw (sym e) k.0
Attained-AtMost s t (x ∷ xs) (inr h) k = Attained-AtMost s t xs h k.1

record Tracks (s : Scan) : Type 0 where
  below : AtMost s.max_timestamp s.index
  sorted : s.misplaced ≡ [] → IsOrdered s.index
  complete : IsOrdered s.index → s.misplaced ≡ []
  attained : ((s.index ≡ []) × (s.max_timestamp ≡ i64_min)) ⊎ Attained s.max_timestamp s.index

less_refl : (x : ℤ) → less x x ≡ false
less_refl (pos x) = ground arith
less_refl (negsuc x) = ground arith

less_swap : (x y : ℤ) → less x y ≡ true → less y x ≡ false
less_swap (pos x) (pos y) h = ground arith
less_swap (pos x) (negsuc y) h = absurd (cc)
less_swap (negsuc x) (pos y) h = refl
less_swap (negsuc x) (negsuc y) h = ground arith

not_nil : {A : Type 0} (xs : List A) (x : A) → xs ++ (x ∷ []) ≡ [] → ⊥
not_nil [] x h = cc
not_nil (y ∷ ys) x h = cc

new_scan-Tracks : Tracks new_scan
new_scan-Tracks = record {
  below = tt;
  sorted = λ e. tt;
  complete = λ o. refl;
  attained = inl (refl, refl);
}

-- An entry that is before the latest one breaks the order.
late_entry :
    (s : Scan) (x : PacketIndex)
    → Tracks s
    → less x.timestamp i64_min ≡ false
    → less x.timestamp s.max_timestamp ≡ true
    → IsOrdered (s.index ++ (x ∷ []))
    → ⊥
late_entry s x t range before ordered = go t.attained
  where
    go : ((s.index ≡ []) × (s.max_timestamp ≡ i64_min)) ⊎ Attained s.max_timestamp s.index → ⊥
    go (inl (empty, least)) =
        let h : less x.timestamp s.max_timestamp ≡ false = rw least range in cc
    go (inr found) =
        let h =
          Attained-AtMost x.timestamp s.max_timestamp s.index found
            (IsOrdered-last s.index x ordered).0 in
        cc

push-Tracks :
    (s s' : Scan) (x : PacketIndex) (frame : ℕ)
    → Tracks s
    → less x.timestamp i64_min ≡ false
    → push s x frame ≡ ok s'
    → Tracks s'
unfolding push
push-Tracks s s' x frame t range e = elim (Bool-cases (less x.timestamp s.max_timestamp)) [
  | inl before ↦
      let (backward, e1, e2) =
        ok_of_bind _ (difference s.max_timestamp x.timestamp) (rw before at e) in
      subst Tracks (ok_inj e2) (record {
        below =
            AtMost-append s.max_timestamp s.index x t.below
              (less_swap x.timestamp s.max_timestamp before);
        sorted = λ m. absurd (not_nil s.misplaced _ m);
        complete = λ o. absurd (late_entry s x t range before o);
        attained = kept t.attained before;
      })
  | inr after ↦ subst Tracks (ok_inj (rw after at e)) (record {
    below =
        AtMost-append x.timestamp s.index x
          (AtMost-weaken x.timestamp s.max_timestamp s.index after t.below) (less_refl x.timestamp);
    sorted = λ m.
        IsOrdered-append s.index x (t.sorted m)
          (AtMost-weaken x.timestamp s.max_timestamp s.index after t.below);
    complete = λ o. t.complete (IsOrdered-last s.index x o).1;
    attained = inr (Attained-append s.index x);
  })
]
  where
    kept :
        ((s.index ≡ []) × (s.max_timestamp ≡ i64_min)) ⊎ Attained s.max_timestamp s.index
        → less x.timestamp s.max_timestamp ≡ true
        → ((s.index ++ (x ∷ []) ≡ []) × (s.max_timestamp ≡ i64_min))
          ⊎ Attained s.max_timestamp (s.index ++ (x ∷ []))
    kept (inl (empty, least)) before =
        let h : less x.timestamp s.max_timestamp ≡ false = rw least range in absurd (cc)
    kept (inr found) before = inr (Attained-weaken s.max_timestamp s.index x found)

-- A record of a PCAP capture has a time that is not negative.
scan_records-Tracks :
    (fuel : ℕ) (reader : SliceReader) (s s' : Scan)
    → Tracks s
    → scan_records fuel reader s ≡ ok s'
    → Tracks s'
unfolding scan_records next_packet_with_offset to_packet
scan_records-Tracks zero reader s s' t e = absurd (cc)
scan_records-Tracks (suc fuel) reader s s' t e =
    go (read_packet_raw reader) (scan_records-Tracks fuel) e
  where
    go :
        (r : CaptureResult (Option PcapPacketRecord) × SliceReader)
        → ((reader' : SliceReader) (s1 s2 : Scan)
            → Tracks s1
            → scan_records fuel reader' s1 ≡ ok s2
            → Tracks s2)
        → on_found
            (map_found
              (λ (found : PcapPacketRecord). record {
                offset = found.offset;
                raw = slice reader.bytes found.offset (found.offset + 16 + length found.bytes);
                packet = packet_of reader.header found;
              })
              r)
            (λ located reader'.
              push s (entry_of located) (length s.index + 1) >>= λ s1. scan_records fuel reader' s1)
            s
          ≡ ok s'
        → Tracks s'
    go (CaptureResult.ok none, reader') again e = subst Tracks (ok_inj e) t
    go (CaptureResult.ok (some found), reader') again e =
        let (s1, e1, e2) = ok_of_bind _ (push s _ (length s.index + 1)) e in
        again reader' s1 s' (push-Tracks s s1 _ (length s.index + 1) t refl e1) e2
    go (CaptureResult.err x, reader') again e = absurd (cc)

no_items : {A : Type 0} (xs : List A) → length xs + 0 ≡ 0 → xs ≡ []
no_items [] h = refl
no_items (x ∷ xs) h = absurd (omega arith)

first_index : List SectionScan → List PacketIndex
first_index [] = []
first_index (section ∷ sections) = section.scan.index

whole_capture-reorder :
    (s : Scan)
    → Tracks s
    → (misplaced_count (whole_capture s) ≡ 0) ↔ (reorder (whole_capture s) ≡ whole_capture s)
unfolding first_index
whole_capture-reorder s t = (
  λ none_misplaced.
      ap (λ (index : List PacketIndex). whole_capture (record s { index = index }))
        (sort_by_timestamp-ordered s.index (t.sorted (no_items s.misplaced none_misplaced))),
  λ same.
      let fixed : sort_by_timestamp s.index ≡ s.index = ap first_index same in
      let ordered = subst IsOrdered fixed (sort_by_timestamp-IsOrdered s.index) in
      ap (λ (misplaced : List Misplaced). length misplaced + 0) (t.complete ordered),
)

-- If the scan of a PCAP capture returns, it reports no packet out of order exactly if the stable
-- sort by timestamp, which comes before the output is written, would move none.
pub scan_pcap-reorder :
    (bytes : List ℕ) (sections : List SectionScan)
    → scan_pcap bytes ≡ ok sections
    → (misplaced_count sections ≡ 0) ↔ (reorder sections ≡ sections)
unfolding scan_pcap
scan_pcap-reorder bytes sections e =
    let (reader, e1, e2) = ok_of_bind _ (opened (open_slice bytes)) e in
    let (s, e3, e4) = ok_of_bind _ (scan_records (suc (length bytes)) reader new_scan) e2 in
    subst
      (λ (sections : List SectionScan).
        (misplaced_count sections ≡ 0) ↔ (reorder sections ≡ sections))
      (ok_inj e4)
      (whole_capture-reorder s
        (scan_records-Tracks (suc (length bytes)) reader new_scan s new_scan-Tracks e3))
