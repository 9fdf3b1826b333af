-- ===== src/Reorder/Order.antt =====
-- Ascending timestamps, and the sort of tools/maja-reordercap/src/main.rs.
use maja.Base.{◌≡◌, refl, ap, ◌∙◌, true, false, Bool-cases, inl, inr, List, [], ◌∷◌, ◌++◌, arith}
use maja.Capture.{ℤ, pos, negsuc}
use maja.Reorder.{PacketIndex, less, insert_entry, sort_by_timestamp}

pub less_trans : (x y z : ℤ) → less y x ≡ false → less z y ≡ false → less z x ≡ false
less_trans (pos x) (pos y) (pos z) h k = ground arith
less_trans (pos x) (pos y) (negsuc z) h k = cc
less_trans (pos x) (negsuc y) z h k = absurd (cc)
less_trans (negsuc x) (pos y) (pos z) h k = refl
less_trans (negsuc x) (pos y) (negsuc z) h k = absurd (cc)
less_trans (negsuc x) (negsuc y) (pos z) h k = refl
less_trans (negsuc x) (negsuc y) (negsuc z) h k = ground arith

less_asym : (x y : ℤ) → less x y ≡ true → less y x ≡ false
less_asym (pos x) (pos y) h = ground arith
less_asym (pos x) (negsuc y) h = absurd (cc)
less_asym (negsuc x) (pos y) h = refl
less_asym (negsuc x) (negsuc y) h = ground arith

-- No entry is before the time.
abbrev pub AtLeast : ℤ → List PacketIndex → Type 0
AtLeast t [] = Unit
AtLeast t (x ∷ xs) = (less x.timestamp t ≡ false) × AtLeast t xs

-- No entry is after the time.
abbrev pub AtMost : ℤ → List PacketIndex → Type 0
AtMost t [] = Unit
AtMost t (x ∷ xs) = (less t x.timestamp ≡ false) × AtMost t xs

abbrev pub IsOrdered : List PacketIndex → Type 0
IsOrdered [] = Unit
IsOrdered (x ∷ xs) = AtLeast x.timestamp xs × IsOrdered xs

AtLeast-weaken : (s t : ℤ) (xs : List PacketIndex) → less t s ≡ false → AtLeast t xs → AtLeast s xs
AtLeast-weaken s t [] h k = tt
AtLeast-weaken s t (x ∷ xs) h k = (less_trans s t x.timestamp h k.0, AtLeast-weaken s t xs h k.1)

pub AtMost-weaken : (s t : ℤ) (xs : List PacketIndex) → less s t ≡ false → AtMost t xs → AtMost s xs
AtMost-weaken s t [] h k = tt
AtMost-weaken s t (x ∷ xs) h k = (less_trans x.timestamp t s k.0 h, AtMost-weaken s t xs h k.1)

pub AtMost-append :
    (t : ℤ) (xs : List PacketIndex) (x : PacketIndex)
    → AtMost t xs
    → less t x.timestamp ≡ false
    → AtMost t (xs ++ (x ∷ []))
AtMost-append t [] x h k = (k, tt)
AtMost-append t (y ∷ ys) x h k = (h.0, AtMost-append t ys x h.1 k)

AtLeast-append :
    (t : ℤ) (xs : List PacketIndex) (x : PacketIndex)
    → AtLeast t xs
    → less x.timestamp t ≡ false
    → AtLeast t (xs ++ (x ∷ []))
AtLeast-append t [] x h k = (k, tt)
AtLeast-append t (y ∷ ys) x h k = (h.0, AtLeast-append t ys x h.1 k)

pub IsOrdered-append :
    (xs : List PacketIndex) (x : PacketIndex)
    → IsOrdered xs
    → AtMost x.timestamp xs
    → IsOrdered (xs ++ (x ∷ []))
IsOrdered-append [] x h k = (tt, tt)
IsOrdered-append (y ∷ ys) x h k =
    (AtLeast-append y.timestamp ys x h.0 k.0, IsOrdered-append ys x h.1 k.1)

-- The last entry of an ascending list is not before any other.
pub IsOrdered-last :
    (xs : List PacketIndex) (x : PacketIndex)
    → IsOrdered (xs ++ (x ∷ []))
    → AtMost x.timestamp xs × IsOrdered xs
IsOrdered-last [] x h = (tt, tt)
IsOrdered-last (y ∷ ys) x h =
    let (below, ordered) = IsOrdered-last ys x h.1 in
    let (last, others) = split y.timestamp ys x h.0 in ((last, below), (others, ordered))
  where
    split :
        (t : ℤ) (xs : List PacketIndex) (x : PacketIndex)
        → AtLeast t (xs ++ (x ∷ []))
        → (less x.timestamp t ≡ false) × AtLeast t xs
    split t [] x h = (h.0, tt)
    split t (y ∷ ys) x h = let (a, b) = split t ys x h.1 in (a, (h.0, b))

AtLeast-insert_entry :
    (t : ℤ) (x : PacketIndex) (ys : List PacketIndex)
    → less x.timestamp t ≡ false
    → AtLeast t ys
    → AtLeast t (insert_entry x ys)
AtLeast-insert_entry t x [] h k = (h, tt)
AtLeast-insert_entry t x (y ∷ ys) h k = elim (Bool-cases (less y.timestamp x.timestamp)) [
  | inl before ↦ rw before (k.0, AtLeast-insert_entry t x ys h k.1)
  | inr after ↦ rw after (h, k)
]

insert_entry-IsOrdered :
    (x : PacketIndex) (ys : List PacketIndex) → IsOrdered ys → IsOrdered (insert_entry x ys)
insert_entry-IsOrdered x [] h = (tt, tt)
insert_entry-IsOrdered x (y ∷ ys) h = elim (Bool-cases (less y.timestamp x.timestamp)) [
  | inl before ↦ rw before (
    AtLeast-insert_entry y.timestamp x ys (less_asym y.timestamp x.timestamp before) h.0,
    insert_entry-IsOrdered x ys h.1,
  )
  | inr after ↦ rw after ((after, AtLeast-weaken x.timestamp y.timestamp ys after h.0), h)
]

pub sort_by_timestamp-IsOrdered : (xs : List PacketIndex) → IsOrdered (sort_by_timestamp xs)
sort_by_timestamp-IsOrdered [] = tt
sort_by_timestamp-IsOrdered (x ∷ xs) =
    insert_entry-IsOrdered x (sort_by_timestamp xs) (sort_by_timestamp-IsOrdered xs)

insert_entry-first :
    (x : PacketIndex) (ys : List PacketIndex) → AtLeast x.timestamp ys → insert_entry x ys ≡ x ∷ ys
insert_entry-first x [] h = refl
insert_entry-first x (y ∷ ys) h = rw h.0 refl

pub sort_by_timestamp-ordered : (xs : List PacketIndex) → IsOrdered xs → sort_by_timestamp xs ≡ xs
sort_by_timestamp-ordered [] h = refl
sort_by_timestamp-ordered (x ∷ xs) h =
    ap (insert_entry x) (sort_by_timestamp-ordered xs h.1) ∙ insert_entry-first x xs h.0
