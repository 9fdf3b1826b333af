-- ===== src/Flow/Symmetric.antt =====
-- Both directions of a flow have one symmetric id, and no other tuple has it.
use mathlib.Core.Path.{ap₂}
use maja.Base.{
  ℕ, ◌≡◌, ◌≢◌, refl, sym, ap, ◌∙◌, Bool, true, false, inl, inr, ◌⊎◌, arith, dec_lt, ltb, leb, ◌==◌,
  ◌&&◌, ◌||◌, if◌then◌else◌,
}
use maja.Flow.{
  IpAddr, v4, v6, addr_lt, endpoint_le, FlowId, ip, tuple2, tuple3, tuple4, tuple5, Tuple, one, two,
  three, four, five, asymmetric, symmetric,
}

-- The same flow, seen from the other end.
abbrev pub reverse : Tuple → Tuple
reverse (one a) = one a
reverse (two src dst) = two dst src
reverse (three src dst proto) = three dst src proto
reverse (four src dst src_port dst_port) = four dst src dst_port src_port
reverse (five src dst src_port dst_port proto) = five dst src dst_port src_port proto

-- Of the two orders of two ends the test takes one, or the ends are the same.
choose_swap :
    (p q : Bool) (x y : FlowId) → (p ≢ q) ⊎ (x ≡ y) → (if q then y else x) ≡ (if p then x else y)
choose_swap true true x y (inl differ) = absurd (differ refl)
choose_swap true true x y (inr same) = sym same
choose_swap true false x y h = refl
choose_swap false true x y h = refl
choose_swap false false x y (inl differ) = absurd (differ refl)
choose_swap false false x y (inr same) = same

data Compared (a b : ℕ) : Type 0 where
  less : ltb a b ≡ true → ltb b a ≡ false → (a == b) ≡ false → Compared a b
  same : a ≡ b → Compared a b
  more : ltb a b ≡ false → ltb b a ≡ true → (b == a) ≡ false → Compared a b

compare_cases : (a b : ℕ) → Compared a b
compare_cases a b = elim (dec_lt a b) [
  | yes h ↦ less (ground arith) (ground arith) (ground arith)
  | no h ↦ elim (dec_lt b a) [
    | yes k ↦ more (ground arith) (ground arith) (ground arith)
    | no k ↦ same (omega arith)
  ]
]

true-false : true ≢ false
true-false e = cc

number_swap : (a b : ℕ) → (ltb a b ≢ ltb b a) ⊎ (a ≡ b)
number_swap a b = elim (compare_cases a b) [
  | less x y z ↦ inl (λ e. true-false (sym x ∙ e ∙ y))
  | same e ↦ inr e
  | more x y z ↦ inl (λ e. true-false (sym y ∙ sym e ∙ x))
]

addr_swap : (a b : IpAddr) → (addr_lt a b ≢ addr_lt b a) ⊎ (a ≡ b)
addr_swap (v4 a) (v4 b) = elim (number_swap a b) [ inl h ↦ inl h | inr e ↦ inr (ap v4 e) ]
addr_swap (v4 a) (v6 b) = inl true-false
addr_swap (v6 a) (v4 b) = inl (λ e. true-false (sym e))
addr_swap (v6 a) (v6 b) = elim (number_swap a b) [ inl h ↦ inl h | inr e ↦ inr (ap v6 e) ]

endpoint_number :
    (a b p q : ℕ)
    → ((ltb a b || (a == b && leb p q)) ≢ (ltb b a || (b == a && leb q p))) ⊎ ((a ≡ b) × (p ≡ q))
endpoint_number a b p q = elim (compare_cases a b) [
  | less x y z ↦ inl (λ e. ground arith)
  | more x y z ↦ inl (λ e. ground arith)
  | same e ↦ elim (compare_cases p q) [
    | less x y z ↦ inl (λ f. ground arith)
    | more x y z ↦ inl (λ f. ground arith)
    | same f ↦ inr (e, f)
  ]
]

endpoint_swap :
    (a b : IpAddr) (p q : ℕ) → (endpoint_le a p b q ≢ endpoint_le b q a p) ⊎ ((a ≡ b) × (p ≡ q))
endpoint_swap (v4 a) (v4 b) p q = elim (endpoint_number a b p q) [
  | inl h ↦ inl h
  | inr e ↦ inr (ap v4 e.0, e.1)
]
endpoint_swap (v4 a) (v6 b) p q = inl true-false
endpoint_swap (v6 a) (v4 b) p q = inl (λ e. true-false (sym e))
endpoint_swap (v6 a) (v6 b) p q = elim (endpoint_number a b p q) [
  | inl h ↦ inl h
  | inr e ↦ inr (ap v6 e.0, e.1)
]

-- Both directions of a flow have the same symmetric id, for tuples of every size.
pub symmetric-reverse : (t : Tuple) → symmetric (reverse t) ≡ symmetric t
unfolding symmetric
symmetric-reverse (one a) = refl
symmetric-reverse (two src dst) =
    choose_swap (addr_lt src dst) (addr_lt dst src) (tuple2 src dst) (tuple2 dst src)
      (elim (addr_swap src dst) [ inl h ↦ inl h | inr e ↦ inr (ap₂ tuple2 e (sym e)) ])
symmetric-reverse (three src dst proto) =
    choose_swap (addr_lt src dst) (addr_lt dst src) (tuple3 src dst proto) (tuple3 dst src proto)
      (elim (addr_swap src dst) [ inl h ↦ inl h | inr e ↦ inr (rw e refl) ])
symmetric-reverse (four src dst src_port dst_port) =
    choose_swap _ _ (tuple4 src dst src_port dst_port) (tuple4 dst src dst_port src_port)
      (elim (endpoint_swap src dst src_port dst_port) [
        | inl h ↦ inl h
        | inr e ↦ inr (rw (e.0, e.1) refl)
      ])
symmetric-reverse (five src dst src_port dst_port proto) =
    choose_swap _ _ (tuple5 src dst src_port dst_port proto)
      (tuple5 dst src dst_port src_port proto)
      (elim (endpoint_swap src dst src_port dst_port) [
        | inl h ↦ inl h
        | inr e ↦ inr (rw (e.0, e.1) refl)
      ])

pick_either : (b : Bool) (x y : FlowId) → ((if b then x else y) ≡ x) ⊎ ((if b then x else y) ≡ y)
pick_either true x y = inl refl
pick_either false x y = inr refl

picked : (t : Tuple) → (symmetric t ≡ asymmetric t) ⊎ (symmetric t ≡ asymmetric (reverse t))
unfolding symmetric asymmetric
picked (one a) = inl refl
picked (two src dst) = pick_either (addr_lt src dst) _ _
picked (three src dst proto) = pick_either (addr_lt src dst) _ _
picked (four src dst src_port dst_port) = pick_either (endpoint_le src src_port dst dst_port) _ _
picked (five src dst src_port dst_port proto) =
    pick_either (endpoint_le src src_port dst dst_port) _ _

tuple_of : FlowId → Tuple
tuple_of (ip a) = one a
tuple_of (tuple2 src dst) = two src dst
tuple_of (tuple3 src dst proto) = three src dst proto
tuple_of (tuple4 src dst src_port dst_port) = four src dst src_port dst_port
tuple_of (tuple5 src dst src_port dst_port proto) = five src dst src_port dst_port proto

tuple_of-asymmetric : (t : Tuple) → tuple_of (asymmetric t) ≡ t
unfolding asymmetric tuple_of
tuple_of-asymmetric (one a) = refl
tuple_of-asymmetric (two src dst) = refl
tuple_of-asymmetric (three src dst proto) = refl
tuple_of-asymmetric (four src dst src_port dst_port) = refl
tuple_of-asymmetric (five src dst src_port dst_port proto) = refl

reverse-reverse : (t : Tuple) → reverse (reverse t) ≡ t
reverse-reverse (one a) = refl
reverse-reverse (two src dst) = refl
reverse-reverse (three src dst proto) = refl
reverse-reverse (four src dst src_port dst_port) = refl
reverse-reverse (five src dst src_port dst_port proto) = refl

pub asymmetric-injective : (t u : Tuple) → asymmetric t ≡ asymmetric u → t ≡ u
asymmetric-injective t u e = sym (tuple_of-asymmetric t) ∙ ap tuple_of e ∙ tuple_of-asymmetric u

reverse-injective : (t u : Tuple) → reverse t ≡ reverse u → t ≡ u
reverse-injective t u e = sym (reverse-reverse t) ∙ ap reverse e ∙ reverse-reverse u

-- Two tuples with the same symmetric id are equal, or one is the reverse of the other.
pub symmetric_separates : (t u : Tuple) → symmetric t ≡ symmetric u → (t ≡ u) ⊎ (t ≡ reverse u)
symmetric_separates t u e = elim (picked t) [
  | inl p ↦ elim (picked u) [
    | inl q ↦ inl (asymmetric-injective t u (sym p ∙ e ∙ q))
    | inr q ↦ inr (asymmetric-injective t (reverse u) (sym p ∙ e ∙ q))
  ]
  | inr p ↦ elim (picked u) [
    | inl q ↦
        inr (
          sym (reverse-reverse t) ∙ ap reverse (asymmetric-injective (reverse t) u (sym p ∙ e ∙ q)))
    | inr q ↦
        inl (reverse-injective t u (asymmetric-injective (reverse t) (reverse u) (sym p ∙ e ∙ q)))
  ]
]
