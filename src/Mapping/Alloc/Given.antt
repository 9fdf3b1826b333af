-- ===== src/Mapping/Alloc/Given.antt =====
-- The addresses that a table of tools/maja-mergecap/src/map/flow.rs gave to the keys of one entry.
use maja.Base.{
  ℕ, suc, ◌≡◌, ◌≢◌, ◌∙◌, sym, ap, inl, inr, true, false, some, List, [], ◌∷◌, get_elem?,
  if◌then◌else◌, Bool-cases, ◌==◌, ==_iff,
}
use maja.Mapping.{IpAddr}
use maja.Mapping.Alloc.{Table, lookup}
use maja.Mapping.Session.{AllocId, same_id}
use maja.Mapping.Session.Equal.{same_id_eq}

unfoldable pub given : ℕ → Table → List IpAddr
given entry [] = []
given entry ((key, target) ∷ rest) =
    let others = given entry rest in if key.entry == entry then target ∷ others else others

-- No address stands twice in the list.
pub data Distinct : List IpAddr → Type 0 where
  nothing : Distinct []
  apart :
      {addr : IpAddr} {rest : List IpAddr}
      → ((i : ℕ) → get_elem? rest i ≢ some addr)
      → Distinct rest
      → Distinct (addr ∷ rest)

lookup-given :
    (entry : ℕ) (table : Table) (id : AllocId) (target : IpAddr)
    → id.entry ≡ entry
    → lookup id table ≡ some target
    → (i : ℕ) × (get_elem? (given entry table) i ≡ some target)
unfolding given
lookup-given entry [] id target own h = absurd (cc)
lookup-given entry ((key, new) ∷ rest) id target own h = elim (Bool-cases (same_id id key)) [
  | inl same ↦
      let equal : id ≡ key = same_id_eq id key same in
      let at : (key.entry == entry) ≡ true = (==_iff _ _).1 (ap (λ k. k.entry) (sym equal) ∙ own) in
      rw at (0, rw same at h)
  | inr differs ↦
      let (i, is) = lookup-given entry rest id target own (rw differs at h) in
      elim (Bool-cases (key.entry == entry)) [
        | inl mine ↦ rw mine (suc i, is)
        | inr other ↦ rw other (i, is)
      ]
]

some_inj : {x y : IpAddr} → some x ≡ some y → x ≡ y
some_inj h = cc

split-Distinct :
    {addr : IpAddr} {rest : List IpAddr}
    → Distinct (addr ∷ rest)
    → ((i : ℕ) → get_elem? rest i ≢ some addr) × Distinct rest
split-Distinct (apart absent rest) = (absent, rest)

pub Distinct-lookup :
    (entry : ℕ) (table : Table) (a b : AllocId) (x y : IpAddr)
    → Distinct (given entry table)
    → a.entry ≡ entry
    → b.entry ≡ entry
    → a ≢ b
    → lookup a table ≡ some x
    → lookup b table ≡ some y
    → x ≢ y
unfolding given
Distinct-lookup entry [] a b x y distinct a_own b_own differ at_a at_b = absurd (cc)
Distinct-lookup entry ((key, new) ∷ rest) a b x y distinct a_own b_own differ at_a at_b =
    elim (Bool-cases (key.entry == entry)) [
      | inl mine ↦
          let (absent, tail) = split-Distinct (rw mine at distinct) in
          elim (Bool-cases (same_id a key)) [
            | inl a_here ↦ elim (Bool-cases (same_id b key)) [
              | inl b_here ↦
                  absurd (differ (same_id_eq a key a_here ∙ sym (same_id_eq b key b_here)))
              | inr b_later ↦
                  let is : new ≡ x = some_inj (rw a_here at at_a) in
                  let (i, at) = lookup-given entry rest b y b_own (rw b_later at at_b) in
                  λ same. absent i (at ∙ ap some (sym (is ∙ same)))
            ]
            | inr a_later ↦ elim (Bool-cases (same_id b key)) [
              | inl b_here ↦
                  let is : new ≡ y = some_inj (rw b_here at at_b) in
                  let (i, at) = lookup-given entry rest a x a_own (rw a_later at at_a) in
                  λ same. absent i (at ∙ ap some (same ∙ sym is))
              | inr b_later ↦
                  Distinct-lookup entry rest a b x y tail a_own b_own differ (rw a_later at at_a)
                    (rw b_later at at_b)
            ]
          ]
      | inr other ↦
          Distinct-lookup entry rest a b x y (rw other at distinct) a_own b_own differ
            (skip a x a_own at_a other) (skip b y b_own at_b other)
    ]
  where
    skip :
        (id : AllocId) (target : IpAddr)
        → id.entry ≡ entry
        → lookup id ((key, new) ∷ rest) ≡ some target
        → (key.entry == entry) ≡ false
        → lookup id rest ≡ some target
    skip id target own h other = elim (Bool-cases (same_id id key)) [
      | inl same ↦
          let equal : id ≡ key = same_id_eq id key same in
          let at : (key.entry == entry) ≡ true =
            (==_iff _ _).1 (ap (λ k. k.entry) (sym equal) ∙ own) in
          absurd (cc)
      | inr differs ↦ rw differs at h
    ]
