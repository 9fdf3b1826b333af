-- ===== src/Mapping/Entry/Longest.antt =====
-- The longest scope wins: tools/maja-mergecap/src/map/entry.rs and flow.rs.
use maja.Base.{
  ℕ, suc, ◌+◌, ◌≤◌, ◌≡◌, inl, inr, refl, true, false, Option, none, some, List, [], ◌∷◌, arith,
  get_elem?, leb, Bool-cases, leb→le,
}
use mathlib.Core.Path.{subst}
use maja.Mapping.{IpAddr, Nets}
use maja.Mapping.Entry.{CompiledEntry, from_len, in_scope, insert_rule, sort_entries, classify}

module _ (n : Nets) where
  pub data All (P : CompiledEntry n.Net → Type 0) : List (CompiledEntry n.Net) → Type 0 where
    empty : All P []
    each :
        {entry : CompiledEntry n.Net} {rest : List (CompiledEntry n.Net)}
        → P entry
        → All P rest
        → All P (entry ∷ rest)

  All-weaken :
      {P Q : CompiledEntry n.Net → Type 0} {list : List (CompiledEntry n.Net)}
      → ((entry : CompiledEntry n.Net) → P entry → Q entry)
      → All P list
      → All Q list
  All-weaken f empty = empty
  All-weaken f (each p rest) = each (f _ p) (All-weaken f rest)

  All-insert :
      {P : CompiledEntry n.Net → Type 0} (entry : CompiledEntry n.Net)
      (list : List (CompiledEntry n.Net))
      → P entry
      → All P list
      → All P (insert_rule n entry list)
  unfolding insert_rule
  All-insert entry [] p empty = each p empty
  All-insert entry (other ∷ rest) p (each q all) =
      elim (Bool-cases (leb (from_len n other.from) (from_len n entry.from))) [
        | inl before ↦ rw before (each p (each q all))
        | inr after ↦ rw after (each q (All-insert entry rest p all))
      ]

  uncons :
      {P : CompiledEntry n.Net → Type 0} {entry : CompiledEntry n.Net}
      {rest : List (CompiledEntry n.Net)}
      → All P (entry ∷ rest)
      → P entry × All P rest
  uncons (each p all) = (p, all)

  All-insert_back :
      {P : CompiledEntry n.Net → Type 0} (entry : CompiledEntry n.Net)
      (list : List (CompiledEntry n.Net))
      → All P (insert_rule n entry list)
      → P entry × All P list
  unfolding insert_rule
  All-insert_back entry [] (each p empty) = (p, empty)
  All-insert_back entry (other ∷ rest) h =
      elim (Bool-cases (leb (from_len n other.from) (from_len n entry.from))) [
        | inl before ↦ uncons (rw before at h)
        | inr after ↦
            let (q, all) = uncons (rw after at h) in
            let (p, behind) = All-insert_back entry rest all in (p, each q behind)
      ]

  All-sort_back :
      {P : CompiledEntry n.Net → Type 0} (list : List (CompiledEntry n.Net))
      → All P (sort_entries n list)
      → All P list
  unfolding sort_entries
  All-sort_back [] h = empty
  All-sort_back (entry ∷ rest) h =
      let (p, all) = All-insert_back entry (sort_entries n rest) h in
      each p (All-sort_back rest all)

  abbrev Shorter : ℕ → CompiledEntry n.Net → Type 0
  Shorter most entry = from_len n entry.from ≤ most

  -- No scope is longer than the one before it.
  data Falling : List (CompiledEntry n.Net) → Type 0 where
    done : Falling []
    link :
        {entry : CompiledEntry n.Net} {rest : List (CompiledEntry n.Net)}
        → All (Shorter (from_len n entry.from)) rest
        → Falling rest
        → Falling (entry ∷ rest)

  insert-Falling :
      (entry : CompiledEntry n.Net) (list : List (CompiledEntry n.Net))
      → Falling list
      → Falling (insert_rule n entry list)
  unfolding insert_rule
  insert-Falling entry [] done = link empty done
  insert-Falling entry (other ∷ rest) (link all falling) =
      elim (Bool-cases (leb (from_len n other.from) (from_len n entry.from))) [
        | inl before ↦
            let less = leb→le _ _ before in
            rw before (link (each less (All-weaken (λ e h. omega arith) all)) (link all falling))
        | inr after ↦
            rw after
              (link (All-insert entry rest (ground arith) all) (insert-Falling entry rest falling))
      ]

  sort_entries-Falling : (list : List (CompiledEntry n.Net)) → Falling (sort_entries n list)
  unfolding sort_entries
  sort_entries-Falling [] = done
  sort_entries-Falling (entry ∷ rest) =
      insert-Falling entry (sort_entries n rest) (sort_entries-Falling rest)

  abbrev pub Outside : IpAddr → CompiledEntry n.Net → Type 0
  Outside addr entry = in_scope n entry.from addr ≡ false

  abbrev pub AtMost : IpAddr → ℕ → CompiledEntry n.Net → Type 0
  AtMost addr most entry = in_scope n entry.from addr ≡ true → from_len n entry.from ≤ most

  -- What the rules have for an address, from an index on: no rule has it in its scope, or one has, at
  -- a place in the sorted rules, and no rule with a longer scope has it too.
  pub data Chosen (list sorted : List (CompiledEntry n.Net)) (addr : IpAddr) (start : ℕ)
      : Option (ℕ × CompiledEntry n.Net) → Type 0 where
    no_rule : All (Outside addr) list → Chosen list sorted addr start none
    rule :
        (i : ℕ) {place : ℕ} {entry : CompiledEntry n.Net}
        → place ≡ start + i
        → get_elem? sorted i ≡ some entry
        → in_scope n entry.from addr ≡ true
        → All (AtMost addr (from_len n entry.from)) list
        → Chosen list sorted addr start (some (place, entry))

  Outside-AtMost :
      (addr : IpAddr) (most : ℕ) (entry : CompiledEntry n.Net)
      → Outside addr entry
      → AtMost addr most entry
  Outside-AtMost addr most entry out inside = absurd (cc)

  skip_rule :
      {list : List (CompiledEntry n.Net)} {addr : IpAddr} {start : ℕ} {entry : CompiledEntry n.Net}
      {found : Option (ℕ × CompiledEntry n.Net)}
      → Outside addr entry
      → Chosen list list addr (suc start) found
      → Chosen (entry ∷ list) (entry ∷ list) addr start found
  skip_rule out (no_rule all) = no_rule (each out all)
  skip_rule {addr = addr} {entry = entry} out (rule i place at inside all) =
      rule (suc i) (omega arith) at inside (each (Outside-AtMost addr _ entry out) all)

  classify-sorted :
      (start : ℕ) (list : List (CompiledEntry n.Net)) (addr : IpAddr)
      → Falling list
      → Chosen list list addr start (classify n start list addr)
  unfolding classify
  classify-sorted start [] addr done = no_rule empty
  classify-sorted start (entry ∷ rest) addr (link all falling) =
      elim (Bool-cases (in_scope n entry.from addr)) [
        | inl inside ↦ rw inside (
            rule 0 (omega arith) refl inside
              (each (λ _. omega arith) (All-weaken (λ e h _. h) all)))
        | inr out ↦ rw out (skip_rule out (classify-sorted (suc start) rest addr falling))
      ]

  unsorted :
      (list : List (CompiledEntry n.Net)) {addr : IpAddr} {found : Option (ℕ × CompiledEntry n.Net)}
      → Chosen (sort_entries n list) (sort_entries n list) addr 0 found
      → Chosen list (sort_entries n list) addr 0 found
  unsorted list (no_rule all) = no_rule (All-sort_back list all)
  unsorted list (rule i place at inside all) = rule i place at inside (All-sort_back list all)

  -- For any rules and address, the search through the sorted rules finds nothing exactly where no
  -- rule has the address in its scope, and otherwise a rule, at its place in the sorted rules,
  -- that has it, while no rule with a longer scope does.
  pub classify-sort_entries-Chosen :
      (list : List (CompiledEntry n.Net)) (addr : IpAddr)
      → Chosen list (sort_entries n list) addr 0 (classify n 0 (sort_entries n list) addr)
  classify-sort_entries-Chosen list addr =
      unsorted list (classify-sorted 0 (sort_entries n list) addr (sort_entries-Falling list))

  pub All-classify :
      {P : CompiledEntry n.Net → Type 0} (i : ℕ) (list : List (CompiledEntry n.Net)) (addr : IpAddr)
      {place : ℕ} {entry : CompiledEntry n.Net}
      → All P list
      → classify n i list addr ≡ some (place, entry)
      → P entry
  unfolding classify
  All-classify i [] addr empty h = absurd (cc)
  All-classify {P} i (first ∷ rest) addr {place} {entry} (each p all) h =
      elim (Bool-cases (in_scope n first.from addr)) [
        | inl inside ↦
            let same : some (i, first) ≡ some (place, entry) = rw inside at h in
            let is : first ≡ entry = cc in subst P is p
        | inr out ↦ All-classify (suc i) rest addr all (rw out at h)
      ]
