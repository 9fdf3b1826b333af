-- ===== src/Options/Step.antt =====
-- One step of the iterators over TCP and IPv4 options, src/packet/layer/tcp/option.rs and
-- src/packet/layer/ip/v4/option.rs, behind the bytes that they have read.
use mathlib.Core.List.{append_assoc}
use maja.Base.{
  ℕ, zero, suc, ◌+◌, ◌-◌, ◌≡◌, refl, sym, true, false, none, some, List, [], ◌∷◌, ◌++◌, arith, leb,
  ◌==◌, if◌then◌else◌, length, length-append, get_elem?, get_or, drop-append, take-append,
}
use maja.Context.{slice}
use maja.Options.{end_of_options, no_operation, Options, sized, next, collect}

abbrev pub iterator : List ℕ → ℕ → Options
iterator bytes offset = record { bytes = bytes; offset = offset; done = false }

-- The iterator behind `before`.
abbrev pub at : List ℕ → List ℕ → Options
at before remaining = iterator (before ++ remaining) (length before)

get_or-append : (xs ys : List ℕ) (y : ℕ) → get_or (xs ++ (y ∷ ys)) (length xs) 0 ≡ y
get_or-append [] ys y = refl
get_or-append (x ∷ xs) ys y = get_or-append xs ys y

get_elem?-append :
    (xs ys : List ℕ) (y : ℕ) → get_elem? (xs ++ (y ∷ ys)) (length xs + 1) ≡ get_elem? ys 0
get_elem?-append [] ys y = refl
get_elem?-append (x ∷ xs) ys y =
    let e : suc (length xs) + 1 ≡ suc (length xs + 1) = omega arith in
    rw e (get_elem?-append xs ys y)

pub next-nil : (before : List ℕ) → next (at before []) ≡ (none, at before [])
unfolding next
next-nil before =
    let e : leb (length (before ++ [])) (length before) ≡ true =
      ground (arith, length-append before []) in
    rw e refl

pub next-cons :
    (before rest : List ℕ) (kind : ℕ)
    → next (at before (kind ∷ rest)) ≡ (
        if kind == 0
        then (
          some end_of_options,
          record { bytes = before ++ (kind ∷ rest); offset = length before + 1; done = true },
        )
        else if kind == 1
        then (
          some no_operation,
          record { bytes = before ++ (kind ∷ rest); offset = length before + 1; done = false },
        )
        else sized (at before (kind ∷ rest)) kind (get_elem? rest 0))
unfolding next
next-cons before rest kind =
    let e : leb (length (before ++ (kind ∷ rest))) (length before) ≡ false =
      ground (arith, length-append before (kind ∷ rest)) in
    rw e (rw (get_or-append before rest kind, get_elem?-append before rest kind) refl)

pub at-move :
    (before piece more : List ℕ) (n : ℕ)
    → length piece ≡ n
    → iterator (before ++ (piece ++ more)) (length before + n) ≡ at (before ++ piece) more
at-move before piece more n h =
    let e : length before + n ≡ length (before ++ piece) =
      omega (arith, length-append before piece) in
    rw (e, append_assoc before piece more) refl

pub collect-done :
    (fuel : ℕ) (bytes : List ℕ) (offset : ℕ)
    → collect fuel (record { bytes = bytes; offset = offset; done = true }) ≡ []
unfolding collect next
collect-done zero bytes offset = refl
collect-done (suc fuel) bytes offset = refl

pub slice-content :
    (before content more : List ℕ) (kind len : ℕ)
    → length content + 2 ≡ len
    → slice (before ++ (kind ∷ len ∷ (content ++ more))) (length before + 2) (length before + len)
      ≡ content
slice-content before content more kind len h =
    let e : length before + len - (length before + 2) ≡ length content = omega arith in
    let l : length (before ++ (kind ∷ len ∷ [])) ≡ length before + 2 =
      omega (arith, length-append before (kind ∷ len ∷ [])) in
    let a : before ++ (kind ∷ len ∷ (content ++ more))
        ≡ (before ++ (kind ∷ len ∷ [])) ++ (content ++ more) =
      sym (append_assoc before (kind ∷ len ∷ []) (content ++ more)) in
    rw (e, a)
      (rw (drop-append (length before + 2) (before ++ (kind ∷ len ∷ [])) (content ++ more) l)
        (take-append (length content) content more refl))
