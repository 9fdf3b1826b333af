-- ===== src/Craft/Header.antt =====
-- How the builders of src/packet/layer fill their headers: through the mutable viewers, whose
-- accessors are `FieldMut::new(&mut data[start..start + size])`.
use maja.Base.{
  ℕ, zero, suc, Option, none, some, ◌+◌, ◌-◌, ◌≤◌, ◌≡◌, ◌≢◌, refl, sym, ap, ◌∙◌, true, List, [],
  ◌∷◌, ◌++◌, arith, leb, leb→le, Bool-cases, inl, inr, if◌then◌else◌, length, take, drop,
  length-append, length-take, length-drop, drop-append, drop-drop,
}
use mathlib.Core.List.{append_assoc}
use maja.Base.Words.{to_bytes, length-to_bytes}
use maja.Field.{FieldSpec, set}
use maja.Field.Laws.{set_rest}
use maja.Validate.{store}
use maja.Craft.{Result, ok, panic, ◌>>=◌}
use maja.Craft.Measured.{ok_inj, ok_of_bind}

-- One call of `set`.
pub record Edit : Type 0 where
  pub spec : FieldSpec
  pub start : ℕ
  pub value : ℕ

abbrev pub set_field : Edit → List ℕ → List ℕ
set_field e bytes = take e.start bytes ++ set e.spec true (drop e.start bytes) e.value

-- One call after the other.
abbrev pub set_fields : List Edit → List ℕ → List ℕ
set_fields [] bytes = bytes
set_fields (e ∷ es) bytes = set_fields es (set_field e bytes)

-- A viewer over `bytes[..len]` and its accessors; a slice that is shorter is a panic.
abbrev pub in_header : ℕ → (List ℕ → List ℕ) → List ℕ → Result (List ℕ)
in_header len f bytes = if leb len (length bytes) then ok (f bytes) else panic

-- `bytes[at..at + options.len()].copy_from_slice(options)`.
abbrev pub copy_at : ℕ → List ℕ → List ℕ → Result (List ℕ)
copy_at at options bytes =
    if leb (at + length options) (length bytes)
    then ok (take at bytes ++ (options ++ drop (at + length options) bytes))
    else panic

-- The first `n` bytes may change; the length and the other bytes do not.
pub record Keeps (n : ℕ) (before after : List ℕ) : Type 0 where
  pub same_length : length after ≡ length before
  pub behind : drop n after ≡ drop n before

abbrev pub Within : ℕ → List Edit → Type 0
Within n [] = Unit
Within n (e ∷ es) = (e.start + e.spec.size ≤ n) × Within n es

Keeps-weaken : {k : ℕ} (n : ℕ) (a b : List ℕ) → k ≤ n → Keeps k a b → Keeps n a b
Keeps-weaken {k} n a b h r = record {
  same_length = r.same_length;
  behind =
      sym (drop-drop k (n - k) n b (omega arith))
      ∙ ap (drop (n - k)) r.behind
      ∙ drop-drop k (n - k) n a (omega arith);
}

pub behind_at : {n : ℕ} {a b : List ℕ} (len : ℕ) → len ≡ n → Keeps n a b → drop len b ≡ drop len a
behind_at len e r = rw e r.behind

pub Keeps-trans : {n : ℕ} {a b c : List ℕ} → Keeps n a b → Keeps n b c → Keeps n a c
Keeps-trans r s = record {
  same_length = s.same_length ∙ r.same_length;
  behind = s.behind ∙ r.behind;
}

-- Bytes that are put over as many others.
splice-Keeps :
    (at k n : ℕ) (bytes new : List ℕ)
    → at + length new ≡ k
    → k ≤ n
    → k ≤ length bytes
    → Keeps n bytes (take at bytes ++ (new ++ drop k bytes))
splice-Keeps at k n bytes new h kn room =
    let front : length (take at bytes ++ new) ≡ k =
      omega (arith, length-append (take at bytes) new, length-take at bytes) in
    Keeps-weaken n bytes (take at bytes ++ (new ++ drop k bytes)) kn (record {
      same_length = omega (
        arith,
        length-append (take at bytes) (new ++ drop k bytes),
        length-append new (drop k bytes),
        length-take at bytes,
        length-drop k bytes,
      );
      behind =
          ap (drop k) (sym (append_assoc (take at bytes) new (drop k bytes)))
          ∙ drop-append k (take at bytes ++ new) (drop k bytes) front;
    })

set_field-Keeps :
    (e : Edit) (n : ℕ) (bytes : List ℕ)
    → e.start + e.spec.size ≤ n
    → n ≤ length bytes
    → Keeps n bytes (set_field e bytes)
set_field-Keeps e n bytes h room =
    let (len, rest) =
      set_rest e.spec true (drop e.start bytes) e.value
        (omega (arith, length-drop e.start bytes)) in
    let written : List ℕ = set e.spec true (drop e.start bytes) e.value in
    let k : ℕ = e.start + e.spec.size in
    Keeps-weaken n bytes (set_field e bytes) h (record {
      same_length = omega (
        arith,
        length-append (take e.start bytes) written,
        length-take e.start bytes,
        length-drop e.start bytes,
        len,
      );
      behind =
          sym (drop-drop e.start e.spec.size k (take e.start bytes ++ written) refl)
          ∙ ap (drop e.spec.size) (
              drop-append e.start (take e.start bytes) written
                (omega (arith, length-take e.start bytes)))
          ∙ rest
          ∙ drop-drop e.start e.spec.size k bytes refl;
    })

pub set_fields-Keeps :
    (es : List Edit) (n : ℕ) (bytes : List ℕ)
    → Within n es
    → n ≤ length bytes
    → Keeps n bytes (set_fields es bytes)
set_fields-Keeps [] n bytes h room = record { same_length = refl; behind = refl }
set_fields-Keeps (e ∷ es) n bytes h room =
    let first = set_field-Keeps e n bytes h.0 room in
    Keeps-trans first
      (set_fields-Keeps es n (set_field e bytes) h.1 (omega (arith, first.same_length)))

pub store-Keeps :
    (at value n : ℕ) (bytes : List ℕ)
    → at + 2 ≤ n
    → n ≤ length bytes
    → Keeps n bytes (store at value bytes)
unfolding store
store-Keeps at value n bytes h room =
    let e : suc (suc at) ≡ at + 2 = omega arith in
    splice-Keeps at (suc (suc at)) n bytes (to_bytes true 2 value)
      (omega (arith, length-to_bytes true 2 value)) (omega arith) (omega arith)

pub copy-Keeps :
    (at n : ℕ) (options bytes : List ℕ)
    → at + length options ≤ n
    → n ≤ length bytes
    → (copied : List ℕ) × (copy_at at options bytes ≡ ok copied) × Keeps n bytes copied
copy-Keeps at n options bytes h room =
    let e : leb (at + length options) (length bytes) ≡ true = ground arith in
    (_, rw e refl, splice-Keeps at (at + length options) n bytes options refl h (omega arith))

pub in_header-ok :
    (len : ℕ) (f : List ℕ → List ℕ) (bytes : List ℕ)
    → len ≤ length bytes
    → in_header len f bytes ≡ ok (f bytes)
in_header-ok len f bytes h = let e : leb len (length bytes) ≡ true = ground arith in rw e refl

-- `unwrap_or` and `unwrap_or_default`.
abbrev pub unwrap_or : {A : Type 0} → Option A → A → A
unwrap_or none d = d
unwrap_or (some a) d = a

pub drop_all : (n : ℕ) (xs : List ℕ) → length xs ≤ n → drop n xs ≡ []
drop_all zero [] h = refl
drop_all (suc n) [] h = refl
drop_all zero (x ∷ xs) h = absurd (omega arith)
drop_all (suc n) (x ∷ xs) h = drop_all n xs (omega arith)

pub no_panic : {w : List ℕ} → panic ≢ ok w
no_panic e = cc

pub in_header-length :
    (len : ℕ) (f : List ℕ → List ℕ) (bytes written : List ℕ)
    → in_header len f bytes ≡ ok written
    → (len ≤ length bytes → Keeps len bytes (f bytes))
    → length written ≡ length bytes
in_header-length len f bytes written e keeps = elim (Bool-cases (leb len (length bytes))) [
  | inl room ↦
      ap length (sym (ok_inj (sym (rw room refl) ∙ e))) ∙ (keeps (leb→le _ _ room)).same_length
  | inr short ↦ absurd (no_panic (rw short at e))
]

-- A builder fills its header, and then sets the checksum, which is that of the filled bytes.
abbrev pub fill : ℕ → List Edit → ℕ → (List ℕ → ℕ) → List ℕ → Result (List ℕ)
fill n edits at checksum bytes = in_header n (set_fields edits) bytes >>= λ filled.
    in_header n (store at (checksum filled)) filled

-- What `fill` gives of bytes that hold the header.
pub record Filled (n at : ℕ) (checksum : List ℕ → ℕ) (bytes : List ℕ) (r : Result (List ℕ))
    : Type 0 where
  pub filled : List ℕ
  pub result : r ≡ ok (store at (checksum filled) filled)
  pub kept : Keeps n bytes filled
  pub kept_all : Keeps n bytes (store at (checksum filled) filled)

module _ (n at : ℕ) (edits : List Edit) (checksum : List ℕ → ℕ) (bytes : List ℕ) where
  pub fill-Filled :
      Within n edits
      → at + 2 ≤ n
      → n ≤ length bytes
      → Filled n at checksum bytes (fill n edits at checksum bytes)
  fill-Filled within h room =
      let first = set_fields-Keeps edits n bytes within room in
      let filled : List ℕ = set_fields edits bytes in
      let room' : n ≤ length filled = omega (arith, first.same_length) in
      let value : ℕ = checksum filled in
      record {
        filled = filled;
        result =
            rw (in_header-ok n (set_fields edits) bytes room)
              (in_header-ok n (store at value) filled room');
        kept = first;
        kept_all = Keeps-trans first (store-Keeps at value n filled h room');
      }

  pub fill-length :
      (written : List ℕ)
      → Within n edits
      → at + 2 ≤ n
      → fill n edits at checksum bytes ≡ ok written
      → length written ≡ length bytes
  fill-length written within h e =
      let (filled, e1, e2) = ok_of_bind _ (in_header n (set_fields edits) bytes) e in
      in_header-length n (store at (checksum filled)) filled written e2
        (λ room. store-Keeps at (checksum filled) n filled h room)
      ∙ in_header-length n (set_fields edits) bytes filled e1
          (λ room. set_fields-Keeps edits n bytes within room)

pub copy_at-length :
    (at : ℕ) (options bytes written : List ℕ)
    → copy_at at options bytes ≡ ok written
    → length written ≡ length bytes
copy_at-length at options bytes written e =
    elim (Bool-cases (leb (at + length options) (length bytes))) [
      | inl room ↦
          let (copied, same, kept) =
            copy-Keeps at (length bytes) options bytes (leb→le _ _ room) (omega arith) in
          ap length (ok_inj (sym e ∙ same)) ∙ kept.same_length
      | inr short ↦ absurd (no_panic (rw short at e))
    ]
