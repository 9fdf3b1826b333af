-- ===== src/Capture/Pcapng/Decided.antt =====
-- The readers of src/capture/format/pcapng.rs return: no loop runs out of its fuel.
use Prim.Native.String.{String}
use maja.Base.{
  ℕ, zero, suc, ◌+◌, ◌-◌, ◌≤◌, ◌<◌, ◌≡◌, ◌≢◌, refl, Bool, true, false, List, arith, ltb, ◌==◌,
  if◌then◌else◌, length,
}
use maja.Capture.{Endian, CaptureError}
use maja.Capture.Pcapng.{
  Result, ok, err, panic, stuck, ◌>>=◌, range, index, read_number, read_signed, text, Located,
  read_option, options, all_options, check_block_total_length,
}

-- The computation returned, with a value, with an error or by a panic.
abbrev pub Decided : {A : Type 0} → Result A → Type 0
Decided r = r ≢ stuck

pub Decided-ok : {A : Type 0} (a : A) → Decided (ok a)
Decided-ok a e = cc

pub Decided-panic : {A : Type 0} → Decided {A = A} panic
Decided-panic e = cc

pub Decided-err : {A : Type 0} (x : CaptureError) → Decided {A = A} (err x)
Decided-err x e = cc

pub Decided-bind :
    {A B : Type 0} (next : A → Result B) (first : Result A)
    → Decided first
    → ((a : A) → Decided (next a))
    → Decided (first >>= next)
Decided-bind next (ok a) h k = k a
Decided-bind next (err e) h k = λ p. cc
Decided-bind next panic h k = λ p. cc
Decided-bind next stuck h k = absurd (h refl)

pub ok_inj : {A : Type 0} {a b : A} → ok a ≡ ok b → a ≡ b
ok_inj e = cc

-- What a computation that succeeds is made of.
pub ok_of_bind :
    {A B : Type 0} (next : A → Result B) (first : Result A) {b : B}
    → (first >>= next) ≡ ok b
    → (a : A) × (first ≡ ok a) × (next a ≡ ok b)
ok_of_bind next (ok a) e = (a, refl, e)
ok_of_bind next (err x) e = cc
ok_of_bind next panic e = cc
ok_of_bind next stuck e = cc

pub Decided-if :
    {A : Type 0} (test : Bool) (a b : Result A)
    → Decided a
    → Decided b
    → Decided (if test then a else b)
Decided-if true a b h k = h
Decided-if false a b h k = k

-- A value that is read and stored.
pub Decided-set :
    {A B : Type 0} (set : A → B) (first : Result A)
    → Decided first
    → Decided (first >>= λ a. ok (set a))
Decided-set set first h = Decided-bind _ first h (λ a. Decided-ok (set a))

pub range-Decided : (bytes : List ℕ) (start stop : ℕ) → Decided (range bytes start stop)
unfolding range
range-Decided bytes start stop e = ground arith

pub index-Decided : (bytes : List ℕ) (i : ℕ) → Decided (index bytes i)
index-Decided bytes i e = ground arith

pub read_number-Decided :
    (width : ℕ) (endian : Endian) (bytes : List ℕ) → Decided (read_number width endian bytes)
read_number-Decided width endian bytes =
    Decided-bind _ (range bytes 0 width) (range-Decided bytes 0 width) (λ octets. Decided-ok _)

pub read_signed-Decided :
    (width : ℕ) (endian : Endian) (bytes : List ℕ) → Decided (read_signed width endian bytes)
read_signed-Decided width endian bytes =
    Decided-bind _ (read_number width endian bytes) (read_number-Decided width endian bytes)
      (λ n. Decided-ok _)

pub text-Decided : (bytes : List ℕ) → Decided (text bytes)
unfolding text
text-Decided bytes e = ground arith

pub check_block_total_length-Decided :
    (block : List ℕ) (endian : Endian) (what : String)
    → Decided (check_block_total_length block endian what)
unfolding check_block_total_length
check_block_total_length-Decided block endian what =
    Decided-bind _ (range block 4 8) (range-Decided block 4 8) (λ leading.
      Decided-bind _ (range block (length block - 4) (length block))
        (range-Decided block (length block - 4) (length block))
        (λ trailing. Decided-if _ _ _ (Decided-ok tt) (Decided-err _)))

read_option-Decided :
    (block : List ℕ) (endian : Endian) (offset : ℕ) → Decided (read_option block endian offset)
unfolding read_option
read_option-Decided block endian offset =
    Decided-bind _ (range block offset (offset + 2)) (range-Decided block offset (offset + 2))
      (λ kind.
        Decided-bind _ (range block (offset + 2) (offset + 4))
          (range-Decided block (offset + 2) (offset + 4))
          (λ len. Decided-if _ _ _ (Decided-ok _) (
            Decided-bind _ (range block (offset + 4) _) (range-Decided block (offset + 4) _)
              (λ value. Decided-if _ _ _ Decided-panic (Decided-ok _)))))

-- An option takes four bytes at least, and they are in the block.
read_option-next :
    (block : List ℕ) (endian : Endian) (offset : ℕ) (found : Located)
    → read_option block endian offset ≡ ok found
    → (offset + 4 ≤ found.next) × (offset + 4 ≤ length block)
unfolding read_option range
read_option-next block endian offset found e = ground arith

options-Decided :
    {S : Type 0} (step : ℕ → List ℕ → S → Result S) (fuel : ℕ) (block : List ℕ) (endian : Endian)
    (position : ℕ) (s : S)
    → ((code : ℕ) (value : List ℕ) (s : S) → Decided (step code value s))
    → 0 < fuel
    → length block < position + fuel
    → Decided (options step fuel block endian position s)
unfolding options
options-Decided step zero block endian position s steps room enough = absurd (omega arith)
options-Decided {S} step (suc fuel) block endian position s steps room enough =
    Decided-if (ltb position (length block - 4)) _ _
      (after (read_option block endian position) refl
        (λ next s'. options-Decided step fuel block endian next s' steps))
      (Decided-ok s)
  where
    after :
        (r : Result Located)
        → read_option block endian position ≡ r
        → ((next : ℕ) (s' : S)
            → 0 < fuel
            → length block < next + fuel
            → Decided (options step fuel block endian next s'))
        → Decided (
            r >>= λ found.
            (if found.code == 0
              then ok s
              else (step found.code found.value s >>= λ s'.
                  options step fuel block endian found.next s')))
    after (ok found) e again = Decided-if (found.code == 0) _ _ (Decided-ok s) (
        Decided-bind _ (step found.code found.value s) (steps found.code found.value s) (λ s'.
          again found.next s' (omega (arith, read_option-next block endian position found e))
            (omega (arith, read_option-next block endian position found e))))
    after (err x) e again = Decided-err x
    after panic e again = Decided-panic
    after stuck e again = absurd (read_option-Decided block endian position e)

pub all_options-Decided :
    {S : Type 0} (step : ℕ → List ℕ → S → Result S) (block : List ℕ) (endian : Endian)
    (position : ℕ) (s : S)
    → ((code : ℕ) (value : List ℕ) (s : S) → Decided (step code value s))
    → Decided (all_options step block endian position s)
all_options-Decided step block endian position s steps =
    options-Decided step (suc (length block)) block endian position s steps (omega arith)
      (omega arith)
