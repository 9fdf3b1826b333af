-- ===== src/Options.antt =====
-- src/packet/layer/tcp/option.rs and src/packet/layer/ip/v4/option.rs: the two iterators over options
-- are the same code over another enumeration of kinds, and a kind is its number here.
pub mod RoundTrip
pub mod Step
pub mod Tiles
mod Tests
use maja.Base.{
  ℕ, zero, suc, ◌+◌, ◌*◌, Bool, true, false, ◌&&◌, ◌||◌, Option, none, some, List, [], ◌∷◌, ltb,
  leb, ◌==◌, if◌then◌else◌, length, get_elem?, get_or, drop,
}
use maja.Base.Words.{be16}
use maja.Context.{slice}

-- `TcpOption` and `Ipv4Option`.
pub data Item : Type 0 where
  end_of_options no_operation : Item
  option : ℕ → ℕ → List ℕ → Item
  malformed : ℕ → List ℕ → Item

-- `TcpOptions` and `Ipv4Options`.
pub record Options : Type 0 where
  pub bytes : List ℕ
  pub offset : ℕ
  pub done : Bool

abbrev pub options_of : List ℕ → Options
options_of bytes = record { bytes = bytes; offset = 0; done = false }

abbrev stop_malformed : Options → ℕ → Option Item × Options
stop_malformed s kind = (some (malformed kind (drop s.offset s.bytes)), record s { done = true })

-- The arm of a kind that has a length.
abbrev sized : Options → ℕ → Option ℕ → Option Item × Options
sized s kind none = stop_malformed s kind
sized s kind (some len) =
    if ltb len 2 || ltb (length s.bytes) (s.offset + len) then stop_malformed s kind else (
      some (option kind len (slice s.bytes (s.offset + 2) (s.offset + len))),
      record s { offset = s.offset + len },
    )

-- `Iterator::next`.
unfoldable pub next : Options → Option Item × Options
next s =
    if s.done || leb (length s.bytes) s.offset
    then (none, s)
    else (let kind = get_or s.bytes s.offset 0 in
        if kind == 0
        then (some end_of_options, record s { offset = s.offset + 1; done = true })
        else if kind == 1
        then (some no_operation, record s { offset = s.offset + 1 })
        else sized s kind (get_elem? s.bytes (s.offset + 1)))

-- `collect`, for at most `fuel` items: a caller that goes on until `next` gives nothing.
unfoldable pub collect : ℕ → Options → List Item
collect zero s = []
collect (suc fuel) s = collect_from (next s) (collect fuel)
  where
    collect_from : Option Item × Options → (Options → List Item) → List Item
    collect_from (none, s') others = []
    collect_from (some item, s') others = item ∷ others s'

pub kind_of : Item → Option ℕ
kind_of end_of_options = some 0
kind_of no_operation = some 1
kind_of (option kind len bytes) = some kind
kind_of (malformed kind bytes) = some kind

pub len_of : Item → Option ℕ
len_of end_of_options = some 1
len_of no_operation = some 1
len_of (option kind len bytes) = some len
len_of (malformed kind bytes) = none

pub data_of : Item → Option (List ℕ)
data_of end_of_options = none
data_of no_operation = none
data_of (option kind len bytes) = some bytes
data_of (malformed kind bytes) = none

-- `fixed_u16` and `raw_for_kind`.
pub fixed_u16 : ℕ → Item → Option ℕ
fixed_u16 expected end_of_options = none
fixed_u16 expected no_operation = none
fixed_u16 expected (option kind len bytes) =
    if kind == expected && length bytes == 2
    then some (be16 (get_or bytes 0 0) (get_or bytes 1 0))
    else none
fixed_u16 expected (malformed kind bytes) = none

pub raw_for_kind : ℕ → Item → Option (List ℕ)
raw_for_kind expected end_of_options = none
raw_for_kind expected no_operation = none
raw_for_kind expected (option kind len bytes) = if kind == expected then some bytes else none
raw_for_kind expected (malformed kind bytes) = none
