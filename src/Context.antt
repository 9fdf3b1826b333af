-- ===== src/Context.antt =====
-- `ParseContext`, `ParseOptions` and `CustomProtocolRegistry` of src/packet.rs, `Layer` of
-- src/packet/layer.rs and `ParseError` of src/packet/error.rs.
-- A parser takes the context and returns its result with the context as it left it, also on an
-- error. `usize` has 64 bits.
pub mod Outcome
pub mod Require
pub mod Rules
pub mod Within
pub mod Registry
pub mod Child
use Prim.Native.String.{String}
use maja.Base.{
  ℕ, ◌+◌, ◌-◌, ◌^◌, min, Bool, true, false, ◌&&◌, Option, none, some, List, [], ◌∷◌, ◌++◌,
}
use maja.Base.{ltb, leb, ◌==◌, if◌then◌else◌, length, take, drop}
use maja.Protocol.{Protocol, LinkType, id, is}

pub data ParseError : Type 0 where
  truncated : Protocol → ℕ → ℕ → ℕ → ParseError
  malformed : Protocol → String → String → ParseError
  unsupported_link_type : LinkType → ParseError
  -- No error of the crate: the fuel of the model ran out.
  stuck : ParseError

pub data Result (A : Type 0) : Type 0 where
  ok : A → Result A
  err : ParseError → Result A

pub record Layer : Type 0 where
  pub protocol : Protocol
  pub offset : ℕ
  pub len : ℕ

-- The table from a parent's id and a code to the marker whose parser `register` stored.
abbrev pub Registry : Type 0
Registry = List ((ℕ × ℕ) × Protocol)

-- `HashMap::get`.
unfoldable pub registered : Registry → ℕ → ℕ → Option Protocol
registered [] parent code = none
registered (((p, c), child) ∷ rest) parent code =
    if p == parent && c == code then some child else registered rest parent code

-- `CustomProtocolRegistry::register`, with the replacement that `HashMap::insert` makes.
unfoldable pub register : Registry → Protocol → ℕ → Protocol → Registry
register [] parent code child = ((id parent, code), child) ∷ []
register (((p, c), old) ∷ rest) parent code child =
    if p == id parent && c == code
    then ((p, c), child) ∷ rest
    else ((p, c), old) ∷ register rest parent code child

pub record ParseOptions : Type 0 where
  pub panic : Bool
  pub registry : Registry
  pub max_depth : Option ℕ
  pub fallback_to_raw_on_child_error : Bool

pub record ParseContext : Type 0 where
  pub bytes : List ℕ
  pub declared_end : Option ℕ
  pub options : ParseOptions
  pub layers : List Layer

abbrev pub Parser : Type 0 → Type 0
Parser A = ParseContext → Result A × ParseContext

abbrev pub Done : Type 0
Done = Unit {0}

-- `fn(&mut ParseContext, usize) -> Result<(), ParseError>`.
abbrev pub ParseFn : Type 0
ParseFn = ℕ → Parser Done

module _ {A : Type 0} where
  abbrev pub pure : A → Parser A
  pure a c = (ok a, c)

  abbrev pub fail : ParseError → Parser A
  fail e c = (err e, c)

-- `?`: an error leaves at once, with the context that it left behind.
abbrev pub and_then :
    {A B : Type 0} → (A → Parser B) → Result A × ParseContext → Result B × ParseContext
and_then f (ok a, c) = f a c
and_then f (err e, c) = (err e, c)

infixl 5 ◌>>=◌ ◌>>◌
abbrev pub ◌>>=◌ : {A B : Type 0} → Parser A → (A → Parser B) → Parser B
◌>>=◌ m f c = and_then f (m c)

abbrev pub ◌>>◌ : {A B : Type 0} → Parser A → Parser B → Parser B
m >> k = m >>= λ _. k

abbrev pub usize_max : ℕ
usize_max = 2 ^ 64 - 1

abbrev pub checked_add : ℕ → ℕ → Option ℕ
checked_add a b = if leb (a + b) usize_max then some (a + b) else none

abbrev pub saturating_add : ℕ → ℕ → ℕ
saturating_add a b = min (a + b) usize_max

-- `ParseContext::new`.
abbrev pub new : List ℕ → ParseOptions → List Layer → ParseContext
new bytes options layers = record {
  bytes = bytes;
  declared_end = none;
  options = options;
  layers = layers;
}

-- `ParseContext::end`.
abbrev pub end_of : Option ℕ → List ℕ → ℕ
end_of none bytes = length bytes
end_of (some e) bytes = min e (length bytes)

abbrev pub end : ParseContext → ℕ
end c = end_of c.declared_end c.bytes

-- `&bytes[start..stop]`.
abbrev pub slice : List ℕ → ℕ → ℕ → List ℕ
slice bytes start stop = take (stop - start) (drop start bytes)

-- `ParseContext::rest`.
abbrev pub rest : ParseContext → ℕ → List ℕ
rest c offset = slice c.bytes (min offset (end c)) (end c)

-- `ParseError::truncated`, whose `saturating_sub` is the subtraction of natural numbers.
abbrev pub truncated_at : Protocol → ℕ → ℕ → ℕ → ParseError
truncated_at protocol offset needed bytes_len =
    truncated protocol offset needed (bytes_len - offset)

-- `bytes.get(start..stop)`.
abbrev pub get_range : List ℕ → ℕ → ℕ → Option (List ℕ)
get_range bytes start stop =
    if leb start stop && leb stop (length bytes) then some (slice bytes start stop) else none

abbrev pub or_truncated : Protocol → ℕ → ℕ → ℕ → Option (List ℕ) → Result (List ℕ)
or_truncated protocol offset len bytes_len none = err (truncated_at protocol offset len bytes_len)
or_truncated protocol offset len bytes_len (some found) = ok found

-- `ParseContext::require`.
unfoldable pub require : Protocol → ℕ → ℕ → Parser (List ℕ)
require protocol offset len c =
    let found : Option (List ℕ) = elim (checked_add offset len) [
      | none ↦ none
      | some stop ↦ if ltb (end c) stop then none else get_range c.bytes offset stop
    ] in
    (or_truncated protocol offset len (end c) found, c)

-- `ParseContext::can_push_layer`.
abbrev pub can_push_layer : ParseContext → Bool
can_push_layer c = elim c.options.max_depth [
  | none ↦ true
  | some depth ↦ ltb (length c.layers) depth
]

abbrev pub append_layer : ParseContext → Protocol → ℕ → ℕ → ParseContext
append_layer c protocol offset len = record c {
  layers = c.layers ++ (record { protocol = protocol; offset = offset; len = len } ∷ []);
}

-- `ParseContext::push_layer`.
unfoldable pub push_layer : Protocol → ℕ → ℕ → Parser Done
push_layer protocol offset len c =
    (ok tt, if can_push_layer c then append_layer c protocol offset len else c)

-- `self.layers.last().is_some_and(…)`: the last layer is this very raw layer.
unfoldable pub ends_with_raw : List Layer → ℕ → ℕ → Bool
ends_with_raw [] offset len = false
ends_with_raw (l ∷ []) offset len = is l.protocol Protocol.raw && l.offset == offset && l.len == len
ends_with_raw (l ∷ m ∷ ls) offset len = ends_with_raw (m ∷ ls) offset len

-- `ParseContext::parse_raw`. Its `checked_sub` succeeds just when `offset` is at most the end.
unfoldable pub parse_raw : ParseFn
parse_raw offset c =
    let len = end c - offset in
    (
      ok tt,
      if ltb offset (end c)
          then (if ends_with_raw c.layers offset len
              then c
              else append_layer c Protocol.raw offset len)
          else c,
    )

-- `layers.truncate(checkpoint)`, the raw remainder, and the error that is swallowed. The fuel that
-- runs out is no error of the crate, and passes through.
abbrev pub recover : ParseContext → ℕ → Result Done × ParseContext → Result Done × ParseContext
recover before offset (ok done, c) = (ok done, c)
recover before offset (err stuck, c) = (err stuck, c)
recover before offset (err e, c) =
    if before.options.fallback_to_raw_on_child_error
    then parse_raw offset (record c { layers = take (length before.layers) c.layers })
    else (err e, c)

-- `ParseContext::parse_child_with`.
unfoldable pub parse_child_with : ParseFn → ParseFn
unfolding parse_raw
parse_child_with parse_fn offset c =
    if can_push_layer c then recover c offset (parse_fn offset c) else parse_raw offset c

-- `ParseContext::parse`: the root.
unfoldable pub parse_root : ParseFn → ParseFn
parse_root parse_fn offset c = if can_push_layer c then parse_fn offset c else (ok tt, c)

-- A custom parser under `parent` for `code`, or else the `other` branch of the match.
abbrev pub dispatch_registered : (Protocol → ParseFn) → Protocol → ℕ → ℕ → Parser Done → Parser Done
dispatch_registered parse parent code offset other c =
    elim (registered c.options.registry (id parent) code) [
      | none ↦ other c
      | some child ↦ parse_child_with (parse child) offset c
    ]

-- The inner bound of IPv4 and IPv6: the nearer of the declared ends.
abbrev pub narrow : Option ℕ → Option ℕ → Option ℕ
narrow (some outer) (some inner) = some (min outer inner)
narrow (some outer) none = some outer
narrow none inner = inner

-- `ctx.declared_end` is narrowed for the payload and set back, also on an error.
unfoldable pub within : Option ℕ → Parser Done → Parser Done
within stop body c =
    let (r, c') = body (record c { declared_end = narrow c.declared_end stop }) in
    (r, record c' { declared_end = c.declared_end })

-- `if let Some(end) = end { ctx.parse_raw(end); }`
abbrev pub trailer : Option ℕ → Parser Done
trailer none = pure tt
trailer (some stop) = parse_raw stop
