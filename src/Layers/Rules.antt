-- ===== src/Layers/Rules.antt =====
-- The rules of maja.Context, put together for the parsers of src/packet/layer: what stands
-- behind a header, and a header with what stands behind it.
use maja.Base.{
  ℕ, suc, ◌+◌, ◌≤◌, ◌<◌, Bool, true, false, Option, none, some, List, arith, if◌then◌else◌,
}
use maja.Protocol.{Protocol}
use maja.Context.{
  ParseContext, Parser, Done, ParseFn, ◌>>=◌, ◌>>◌, end, require, push_layer, parse_raw,
  dispatch_registered, parse_child_with,
}
use maja.Context.Outcome.{Outcome, Shallow, Outcome-push, Outcome-raw}
use maja.Context.Require.{Outcome-require}
use maja.Context.Rules.{Serves, Outcome-child, Outcome-registered}
use maja.Layers.{payload}

-- What comes behind a header that ends at `next`.
abbrev pub Next : ℕ → ℕ → Parser Done → Type 0
Next fuel next k =
    (c : ParseContext) → Shallow c → next ≤ end c → end c < next + fuel → Outcome next c (k c)

-- A parser whose own header is at least one byte long.
abbrev pub Parses : ℕ → ParseFn → Type 0
Parses fuel f =
    (offset : ℕ) (c : ParseContext)
    → Shallow c
    → offset ≤ end c
    → end c < offset + suc fuel
    → Outcome offset c (f offset c)

pub Next-raw : (fuel next : ℕ) → Next fuel next (parse_raw next)
Next-raw fuel next c h inside enough = Outcome-raw next next c (omega arith) h

pub Next-if :
    (fuel next : ℕ) (b : Bool) (x y : Parser Done)
    → Next fuel next x
    → Next fuel next y
    → Next fuel next (if b then x else y)
Next-if fuel next true x y p q = p
Next-if fuel next false x y p q = q

module _ (parse : Protocol → ParseFn) (fuel : ℕ) (serves : Serves parse fuel) where
  pub Next-child : (p : Protocol) (next : ℕ) → Next fuel next (parse_child_with (parse p) next)
  Next-child p next c h inside enough =
      Outcome-child (parse p) next c (omega arith) h (serves p next c h inside enough)

  pub Next-payload :
      (child : Option Protocol) (next : ℕ) (other : Parser Done)
      → Next fuel next other
      → Next fuel next (payload parse child next other)
  Next-payload none next other o = o
  Next-payload (some p) next other o = Next-child p next

  pub Next-registered :
      (parent : Protocol) (code next : ℕ) (other : Parser Done)
      → Next fuel next other
      → Next fuel next (dispatch_registered parse parent code next other)
  Next-registered parent code next other o c h inside enough =
      Outcome-registered parse fuel serves parent code next other c (omega arith) h inside enough
        (o c h inside enough)

-- A header that is known to be there, and its layer.
pub Outcome-layer :
    (fuel : ℕ) (p : Protocol) (offset len : ℕ) (k : Parser Done) (c : ParseContext)
    → Shallow c
    → end c < offset + suc fuel
    → 1 ≤ len
    → offset + len ≤ end c
    → Next fuel (offset + len) k
    → Outcome offset c ((push_layer p offset len >> k) c)
Outcome-layer fuel p offset len k c h enough pos room next =
    Outcome-push c p offset len k h pos room
      (λ c' h' same. next c' h' (omega (arith, same)) (omega (arith, same)))

-- The commonest parser: a header of a known length, its layer, and what the header says is next.
pub Parses-header :
    (fuel : ℕ) (p : Protocol) (len : ℕ) (k : ℕ → List ℕ → Parser Done)
    → 1 ≤ len
    → ((offset : ℕ) (header : List ℕ) → Next fuel (offset + len) (k offset header))
    → Parses fuel
        (λ offset. require p offset len >>= λ header. push_layer p offset len >> k offset header)
Parses-header fuel p len k pos next offset c h inside enough =
    Outcome-require p offset len c (λ header. push_layer p offset len >> k offset header) h
      (λ header room.
        Outcome-layer fuel p offset len (k offset header) c h enough pos room (next offset header))
