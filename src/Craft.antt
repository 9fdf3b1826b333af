-- ===== src/Craft.antt =====
-- src/packet/craft.rs: stacks of layers that are measured and then written into one buffer.
-- A layer is a record of the methods of the trait `CraftLayer`. A slice that is out of bounds and a
-- panic of a layer are the result `panic`.
pub mod Measured
pub mod Nested
pub mod Laws
pub mod Built
pub mod Stack
pub mod Theorems
pub mod Compose
pub mod Header
pub mod Raw
pub mod Udp
pub mod Options
pub mod Ipv4
pub mod Tcp
pub mod Echo
pub mod Datagram
pub mod Setters
mod Tests
use Prim.Native.String.{String}
use maja.Base.{
  ℕ, ◌+◌, ◌-◌, ◌^◌, Bool, ◌&&◌, Option, none, some, List, [], ◌∷◌, ◌++◌, ltb, leb, ◌==◌,
  if◌then◌else◌, length, take, drop, replicate, min,
}
use maja.Protocol.{Protocol, id, is}
use maja.Context.{Layer, usize_max, slice}
use maja.Packet.{Packet}

pub data CraftError : Type 0 where
  length_overflow : String → String → ℕ → ℕ → CraftError
  invalid_length : String → String → ℕ → ℕ → CraftError
  invalid_field : String → String → ℕ → String → CraftError
  raw_must_be_terminal empty_stack : CraftError

pub data Result (A : Type 0) : Type 0 where
  ok : A → Result A
  err : CraftError → Result A
  panic : Result A

infixl 5 ◌>>=◌ ◌>>◌
abbrev pub ◌>>=◌ : {A B : Type 0} → Result A → (A → Result B) → Result B
ok a >>= f = f a
err e >>= f = err e
panic >>= f = panic

abbrev pub ◌>>◌ : {A B : Type 0} → Result A → Result B → Result B
m >> k = m >>= λ _. k

-- `Ipv4CraftContext`: the octets of the two addresses.
pub record Ipv4CraftContext : Type 0 where
  pub src : List ℕ
  pub dst : List ℕ

pub record CraftContext : Type 0 where
  pub ipv4 : Option Ipv4CraftContext

abbrev pub with_ipv4 : CraftContext → List ℕ → List ℕ → CraftContext
with_ipv4 c src dst = record c { ipv4 = some (record { src = src; dst = dst }) }

abbrev pub default_context : CraftContext
default_context = record { ipv4 = none }

pub record CraftChildPlan : Type 0 where
  pub protocol : Protocol
  pub len : ℕ

pub record CraftChild : Type 0 where
  pub protocol : Protocol
  pub offset : ℕ
  pub len : ℕ

pub record CraftPlan : Type 0 where
  pub layer_len : ℕ
  pub total_len : ℕ

-- The trait: `write` gives the bytes of the slice as it leaves them.
pub record CraftLayer : Type 0 where
  pub name : String
  pub protocol : Protocol
  pub child_context : CraftContext → CraftContext
  pub measure : CraftContext → Option CraftChildPlan → Result CraftPlan
  pub write : CraftContext → CraftPlan → Option CraftChild → List ℕ → Result (List ℕ)

pub record MeasuredLayer : Type 0 where
  pub protocol : Protocol
  pub plan : CraftPlan
  pub context : CraftContext
  pub offset : ℕ

-- `checked_u16_len`.
abbrev pub checked_u16_len : String → String → ℕ → Result ℕ
checked_u16_len protocol field len =
    if leb len 0xffff then ok len else err (length_overflow protocol field len 0xffff)

-- `checked_add_len`, whose `saturating_sub` is the subtraction of natural numbers.
abbrev pub checked_add_len : String → String → ℕ → ℕ → Result ℕ
checked_add_len protocol field lhs rhs =
    if leb (lhs + rhs) usize_max
    then ok (lhs + rhs)
    else err (length_overflow protocol field lhs (usize_max - rhs))

-- `child.map_or(0, |child| child.len())`.
abbrev pub child_len : Option CraftChildPlan → ℕ
child_len none = 0
child_len (some child) = child.len

abbrev validate_child : CraftLayer → CraftPlan → Option CraftChildPlan → Result (Unit {0})
validate_child layer plan none = ok tt
validate_child layer plan (some child) =
    checked_add_len layer.name "child_end" plan.layer_len child.len >>= λ child_end.
    if ltb plan.total_len child_end
    then err (invalid_length layer.name "total_len" plan.total_len child_end)
    else ok tt

unfoldable pub validate_plan : CraftLayer → CraftPlan → Option CraftChildPlan → Result (Unit {0})
validate_plan layer plan child =
    if ltb plan.total_len plan.layer_len
    then err (invalid_length layer.name "total_len" plan.total_len plan.layer_len)
    else validate_child layer plan child

-- `child_plan` is that of the layer that was measured before.
abbrev pub child_plan_of : List MeasuredLayer → Option CraftChildPlan
child_plan_of [] = none
child_plan_of (m ∷ ms) = some (record { protocol = m.protocol; len = m.plan.total_len })

-- The two loops of `PacketStack::measure`: contexts go inwards, and lengths come back outwards.
unfoldable pub measure_layers : CraftContext → List CraftLayer → Result (List MeasuredLayer)
measure_layers context [] = ok []
measure_layers context (l ∷ ls) = do
  ms ← measure_layers (l.child_context context) ls
  plan ← l.measure context (child_plan_of ms)
  validate_plan l plan (child_plan_of ms)
  ok (record { protocol = l.protocol; plan = plan; context = context; offset = 0 } ∷ ms)

unfoldable pub set_layer_offsets : ℕ → List MeasuredLayer → Result (List MeasuredLayer)
set_layer_offsets offset [] = ok []
set_layer_offsets offset (m ∷ ms) = do
  next ← checked_add_len "packet" "offset" offset m.plan.layer_len
  rest ← set_layer_offsets next ms
  ok (record m { offset = offset } ∷ rest)

-- `PacketStack::measure`; the stack starts with the default context.
unfoldable pub measure : CraftContext → List CraftLayer → Result (List MeasuredLayer)
measure context layers = do ms ← measure_layers context layers; set_layer_offsets 0 ms

abbrev pub child_of : MeasuredLayer → List MeasuredLayer → Option CraftChild
child_of m [] = none
child_of m (inner ∷ ms) =
    some
      (record { protocol = inner.protocol; offset = m.plan.layer_len; len = inner.plan.total_len })

-- `f(&mut bytes[start..stop])`.
unfoldable pub on_slice : ℕ → ℕ → (List ℕ → Result (List ℕ)) → List ℕ → Result (List ℕ)
on_slice start stop f bytes =
    if leb start stop && leb stop (length bytes)
    then (f (slice bytes start stop) >>= λ written.
        ok (take start bytes ++ (written ++ drop stop bytes)))
    else panic

-- `PacketStack::write_measured`: inner layers are written before the outer ones.
unfoldable pub write_measured : List CraftLayer → List MeasuredLayer → List ℕ → Result (List ℕ)
write_measured layers [] bytes = ok bytes
write_measured [] (m ∷ ms) bytes = panic
write_measured (l ∷ ls) (m ∷ ms) bytes = do
  inner ← write_measured ls ms bytes
  stop ← checked_add_len l.name "total_len" m.offset m.plan.total_len
  on_slice m.offset stop (l.write m.context m.plan (child_of m ms)) inner

abbrev pub collect_layers : List MeasuredLayer → List Layer
collect_layers [] = []
collect_layers (m ∷ ms) =
    record { protocol = m.protocol; offset = m.offset; len = m.plan.layer_len } ∷ collect_layers ms

-- `measured[0].plan.total_len()`.
abbrev pub first_total : List MeasuredLayer → Result ℕ
first_total [] = panic
first_total (m ∷ ms) = ok m.plan.total_len

-- `PacketStack::build`, in the context that the layer around the stack gives.
unfoldable pub build_in : CraftContext → List CraftLayer → Result Packet
build_in context [] = err empty_stack
build_in context (l ∷ ls) = do
  measured ← measure context (l ∷ ls)
  total ← first_total measured
  bytes ← write_measured (l ∷ ls) measured (replicate total 0)
  ok (record { bytes = bytes; layers = collect_layers measured })

abbrev pub build : List CraftLayer → Result Packet
build = build_in default_context

-- `PacketStack::to_bytes`.
unfoldable pub stack_to_bytes : List CraftLayer → Result (List ℕ)
stack_to_bytes [] = err empty_stack
stack_to_bytes (l ∷ ls) = do
  measured ← measure default_context (l ∷ ls)
  total ← first_total measured
  write_measured (l ∷ ls) measured (replicate total 0)

-- `PacketStack::push_layer` and the operator `/`.
abbrev pub push_layer : List CraftLayer → CraftLayer → List CraftLayer
push_layer layers layer = layers ++ (layer ∷ [])
