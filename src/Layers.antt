-- ===== src/Layers.antt =====
-- The `parse` functions of src/packet/layer. Each takes the parsers that it may call, `parse`, as a
-- parameter; maja.Parse closes the circle.
pub mod Link
pub mod Ip
pub mod Transport
pub mod Rules
use maja.Base.{ℕ, ◌+◌, Bool, true, Option, none, some, List}
use maja.Field.{FieldSpec, raw}
use maja.Protocol.{Protocol}
use maja.Context.{Parser, Done, ParseFn, slice, parse_child_with}

-- `FieldRef::new(&data[start..start + size]).raw()`, in network byte order.
unfoldable pub field : FieldSpec → ℕ → List ℕ → ℕ
unfolding raw
field spec start header = raw spec true (slice header start (start + spec.size))

-- A match whose arms parse a child of the crate, or do something else.
abbrev pub payload : (Protocol → ParseFn) → Option Protocol → ℕ → Parser Done → Parser Done
payload parse (some child) offset other = parse_child_with (parse child) offset
payload parse none offset other = other
