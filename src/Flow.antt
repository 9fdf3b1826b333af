-- ===== src/Flow.antt =====
-- `FlowId` of src/packet/flow.rs: its two conversions from tuples, symmetric and not.
pub mod Symmetric
mod Tests
use Prim.Native.Nat.{Ordering, compare}
use maja.Base.{ℕ, Bool, true, false, ltb, leb, ◌==◌, ◌&&◌, ◌||◌, if◌then◌else◌}

-- `std::net::IpAddr`, its octets read as a number; the derived order puts IPv4 first and goes by the
-- octets then.
pub data IpAddr : Type 0 where
  v4 v6 : ℕ → IpAddr

abbrev pub addr_lt : IpAddr → IpAddr → Bool
addr_lt (v4 a) (v4 b) = ltb a b
addr_lt (v4 a) (v6 b) = true
addr_lt (v6 a) (v4 b) = false
addr_lt (v6 a) (v6 b) = ltb a b

abbrev pub addr_eq : IpAddr → IpAddr → Bool
addr_eq (v4 a) (v4 b) = a == b
addr_eq (v4 a) (v6 b) = false
addr_eq (v6 a) (v4 b) = false
addr_eq (v6 a) (v6 b) = a == b

-- `<=` on pairs of an address and a port, in lexicographic order.
abbrev pub endpoint_le : IpAddr → ℕ → IpAddr → ℕ → Bool
endpoint_le a p b q = addr_lt a b || (addr_eq a b && leb p q)

-- A protocol is its number.
pub data FlowId : Type 0 where
  ip : IpAddr → FlowId
  tuple2 : IpAddr → IpAddr → FlowId
  tuple3 : IpAddr → IpAddr → ℕ → FlowId
  tuple4 : IpAddr → IpAddr → ℕ → ℕ → FlowId
  tuple5 : IpAddr → IpAddr → ℕ → ℕ → ℕ → FlowId

-- What `FlowId::new` takes.
pub data Tuple : Type 0 where
  one : IpAddr → Tuple
  two : IpAddr → IpAddr → Tuple
  three : IpAddr → IpAddr → ℕ → Tuple
  four : IpAddr → IpAddr → ℕ → ℕ → Tuple
  five : IpAddr → IpAddr → ℕ → ℕ → ℕ → Tuple

-- `FlowId<false>`.
pub asymmetric : Tuple → FlowId
asymmetric (one a) = ip a
asymmetric (two src dst) = tuple2 src dst
asymmetric (three src dst proto) = tuple3 src dst proto
asymmetric (four src dst src_port dst_port) = tuple4 src dst src_port dst_port
asymmetric (five src dst src_port dst_port proto) = tuple5 src dst src_port dst_port proto

-- `FlowId<true>`.
pub symmetric : Tuple → FlowId
symmetric (one a) = ip a
symmetric (two src dst) = if addr_lt src dst then tuple2 src dst else tuple2 dst src
symmetric (three src dst proto) =
    if addr_lt src dst then tuple3 src dst proto else tuple3 dst src proto
symmetric (four src dst src_port dst_port) =
    if endpoint_le src src_port dst dst_port
    then tuple4 src dst src_port dst_port
    else tuple4 dst src dst_port src_port
symmetric (five src dst src_port dst_port proto) =
    if endpoint_le src src_port dst dst_port
    then tuple5 src dst src_port dst_port proto
    else tuple5 dst src dst_port src_port proto
