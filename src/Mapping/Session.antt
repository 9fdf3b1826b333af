-- ===== src/Mapping/Session.antt =====
-- What identifies a packet for the mapping: `SessionId`, `FragKey`, `Targets` and `PacketInfo` of
-- tools/maja-mergecap/src/map/packet.rs, and `Identity` and `AllocId` of flow.rs there.
pub mod Equal
pub mod Reply
use maja.Base.{ℕ, Bool, true, false, ◌&&◌, ◌||◌, Option, none, some, ltb, leb, ◌==◌, if◌then◌else◌}
use maja.Mapping.{Family, v4, v6, IpAddr, of_addr, addr_to_u128, same_addr}

-- An address as a number, and a port.
pub record Endpoint : Type 0 where
  pub addr : ℕ
  pub port : ℕ

-- `<=` on pairs, in lexicographic order.
abbrev endpoint_le : Endpoint → Endpoint → Bool
endpoint_le x y = ltb x.addr y.addr || (x.addr == y.addr && leb x.port y.port)

pub record SessionId : Type 0 where
  pub family : Family
  pub a : Endpoint
  pub b : Endpoint
  pub proto : ℕ

-- `SessionId::new`: the same for both directions.
pub new_session : IpAddr → ℕ → IpAddr → ℕ → ℕ → SessionId
new_session src src_port dst dst_port proto =
    let family = of_addr src in
    let src : Endpoint = record { addr = addr_to_u128 src; port = src_port } in
    let dst : Endpoint = record { addr = addr_to_u128 dst; port = dst_port } in
    if endpoint_le src dst
    then record { family = family; a = src; b = dst; proto = proto }
    else record { family = family; a = dst; b = src; proto = proto }

pub record FragKey : Type 0 where
  pub src : IpAddr
  pub dst : IpAddr
  pub proto : ℕ
  pub id : ℕ

pub record Targets : Type 0 where
  pub src : Option IpAddr
  pub dst : Option IpAddr

pub record PacketInfo : Type 0 where
  pub src : IpAddr
  pub dst : IpAddr
  pub proto : ℕ
  pub src_port : ℕ
  pub dst_port : ℕ
  pub has_ports : Bool
  pub fragment : Option FragKey

-- `PacketInfo::session`.
pub session : PacketInfo → Option SessionId
unfolding new_session
session info =
    if info.has_ports
    then some (new_session info.src info.src_port info.dst info.dst_port info.proto)
    else none

pub data MapKey : Type 0 where
  by_session by_address : MapKey

pub data Identity : Type 0 where
  of_session : SessionId → Identity
  of_fragment : FragKey → Identity
  of_address : Identity

abbrev pub identity : MapKey → Option SessionId → Option FragKey → Identity
identity by_address _ _ = of_address
identity by_session _ (some fragment) = of_fragment fragment
identity by_session (some session) none = of_session session
identity by_session none none = of_address

pub record AllocId : Type 0 where
  pub entry : ℕ
  pub identity : Identity
  pub addr : IpAddr

-- The derived equalities.
abbrev pub same_family : Family → Family → Bool
same_family v4 v4 = true
same_family v6 v6 = true
same_family v4 v6 = false
same_family v6 v4 = false

abbrev same_endpoint : Endpoint → Endpoint → Bool
same_endpoint x y = x.addr == y.addr && x.port == y.port

unfoldable pub same_session : SessionId → SessionId → Bool
same_session x y =
    same_family x.family y.family
    && (same_endpoint x.a y.a && (same_endpoint x.b y.b && x.proto == y.proto))

unfoldable pub same_fragment : FragKey → FragKey → Bool
same_fragment x y =
    same_addr x.src y.src && (same_addr x.dst y.dst && (x.proto == y.proto && x.id == y.id))

unfoldable pub same_identity : Identity → Identity → Bool
unfolding same_session same_fragment
same_identity (of_session x) (of_session y) = same_session x y
same_identity (of_fragment x) (of_fragment y) = same_fragment x y
same_identity of_address of_address = true
same_identity _ _ = false

unfoldable pub same_id : AllocId → AllocId → Bool
unfolding same_identity
same_id x y = x.entry == y.entry && (same_identity x.identity y.identity && same_addr x.addr y.addr)
