-- ===== src/Mapping/Session/Reply.antt =====
-- Both directions of a session have one id: tools/maja-mergecap/src/map/packet.rs.
use maja.Base.{ℕ, ◌≡◌, refl, dec_lt, true, false, arith, if◌then◌else◌}
use maja.Mapping.{Family, of_addr, addr_to_u128}
use maja.Mapping.Session.{PacketInfo, SessionId, session, new_session, endpoint_le, Endpoint}

-- The packet of the other direction.
abbrev pub reply_of : PacketInfo → PacketInfo
reply_of info = record info {
  src = info.dst;
  dst = info.src;
  src_port = info.dst_port;
  dst_port = info.src_port;
}

data Order (x y : Endpoint) : Type 0 where
  first : endpoint_le x y ≡ true → endpoint_le y x ≡ false → Order x y
  second : endpoint_le x y ≡ false → endpoint_le y x ≡ true → Order x y
  equal : x ≡ y → Order x y

endpoint_order : (x y : Endpoint) → Order x y
endpoint_order x y = elim (dec_lt x.addr y.addr) [
  | yes less ↦ Order.first (ground arith) (ground arith)
  | no other ↦ elim (dec_lt y.addr x.addr) [
    | yes more ↦ Order.second (ground arith) (ground arith)
    | no more ↦ elim (dec_lt x.port y.port) [
      | yes less ↦ Order.first (ground arith) (ground arith)
      | no above ↦ elim (dec_lt y.port x.port) [
        | yes less ↦ Order.second (ground arith) (ground arith)
        | no below ↦
            let addr : x.addr ≡ y.addr = omega arith in
            let port : x.port ≡ y.port = omega arith in
            Order.equal (λ i. record { addr = addr i; port = port i })
      ]
    ]
  ]
]

abbrev ordered : Family → ℕ → Endpoint → Endpoint → SessionId
ordered family proto x y = record { family = family; a = x; b = y; proto = proto }

either_order :
    (family : Family) (proto : ℕ) (x y : Endpoint)
    → (if endpoint_le y x then ordered family proto y x else ordered family proto x y)
      ≡ (if endpoint_le x y then ordered family proto x y else ordered family proto y x)
either_order family proto x y = elim (endpoint_order x y) [
  | first forward back ↦ rw (forward, back) refl
  | second forward back ↦ rw (forward, back) refl
  | equal e ↦ rw e refl
]

pub session-reply_of :
    (info : PacketInfo)
    → of_addr info.src ≡ of_addr info.dst
    → session (reply_of info) ≡ session info
unfolding session new_session
session-reply_of info same =
    let x : Endpoint = record { addr = addr_to_u128 info.src; port = info.src_port } in
    let y : Endpoint = record { addr = addr_to_u128 info.dst; port = info.dst_port } in
    rw (same, either_order (of_addr info.dst) info.proto x y) refl
