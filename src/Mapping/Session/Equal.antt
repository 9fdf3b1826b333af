-- ===== src/Mapping/Session/Equal.antt =====
-- The derived equality of allocation keys is equality.
use maja.Base.{ℕ, ◌≡◌, refl, ap, Bool, true, false, ◌&&◌, ◌==◌, ==_iff}
use maja.Mapping.{IpAddr, ipv4, ipv6, same_addr, Family, v4, v6}
use maja.Mapping.Session.{
  AllocId, Identity, of_session, of_fragment, of_address, SessionId, FragKey, Endpoint, same_family,
  same_endpoint, same_session, same_fragment, same_identity, same_id,
}

and_cases : (p q : Bool) → (p && q) ≡ true → (p ≡ true) × (q ≡ true)
and_cases true true h = (refl, refl)
and_cases true false h = cc
and_cases false q h = cc

same_addr_eq : (x y : IpAddr) → same_addr x y ≡ true → x ≡ y
same_addr_eq (ipv4 m) (ipv4 n) h = ap ipv4 ((==_iff m n).0 h)
same_addr_eq (ipv6 m) (ipv6 n) h = ap ipv6 ((==_iff m n).0 h)
same_addr_eq (ipv4 m) (ipv6 n) h = cc
same_addr_eq (ipv6 m) (ipv4 n) h = cc

same_family_eq : (x y : Family) → same_family x y ≡ true → x ≡ y
same_family_eq v4 v4 h = refl
same_family_eq v6 v6 h = refl
same_family_eq v4 v6 h = cc
same_family_eq v6 v4 h = cc

same_endpoint_eq : (x y : Endpoint) → same_endpoint x y ≡ true → x ≡ y
same_endpoint_eq x y h =
    let (at_addr, at_port) = and_cases (x.addr == y.addr) (x.port == y.port) h in
    let addr = (==_iff x.addr y.addr).0 at_addr in
    let port = (==_iff x.port y.port).0 at_port in λ i. record { addr = addr i; port = port i }

pub same_fragment_eq : (x y : FragKey) → same_fragment x y ≡ true → x ≡ y
unfolding same_fragment
same_fragment_eq x y h =
    let (at_src, h) = and_cases (same_addr x.src y.src) _ h in
    let (at_dst, h) = and_cases (same_addr x.dst y.dst) _ h in
    let (at_proto, at_id) = and_cases (x.proto == y.proto) (x.id == y.id) h in
    let src = same_addr_eq x.src y.src at_src in
    let dst = same_addr_eq x.dst y.dst at_dst in
    let proto = (==_iff x.proto y.proto).0 at_proto in
    let id = (==_iff x.id y.id).0 at_id in
    λ i. record { src = src i; dst = dst i; proto = proto i; id = id i }

same_session_eq : (x y : SessionId) → same_session x y ≡ true → x ≡ y
unfolding same_session
same_session_eq x y h =
    let (at_family, h) = and_cases (same_family x.family y.family) _ h in
    let (at_a, h) = and_cases (same_endpoint x.a y.a) _ h in
    let (at_b, at_proto) = and_cases (same_endpoint x.b y.b) (x.proto == y.proto) h in
    let family = same_family_eq x.family y.family at_family in
    let a = same_endpoint_eq x.a y.a at_a in
    let b = same_endpoint_eq x.b y.b at_b in
    let proto = (==_iff x.proto y.proto).0 at_proto in
    λ i. record { family = family i; a = a i; b = b i; proto = proto i }

same_identity_eq : (x y : Identity) → same_identity x y ≡ true → x ≡ y
unfolding same_identity
same_identity_eq (of_session x) (of_session y) h = ap of_session (same_session_eq x y h)
same_identity_eq (of_fragment x) (of_fragment y) h = ap of_fragment (same_fragment_eq x y h)
same_identity_eq of_address of_address h = refl
same_identity_eq (of_session x) (of_fragment y) h = cc
same_identity_eq (of_session x) of_address h = cc
same_identity_eq (of_fragment x) (of_session y) h = cc
same_identity_eq (of_fragment x) of_address h = cc
same_identity_eq of_address (of_session y) h = cc
same_identity_eq of_address (of_fragment y) h = cc

pub same_id_eq : (x y : AllocId) → same_id x y ≡ true → x ≡ y
unfolding same_id
same_id_eq x y h =
    let (at_entry, h) = and_cases (x.entry == y.entry) _ h in
    let (at_identity, at_addr) =
      and_cases (same_identity x.identity y.identity) (same_addr x.addr y.addr) h in
    let entry = (==_iff x.entry y.entry).0 at_entry in
    let identity = same_identity_eq x.identity y.identity at_identity in
    let addr = same_addr_eq x.addr y.addr at_addr in
    λ i. record { entry = entry i; identity = identity i; addr = addr i }

equal : (n : ℕ) → (n == n) ≡ true
equal n = (==_iff n n).1 refl

same_addr_refl : (x : IpAddr) → same_addr x x ≡ true
same_addr_refl (ipv4 m) = equal m
same_addr_refl (ipv6 m) = equal m

same_family_refl : (x : Family) → same_family x x ≡ true
same_family_refl v4 = refl
same_family_refl v6 = refl

same_identity_refl : (x : Identity) → same_identity x x ≡ true
unfolding same_identity same_session same_fragment
same_identity_refl (of_session x) =
    rw
      (
        same_family_refl x.family,
        equal x.a.addr,
        equal x.a.port,
        equal x.b.addr,
        equal x.b.port,
        equal x.proto,
      )
      refl
same_identity_refl (of_fragment x) =
    rw (same_addr_refl x.src, same_addr_refl x.dst, equal x.proto, equal x.id) refl
same_identity_refl of_address = refl

pub same_id_refl : (x : AllocId) → same_id x x ≡ true
unfolding same_id
same_id_refl x = rw (equal x.entry, same_identity_refl x.identity, same_addr_refl x.addr) refl

pub same_fragment_refl : (x : FragKey) → same_fragment x x ≡ true
unfolding same_fragment
same_fragment_refl x =
    rw (same_addr_refl x.src, same_addr_refl x.dst, equal x.proto, equal x.id, same_fragment) refl
