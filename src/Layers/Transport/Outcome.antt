-- ===== src/Layers/Transport/Outcome.antt =====
-- What the parsers of the transport layers, the tunnels and the applications do to the context.
use maja.Base.{
  ℕ, ◌+◌, ◌-◌, ◌*◌, ◌≤◌, ◌≡◌, min, Bool-cases, inl, inr, arith, ltb, ◌==◌, length, drop,
  length-take, length-drop,
}
use maja.Field.{whole}
use maja.Protocol.{Protocol, eth_type_from, eth_type_into}
use maja.Context.{ParseContext, ParseFn, end, rest}
use maja.Context.Outcome.{Outcome-same}
use maja.Context.Require.{end-le, Outcome-require}
use maja.Context.Rules.{Serves, Outcome-last}
use maja.Layers.{field}
use maja.Layers.Rules.{
  Next, Parses, Next-raw, Next-if, Next-child, Next-payload, Next-registered, Parses-header,
}
use maja.Layers.Transport.{
  gre, gre_child, gre_header_len, tcp, registered_port, tcp_payload, tcp_child, udp, udp_child,
  vxlan, tls, whole_rest, igmp,
}

module _ (parse : Protocol → ParseFn) (fuel : ℕ) (serves : Serves parse fuel) where
  Next-port :
      (p : Protocol) (src_port dst_port next : ℕ)
      → Next fuel next (registered_port parse p src_port dst_port next)
  Next-port p src_port dst_port next = Next-registered parse fuel serves p dst_port next _ (
      Next-if fuel next (src_port == dst_port) _ _ (Next-raw fuel next)
        (Next-registered parse fuel serves p src_port next _ (Next-raw fuel next)))

  pub gre-Parses : Parses fuel (gre parse)
  unfolding gre
  gre-Parses offset c h inside enough =
      Outcome-require Protocol.gre offset 4 c _ h (λ min_header room.
        Parses-header fuel Protocol.gre (gre_header_len min_header) _ (omega arith)
          (λ at header.
            let t = eth_type_from (field (whole 2) 2 header) in
            let next = at + gre_header_len min_header in
            Next-payload parse fuel serves (gre_child t) next _ (
              Next-registered parse fuel serves Protocol.gre (eth_type_into t) next _
                (Next-raw fuel next)))
          offset c h inside enough)

  pub udp-Parses : Parses fuel (udp parse)
  unfolding udp
  udp-Parses = Parses-header fuel Protocol.udp 8 _ (omega arith) (λ offset header.
      let src_port = field (whole 2) 0 header in
      let dst_port = field (whole 2) 2 header in
      Next-payload parse fuel serves (udp_child src_port dst_port) (offset + 8) _
        (Next-port Protocol.udp src_port dst_port (offset + 8)))

  pub vxlan-Parses : Parses fuel (vxlan parse)
  unfolding vxlan
  vxlan-Parses =
      Parses-header fuel Protocol.vxlan 8 _ (omega arith)
        (λ offset header. Next-child parse fuel serves Protocol.eth (offset + 8))

  Next-tcp :
      (src_port dst_port next : ℕ) → Next fuel next (tcp_payload parse src_port dst_port next)
  Next-tcp src_port dst_port next c =
      Next-payload parse fuel serves (tcp_child src_port dst_port (rest c next)) next _
        (Next-port Protocol.tcp src_port dst_port next) c

  pub tcp-Parses : Parses fuel (tcp parse)
  unfolding tcp
  tcp-Parses offset c h inside enough =
      Outcome-require Protocol.tcp offset 20 c _ h (λ min_header room.
        let header_len = field (record { size = 1; mask = 0xF0; shift = 4 }) 12 min_header * 4 in
        elim (Bool-cases (ltb header_len 20)) [
          | inl short ↦ rw short (Outcome-same offset c _ h (λ e. cc))
          | inr long ↦ rw long (
              Parses-header fuel Protocol.tcp header_len _ (ground arith)
                (λ at header.
                  let src_port = field (whole 2) 0 header in
                  let dst_port = field (whole 2) 2 header in
                  Next-tcp src_port dst_port (at + header_len))
                offset c h inside enough)
        ])

pub tls-Parses : (fuel : ℕ) → Parses fuel tls
unfolding tls
tls-Parses fuel offset c h inside enough =
    Outcome-require Protocol.tls offset 5 c _ h (λ header room.
      Outcome-require Protocol.tls offset _ c _ h
        (λ all room'. Outcome-last Protocol.tls offset _ c h (omega arith) room'))

pub igmp-Parses : (fuel : ℕ) → Parses fuel igmp
unfolding igmp
igmp-Parses fuel offset c h inside enough =
    Outcome-require Protocol.igmp offset 8 c _ h
      (λ header room. Outcome-last Protocol.igmp offset 8 c h (omega arith) room)

pub length-rest :
    (c : ParseContext) (offset : ℕ) → offset ≤ end c → length (rest c offset) ≡ end c - offset
length-rest c offset inside = omega (
  arith,
  length-take (end c - min offset (end c)) (drop (min offset (end c)) c.bytes),
  length-drop (min offset (end c)) c.bytes,
  end-le c,
)

pub whole_rest-Parses :
    (fuel : ℕ) (p : Protocol) (min_len : ℕ) → 1 ≤ min_len → Parses fuel (whole_rest p min_len)
unfolding whole_rest
whole_rest-Parses fuel p min_len pos offset c h inside enough =
    Outcome-require p offset min_len c _ h (λ header room.
      Outcome-last p offset _ c h (omega (arith, length-rest c offset inside))
        (omega (arith, length-rest c offset inside)))
