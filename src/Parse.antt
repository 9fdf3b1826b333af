-- ===== src/Parse.antt =====
-- `ProtocolExt::parse` of every marker: the parsers of maja.Layers, tied into one another.
pub mod Total
pub mod Child
use maja.Base.{ℕ, zero, suc}
use maja.Protocol.{Protocol}
use maja.Context.{stuck, ParseFn, fail, parse_raw}
use maja.Layers.Link
use maja.Layers.Ip
use maja.Layers.Transport

-- The parsers of the markers that a caller of the crate defines. They may call the other parsers.
abbrev pub Custom : Type 0
Custom = (Protocol → ParseFn) → ℕ → ParseFn

module _ (custom : Custom) where
  -- One parser over the parsers that it calls.
  unfoldable pub step : (Protocol → ParseFn) → Protocol → ParseFn
  step parse Protocol.arp = Link.arp
  step parse Protocol.dhcp = Transport.whole_rest Protocol.dhcp 240
  step parse Protocol.dns = Transport.whole_rest Protocol.dns 12
  step parse Protocol.eth = Link.eth parse
  step parse Protocol.gre = Transport.gre parse
  step parse Protocol.icmp = Transport.whole_rest Protocol.icmp 4
  step parse Protocol.icmpv6 = Transport.whole_rest Protocol.icmpv6 4
  step parse Protocol.igmp = Transport.igmp
  step parse Protocol.ah = Ip.ah parse
  step parse Protocol.esp = Ip.esp
  step parse Protocol.ipv4 = Ip.ipv4 parse
  step parse Protocol.ipv6 = Ip.ipv6 parse
  step parse Protocol.ipv6_hopopt = Ip.parse_ext_header parse Protocol.ipv6_hopopt 2
  step parse Protocol.ipv6_dest_opts = Ip.parse_ext_header parse Protocol.ipv6_dest_opts 2
  step parse Protocol.ipv6_route = Ip.parse_ext_header parse Protocol.ipv6_route 4
  step parse Protocol.ipv6_frag = Ip.ipv6_frag parse
  step parse Protocol.ipv6_mobility = Ip.parse_ext_header parse Protocol.ipv6_mobility 6
  step parse Protocol.ipv6_hip = Ip.parse_ext_header parse Protocol.ipv6_hip 40
  step parse Protocol.ipv6_shim6 = Ip.parse_ext_header parse Protocol.ipv6_shim6 6
  step parse Protocol.llc = Link.llc parse
  step parse Protocol.mpls = Link.mpls parse
  step parse Protocol.ntp = Transport.whole_rest Protocol.ntp 48
  step parse Protocol.raw = parse_raw
  step parse Protocol.sctp = Transport.whole_rest Protocol.sctp 12
  step parse Protocol.sll = Link.sll parse
  step parse Protocol.tcp = Transport.tcp parse
  step parse Protocol.tls = Transport.tls
  step parse Protocol.udp = Transport.udp parse
  step parse Protocol.vlan = Link.vlan parse
  step parse Protocol.vxlan = Transport.vxlan parse
  step parse (Protocol.custom n) = custom parse n

  -- The parsers call one another; the fuel bounds how deep.
  unfoldable pub parse : ℕ → Protocol → ParseFn
  unfolding step
  parse zero p offset = fail stuck
  parse (suc fuel) p offset = step (parse fuel) p offset
