-- ===== src/Parse/Total.antt =====
-- The parsers come to an end on every input, and do to the context what a parser may do.
use maja.Base.{ℕ, zero, suc, arith}
use maja.Protocol.{Protocol}
use maja.Context.{ParseFn}
use maja.Context.Outcome.{Outcome-raw}
use maja.Context.Rules.{Serves}
use maja.Layers.Rules.{Parses}
use maja.Layers.Link.Outcome.{
  arp-Parses, eth-Parses, vlan-Parses, sll-Parses, llc-Parses, mpls-Parses,
}
use maja.Layers.Ip.Outcome.{
  ah-Parses, esp-Parses, ipv4-Parses, ipv6-Parses, ipv6_frag-Parses, parse_ext_header-Parses,
}
use maja.Layers.Transport.Outcome.{
  gre-Parses, tcp-Parses, udp-Parses, vxlan-Parses, tls-Parses, igmp-Parses, whole_rest-Parses,
}
use maja.Parse.{Custom, step, parse}

-- What is expected of the parsers of a caller: over parsers that keep to the rules they keep to them,
-- and each takes at least one byte before it calls another.
abbrev pub WellBehaved : Custom → Type 0
WellBehaved custom =
    (parse : Protocol → ParseFn) (fuel : ℕ)
    → Serves parse fuel
    → (n : ℕ) → Parses fuel (custom parse n)

module _ (custom : Custom) (good : WellBehaved custom) where
  step-Parses :
      (parse : Protocol → ParseFn) (fuel : ℕ)
      → Serves parse fuel
      → (p : Protocol) → Parses fuel (step custom parse p)
  unfolding step
  step-Parses parse f s Protocol.arp = arp-Parses f
  step-Parses parse f s Protocol.dhcp = whole_rest-Parses f Protocol.dhcp 240 (omega arith)
  step-Parses parse f s Protocol.dns = whole_rest-Parses f Protocol.dns 12 (omega arith)
  step-Parses parse f s Protocol.eth = eth-Parses parse f s
  step-Parses parse f s Protocol.gre = gre-Parses parse f s
  step-Parses parse f s Protocol.icmp = whole_rest-Parses f Protocol.icmp 4 (omega arith)
  step-Parses parse f s Protocol.icmpv6 = whole_rest-Parses f Protocol.icmpv6 4 (omega arith)
  step-Parses parse f s Protocol.igmp = igmp-Parses f
  step-Parses parse f s Protocol.ah = ah-Parses parse f s
  step-Parses parse f s Protocol.esp = esp-Parses f
  step-Parses parse f s Protocol.ipv4 = ipv4-Parses parse f s
  step-Parses parse f s Protocol.ipv6 = ipv6-Parses parse f s
  step-Parses parse f s Protocol.ipv6_hopopt =
      parse_ext_header-Parses parse f s Protocol.ipv6_hopopt 2 (omega arith)
  step-Parses parse f s Protocol.ipv6_dest_opts =
      parse_ext_header-Parses parse f s Protocol.ipv6_dest_opts 2 (omega arith)
  step-Parses parse f s Protocol.ipv6_route =
      parse_ext_header-Parses parse f s Protocol.ipv6_route 4 (omega arith)
  step-Parses parse f s Protocol.ipv6_frag = ipv6_frag-Parses parse f s
  step-Parses parse f s Protocol.ipv6_mobility =
      parse_ext_header-Parses parse f s Protocol.ipv6_mobility 6 (omega arith)
  step-Parses parse f s Protocol.ipv6_hip =
      parse_ext_header-Parses parse f s Protocol.ipv6_hip 40 (omega arith)
  step-Parses parse f s Protocol.ipv6_shim6 =
      parse_ext_header-Parses parse f s Protocol.ipv6_shim6 6 (omega arith)
  step-Parses parse f s Protocol.llc = llc-Parses parse f s
  step-Parses parse f s Protocol.mpls = mpls-Parses parse f s
  step-Parses parse f s Protocol.ntp = whole_rest-Parses f Protocol.ntp 48 (omega arith)
  step-Parses parse f s Protocol.raw =
      λ offset c h inside enough. Outcome-raw offset offset c (omega arith) h
  step-Parses parse f s Protocol.sctp = whole_rest-Parses f Protocol.sctp 12 (omega arith)
  step-Parses parse f s Protocol.sll = sll-Parses parse f s
  step-Parses parse f s Protocol.tcp = tcp-Parses parse f s
  step-Parses parse f s Protocol.tls = tls-Parses f
  step-Parses parse f s Protocol.udp = udp-Parses parse f s
  step-Parses parse f s Protocol.vlan = vlan-Parses parse f s
  step-Parses parse f s Protocol.vxlan = vxlan-Parses parse f s
  step-Parses parse f s (Protocol.custom n) = good parse f s n

  -- Fuel for each byte of the region is enough.
  pub parse-Serves : (fuel : ℕ) → Serves (parse custom fuel) fuel
  unfolding parse
  parse-Serves zero p offset c h inside enough = absurd (omega arith)
  parse-Serves (suc fuel) p offset c h inside enough =
      step-Parses (parse custom fuel) fuel (parse-Serves fuel) p offset c h inside enough
