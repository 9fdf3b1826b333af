-- ===== src/Protocol.antt =====
-- The protocol markers of src/packet/layer, the registries EthType (layer/eth/eth_type.rs) and
-- IpProtocol (layer/ip/protocol.rs), and LinkType (src/capture/link_type.rs).
pub mod IpProtocol
use maja.Base.{ℕ, ◌+◌, ◌≡◌, Bool, ◌==◌, if◌then◌else◌, arith}

-- The zero-sized marker types. `custom n` is a marker that a caller of the crate defines.
pub data Protocol : Type 0 where
  arp dhcp dns eth gre icmp icmpv6 igmp ah esp ipv4 ipv6 : Protocol
  ipv6_hopopt ipv6_dest_opts ipv6_route ipv6_frag ipv6_mobility ipv6_hip ipv6_shim6 : Protocol
  llc mpls ntp raw sctp sll tcp tls udp vlan vxlan : Protocol
  custom : ℕ → Protocol

-- `Protocol::id`: one `TypeId` for each marker type.
abbrev pub id : Protocol → ℕ
id arp = 0
id dhcp = 1
id dns = 2
id eth = 3
id gre = 4
id icmp = 5
id icmpv6 = 6
id igmp = 7
id ah = 8
id esp = 9
id ipv4 = 10
id ipv6 = 11
id ipv6_hopopt = 12
id ipv6_dest_opts = 13
id ipv6_route = 14
id ipv6_frag = 15
id ipv6_mobility = 16
id ipv6_hip = 17
id ipv6_shim6 = 18
id llc = 19
id mpls = 20
id ntp = 21
id raw = 22
id sctp = 23
id sll = 24
id tcp = 25
id tls = 26
id udp = 27
id vlan = 28
id vxlan = 29
id (custom n) = n + 30

-- `Layer::is` and the comparison of two markers.
abbrev pub is : Protocol → Protocol → Bool
is p q = id p == id q

-- `reserverd` is the catch-all variant, spelled as in the source.
pub data EthType : Type 0 where
  ipv4 arp frame_relay_arp vlan novell8137 novell8138 ipv6 mpls_unicast mpls_multicast : EthType
  reserverd : ℕ → EthType

-- `num_enum::FromPrimitive`.
abbrev pub eth_type_from : ℕ → EthType
eth_type_from n =
    if n == 0x0800
    then EthType.ipv4
    else if n == 0x0806
    then EthType.arp
    else if n == 0x0808
    then frame_relay_arp
    else if n == 0x8100
    then EthType.vlan
    else if n == 0x8137
    then novell8137
    else if n == 0x8138
    then novell8138
    else if n == 0x86dd
    then EthType.ipv6
    else if n == 0x8847
    then mpls_unicast
    else if n == 0x8848
    then mpls_multicast
    else reserverd n

-- `num_enum::IntoPrimitive`, and the conversion into `u64` over it.
abbrev pub eth_type_into : EthType → ℕ
eth_type_into EthType.ipv4 = 0x0800
eth_type_into EthType.arp = 0x0806
eth_type_into frame_relay_arp = 0x0808
eth_type_into EthType.vlan = 0x8100
eth_type_into novell8137 = 0x8137
eth_type_into novell8138 = 0x8138
eth_type_into EthType.ipv6 = 0x86dd
eth_type_into mpls_unicast = 0x8847
eth_type_into mpls_multicast = 0x8848
eth_type_into (reserverd n) = n

-- Whatever number a frame carries, the registry keeps it.
pub eth_type_into-from : (n : ℕ) → eth_type_into (eth_type_from n) ≡ n
eth_type_into-from n = ground arith

-- The link types that the top-level dispatcher tells apart; `other n` stands for any other number.
pub data LinkType : Type 0 where
  ethernet raw linux_sll ipv4 ipv6 : LinkType
  other : ℕ → LinkType
