-- ===== src/Protocol/IpProtocol.antt =====
-- `IpProtocol` of src/packet/layer/ip/protocol.rs. The enumeration has a variant for each number
-- below 256, the last one a catch-all, so that a value is its number.
use maja.Base.{ℕ}

abbrev pub hopopt : ℕ
hopopt = 0

abbrev pub icmp : ℕ
icmp = 1

abbrev pub igmp : ℕ
igmp = 2

abbrev pub ipv4 : ℕ
ipv4 = 4

abbrev pub tcp : ℕ
tcp = 6

abbrev pub udp : ℕ
udp = 17

abbrev pub ipv6 : ℕ
ipv6 = 41

abbrev pub ipv6_route : ℕ
ipv6_route = 43

abbrev pub ipv6_frag : ℕ
ipv6_frag = 44

abbrev pub gre : ℕ
gre = 47

abbrev pub esp : ℕ
esp = 50

abbrev pub ah : ℕ
ah = 51

abbrev pub ipv6_icmp : ℕ
ipv6_icmp = 58

abbrev pub ipv6_no_nxt : ℕ
ipv6_no_nxt = 59

abbrev pub ipv6_opts : ℕ
ipv6_opts = 60

abbrev pub sctp : ℕ
sctp = 132

abbrev pub mobility_header : ℕ
mobility_header = 135

abbrev pub hip : ℕ
hip = 139

abbrev pub shim6 : ℕ
shim6 = 140
