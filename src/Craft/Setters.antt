-- ===== src/Craft/Setters.antt =====
-- The methods of the builders of src/packet/layer/eth/craft.rs, udp/craft.rs, tcp/craft.rs,
-- ip/v4/craft.rs, raw/craft.rs and icmp/echo/craft.rs, which set their fields, and the builders that
-- they start from.
use maja.Base.{ℕ, none, some, List, [], ◌++◌}
use maja.Protocol.{EthType}
use maja.Craft.Raw.{RawBuilder, EthBuilder}
use maja.Craft.Udp.{UdpBuilder}
use maja.Craft.Ipv4.{Ipv4Builder}
use maja.Craft.Tcp.{TcpBuilder}
use maja.Craft.Echo.{IcmpEchoBuilder, IcmpType, echo_request, echo_reply}

abbrev pub new_eth : EthBuilder
new_eth = record { src = none; dst = none; eth_type = none }

abbrev pub eth_src : List ℕ → EthBuilder → EthBuilder
eth_src value b = record b { src = some value }

abbrev pub eth_dst : List ℕ → EthBuilder → EthBuilder
eth_dst value b = record b { dst = some value }

abbrev pub eth_eth_type : EthType → EthBuilder → EthBuilder
eth_eth_type value b = record b { eth_type = some value }

abbrev pub new_udp : UdpBuilder
new_udp = record { src_port = none; dst_port = none; udp_length = none; checksum = none }

abbrev pub udp_src_port : ℕ → UdpBuilder → UdpBuilder
udp_src_port value b = record b { src_port = some value }

abbrev pub udp_dst_port : ℕ → UdpBuilder → UdpBuilder
udp_dst_port value b = record b { dst_port = some value }

abbrev pub udp_length : ℕ → UdpBuilder → UdpBuilder
udp_length value b = record b { udp_length = some value }

abbrev pub udp_set_checksum : ℕ → UdpBuilder → UdpBuilder
udp_set_checksum value b = record b { checksum = some value }

abbrev pub new_tcp : TcpBuilder
new_tcp = record {
  src_port = none;
  dst_port = none;
  seq_num = none;
  ack_num = none;
  data_offset = none;
  flags = none;
  window_size = none;
  checksum = none;
  urgent_pointer = none;
  options = [];
}

abbrev pub tcp_src_port : ℕ → TcpBuilder → TcpBuilder
tcp_src_port value b = record b { src_port = some value }

abbrev pub tcp_dst_port : ℕ → TcpBuilder → TcpBuilder
tcp_dst_port value b = record b { dst_port = some value }

abbrev pub tcp_seq_num : ℕ → TcpBuilder → TcpBuilder
tcp_seq_num value b = record b { seq_num = some value }

abbrev pub tcp_ack_num : ℕ → TcpBuilder → TcpBuilder
tcp_ack_num value b = record b { ack_num = some value }

abbrev pub tcp_data_offset : ℕ → TcpBuilder → TcpBuilder
tcp_data_offset value b = record b { data_offset = some value }

abbrev pub tcp_flags : ℕ → TcpBuilder → TcpBuilder
tcp_flags value b = record b { flags = some value }

abbrev pub tcp_window_size : ℕ → TcpBuilder → TcpBuilder
tcp_window_size value b = record b { window_size = some value }

abbrev pub tcp_set_checksum : ℕ → TcpBuilder → TcpBuilder
tcp_set_checksum value b = record b { checksum = some value }

abbrev pub tcp_urgent_pointer : ℕ → TcpBuilder → TcpBuilder
tcp_urgent_pointer value b = record b { urgent_pointer = some value }

-- Options are appended.
abbrev pub tcp_options : List ℕ → TcpBuilder → TcpBuilder
tcp_options bytes b = record b { options = b.options ++ bytes }

abbrev pub new_ipv4 : Ipv4Builder
new_ipv4 = record {
  ihl = none;
  dscp = none;
  ecn = none;
  total_length = none;
  identification = none;
  flags = none;
  fragment_offset = none;
  ttl = none;
  protocol = none;
  checksum = none;
  src = none;
  dst = none;
  options = [];
}

abbrev pub ipv4_ihl : ℕ → Ipv4Builder → Ipv4Builder
ipv4_ihl value b = record b { ihl = some value }

abbrev pub ipv4_dscp : ℕ → Ipv4Builder → Ipv4Builder
ipv4_dscp value b = record b { dscp = some value }

abbrev pub ipv4_ecn : ℕ → Ipv4Builder → Ipv4Builder
ipv4_ecn value b = record b { ecn = some value }

abbrev pub ipv4_total_length : ℕ → Ipv4Builder → Ipv4Builder
ipv4_total_length value b = record b { total_length = some value }

abbrev pub ipv4_identification : ℕ → Ipv4Builder → Ipv4Builder
ipv4_identification value b = record b { identification = some value }

abbrev pub ipv4_flags : ℕ → Ipv4Builder → Ipv4Builder
ipv4_flags value b = record b { flags = some value }

abbrev pub ipv4_fragment_offset : ℕ → Ipv4Builder → Ipv4Builder
ipv4_fragment_offset value b = record b { fragment_offset = some value }

abbrev pub ipv4_ttl : ℕ → Ipv4Builder → Ipv4Builder
ipv4_ttl value b = record b { ttl = some value }

abbrev pub ipv4_protocol : ℕ → Ipv4Builder → Ipv4Builder
ipv4_protocol value b = record b { protocol = some value }

abbrev pub ipv4_set_checksum : ℕ → Ipv4Builder → Ipv4Builder
ipv4_set_checksum value b = record b { checksum = some value }

abbrev pub ipv4_src : List ℕ → Ipv4Builder → Ipv4Builder
ipv4_src value b = record b { src = some value }

abbrev pub ipv4_dst : List ℕ → Ipv4Builder → Ipv4Builder
ipv4_dst value b = record b { dst = some value }

-- Options are appended.
abbrev pub ipv4_options : List ℕ → Ipv4Builder → Ipv4Builder
ipv4_options bytes b = record b { options = b.options ++ bytes }

abbrev pub new_echo : IcmpEchoBuilder
new_echo = record {
  message_type = echo_request;
  code = none;
  checksum = none;
  identifier = none;
  sequence = none;
}

abbrev pub echo_code : ℕ → IcmpEchoBuilder → IcmpEchoBuilder
echo_code value b = record b { code = some value }

abbrev pub echo_set_checksum : ℕ → IcmpEchoBuilder → IcmpEchoBuilder
echo_set_checksum value b = record b { checksum = some value }

abbrev pub echo_identifier : ℕ → IcmpEchoBuilder → IcmpEchoBuilder
echo_identifier value b = record b { identifier = some value }

abbrev pub echo_sequence : ℕ → IcmpEchoBuilder → IcmpEchoBuilder
echo_sequence value b = record b { sequence = some value }

abbrev pub echo_message_type : IcmpType → IcmpEchoBuilder → IcmpEchoBuilder
echo_message_type message_type b = record b { message_type = message_type }

abbrev pub request : IcmpEchoBuilder → IcmpEchoBuilder
request b = echo_message_type echo_request b

abbrev pub reply : IcmpEchoBuilder → IcmpEchoBuilder
reply b = echo_message_type echo_reply b

abbrev pub new_raw : RawBuilder
new_raw = record { bytes = [] }

abbrev pub from_vec : List ℕ → RawBuilder
from_vec bytes = record { bytes = bytes }

-- `copy_from` appends.
abbrev pub copy_from : List ℕ → RawBuilder → RawBuilder
copy_from bytes b = record b { bytes = b.bytes ++ bytes }
