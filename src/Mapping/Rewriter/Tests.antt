-- ===== src/Mapping/Rewriter/Tests.antt =====
-- A TCP packet through the rewriter of tools/maja-mergecap/src/map.rs.
use maja.Base.{replicate, ◌++◌, ℕ, ◌≡◌, refl, true, false, none, some, List, [], ◌∷◌, arith}
use maja.Protocol.{Protocol}
use maja.Context.{Layer, slice}
use maja.Layers.{field}
use maja.Packet.{Packet}
use maja.Validate.{ipv4_validate_checksum, store, ipv4_calculate_checksum}
use maja.Mapping.{ipv4}
use maja.Mapping.Tests.{TestNet, lan, office, test_nets, counting}
use maja.Mapping.Session.{PacketInfo, Targets, by_address}
use maja.Mapping.Pool.{from_nets, host_count, host_at, sort_nets, dedup, usable, offset_of, net_of}
use maja.Mapping.Entry.{fixed, classify}
use maja.Mapping.Flow.{FlowState}
use maja.Mapping.Envelope.{
  bytes_in, chain_viewer, outer_ip_family, outer_layer, outer_transport, outer_viewer, read_info,
}
use maja.Mapping.Segment.{apply_targets, segment_bounds, transport_segment}
use maja.Mapping.Segment.ReadBack.{read_info-apply_targets}
use maja.Mapping.Fix.{fix_checksums, info_fragment, pseudo_header_dst}
use maja.Mapping.Fix.Writes.{Ipv4Packet, Roomy, AllFit-Roomy}
use maja.Mapping.Fix.Ipv6.{segment_valid_v6, fix_checksums-ipv6}
use maja.Mapping.Fix.Header.{fix_checksums-header}
use maja.Mapping.Fix.Received.{Complete, Received}
use maja.Mapping.Direct.{DirectMaps, direct_rewrite}
use maja.Mapping.Direct.Applies.{direct_targets, direct_rewrite-apply}
use maja.Mapping.Rewriter.{Rewriter, rewrite_packet}
use maja.Mapping.Rewriter.Valid.{rewrite_packet-valid}
use maja.Mapping.Rewriter.Unchanged.{rewrite_packet-unchanged}

abbrev ip_layer : Layer
ip_layer = record { protocol = Protocol.ipv4; offset = 14; len = 20 }

-- A segment from 192.168.1.10 to 203.0.113.80.
abbrev tcp_packet : Packet
tcp_packet = record {
  bytes =
      2 ∷ 0 ∷ 0 ∷ 0 ∷ 0 ∷ 2 ∷ 2 ∷ 0 ∷ 0 ∷ 0 ∷ 0 ∷ 1 ∷ 8 ∷ 0 ∷ 0x45 ∷ 0 ∷ 0 ∷ 42 ∷ 0x12 ∷ 0x34 ∷ 0x40
      ∷ 0 ∷ 64 ∷ 6 ∷ 0 ∷ 0 ∷ 192 ∷ 168 ∷ 1 ∷ 10 ∷ 203 ∷ 0 ∷ 113 ∷ 80 ∷ 0x9c ∷ 0x40 ∷ 0 ∷ 80 ∷ 0 ∷ 0
      ∷ 0 ∷ 1 ∷ 0 ∷ 0 ∷ 0 ∷ 0 ∷ 0x50 ∷ 0x18 ∷ 1 ∷ 0 ∷ 0 ∷ 0 ∷ 0 ∷ 0 ∷ b'h' ∷ b'i' ∷ [];
  layers =
      record { protocol = Protocol.eth; offset = 0; len = 14 }
      ∷ ip_layer
      ∷ record { protocol = Protocol.tcp; offset = 34; len = 20 }
      ∷ record { protocol = Protocol.raw; offset = 54; len = 2 }
      ∷ [];
}

abbrev tcp_header : List ℕ
tcp_header = bytes_in tcp_packet.bytes ip_layer

tcp_packet-Roomy : Roomy tcp_packet
tcp_packet-Roomy = AllFit-Roomy tcp_packet (
  (omega arith, omega arith),
  ((omega arith, omega arith), ((omega arith, omega arith), ((omega arith, omega arith), tt))),
)

tcp_packet-Ipv4Packet : Ipv4Packet tcp_packet ip_layer
unfolding outer_ip_family outer_layer field
tcp_packet-Ipv4Packet = record { family = refl; here = refl; exact = refl }

-- Clients of the office become 10.0.0.9.
abbrev fixed_flow : FlowState TestNet ℕ
fixed_flow = record {
  cfg = record {
    key = by_address;
    entries = record { from = some office; action = fixed (ipv4 0x0a000009) } ∷ [];
    exclude = [];
    protocols = record { any = true; set = λ _. false };
    fragments = true;
  };
  hash_seed = 3;
  groups = record { rng = 4; fragments = [] } ∷ [];
  allocation = none;
  warned_unmatched = false;
}

abbrev flow_rewriter : Rewriter TestNet ℕ
flow_rewriter = record { direct = none; flow = some fixed_flow; fix_checksum = true }

abbrev to_client : Targets
to_client = record { src = some (ipv4 0x0a000009); dst = none }

-- The server is in no rule.
abbrev flow_rewriter_after : Rewriter TestNet ℕ
flow_rewriter_after = record flow_rewriter {
  flow = some (record fixed_flow { warned_unmatched = true });
}

rewrites :
    rewrite_packet test_nets counting flow_rewriter 0 tcp_packet
    ≡ some ((true, fix_checksums (apply_targets to_client tcp_packet)), flow_rewriter_after)
unfolding rewrite_packet field classify
rewrites = refl

abbrev tcp_segment : List ℕ
tcp_segment = slice tcp_packet.bytes 34 56

carries : transport_segment tcp_packet ≡ some tcp_segment
unfolding transport_segment field
carries = refl

speaks : outer_transport tcp_packet ≡ some 6
unfolding outer_transport field
speaks = refl

is_whole : info_fragment (read_info tcp_packet) ≡ false
unfolding read_info field
is_whole = refl

tcp_packet-Complete : Complete 6 (transport_segment tcp_packet)
tcp_packet-Complete = rw carries (omega arith)

rewrite_packet-valid_example :
    (header : List ℕ) × (outer_viewer
        (fix_checksums (apply_targets to_client tcp_packet))
        Protocol.ipv4
      ≡ some header)
    × (ipv4_validate_checksum header ≡ true)
    × Received 6 34
        (slice header 12 16)
        (slice header 16 20)
        tcp_packet
        (fix_checksums (apply_targets to_client tcp_packet))
        (transport_segment tcp_packet)
rewrite_packet-valid_example =
    rewrite_packet-valid test_nets counting tcp_packet ip_layer tcp_packet-Ipv4Packet
      tcp_packet-Roomy flow_rewriter flow_rewriter_after 0
      (fix_checksums (apply_targets to_client tcp_packet)) 6 refl rewrites is_whole speaks
      tcp_packet-Complete

fix_checksums-header_example :
    (outer_viewer (fix_checksums tcp_packet) Protocol.ipv4
      ≡ some (store 10 (ipv4_calculate_checksum tcp_header) tcp_header))
    × (ipv4_validate_checksum (store 10 (ipv4_calculate_checksum tcp_header) tcp_header) ≡ true)
fix_checksums-header_example =
    fix_checksums-header tcp_packet ip_layer tcp_packet-Ipv4Packet tcp_packet-Roomy

abbrev tcp_info : PacketInfo
tcp_info = record {
  src = ipv4 0xc0a8010a;
  dst = ipv4 0xcb007150;
  proto = 6;
  src_port = 40000;
  dst_port = 80;
  has_ports = true;
  fragment = none;
}

reads : read_info tcp_packet ≡ some tcp_info
unfolding read_info field
reads = refl

read_info-apply_targets_example :
    (after : PacketInfo) × (read_info (apply_targets to_client tcp_packet) ≡ some after)
    × (after.src ≡ ipv4 0x0a000009)
    × (after.dst ≡ ipv4 0xcb007150)
    × (after.proto ≡ 6)
read_info-apply_targets_example =
    read_info-apply_targets tcp_packet ip_layer tcp_packet-Ipv4Packet tcp_packet-Roomy to_client
      tcp_info (omega arith) tt reads

-- Another network's clients are rewritten, and no packet of these.
abbrev other_flow : FlowState TestNet ℕ
other_flow = record fixed_flow {
  cfg = record {
    key = by_address;
    entries = record { from = some lan; action = fixed (ipv4 0x0a000009) } ∷ [];
    exclude = [];
    protocols = record { any = true; set = λ _. false };
    fragments = true;
  };
}

abbrev other_rewriter : Rewriter TestNet ℕ
other_rewriter = record { direct = none; flow = some other_flow; fix_checksum = true }

abbrev other_rewriter_after : Rewriter TestNet ℕ
other_rewriter_after = record other_rewriter {
  flow = some (record other_flow { warned_unmatched = true });
}

leaves :
    rewrite_packet test_nets counting other_rewriter 0 tcp_packet
    ≡ some ((false, tcp_packet), other_rewriter_after)
unfolding rewrite_packet field classify
leaves = refl

rewrite_packet-unchanged_example : tcp_packet ≡ tcp_packet
rewrite_packet-unchanged_example =
    rewrite_packet-unchanged test_nets counting other_rewriter other_rewriter_after 0 tcp_packet
      tcp_packet leaves

-- A rule for the office, and a pool for all others.
abbrev direct_maps : DirectMaps TestNet ℕ
direct_maps = record {
  src_map = record {
    rules = record { from = some office; action = fixed (ipv4 0x0a000009) } ∷ [];
    merged_v4 = from_nets test_nets [];
    merged_v6 = from_nets test_nets [];
  };
  dst_map = record {
    rules = [];
    merged_v4 = from_nets test_nets (lan ∷ []);
    merged_v6 = from_nets test_nets [];
  };
  rng = 5;
}

abbrev to_both : Targets
to_both = record { src = some (ipv4 0x0a000009); dst = some (ipv4 0x0a000006) }

draws_both :
    direct_targets test_nets counting direct_maps (ipv4 0xc0a8010a) (ipv4 0xcb007150) ≡ (to_both, 6)
unfolding direct_targets classify host_count host_at sort_nets dedup usable offset_of net_of
    from_nets
draws_both = refl

direct_rewrite-apply_example :
    direct_rewrite test_nets counting direct_maps tcp_packet
    ≡ ((true, apply_targets to_both tcp_packet), record direct_maps { rng = 6 })
unfolding field
direct_rewrite-apply_example =
    direct_rewrite-apply test_nets counting direct_maps tcp_packet ip_layer tcp_packet-Ipv4Packet
      tcp_packet-Roomy to_both 6 draws_both

-- A datagram over IPv6 that is still to visit an address of its source route.
abbrev routed_packet : Packet
routed_packet = record {
  bytes =
      replicate 12 2
      ++ (0x86 ∷ 0xdd ∷ [])
      ++ (0x60 ∷ 0 ∷ 0 ∷ 0 ∷ 0 ∷ 34 ∷ 43 ∷ 64 ∷ replicate 16 0x20 ++ replicate 16 0x30)
      ++ (17 ∷ 2 ∷ 0 ∷ 1 ∷ 0 ∷ 0 ∷ 0 ∷ 0 ∷ replicate 16 0x40)
      ++ (0x30 ∷ 0x39 ∷ 0 ∷ 0x35 ∷ 0 ∷ 0x0a ∷ 0 ∷ 0 ∷ b'h' ∷ b'i' ∷ []);
  layers =
      record { protocol = Protocol.eth; offset = 0; len = 14 }
      ∷ record { protocol = Protocol.ipv6; offset = 14; len = 40 }
      ∷ record { protocol = Protocol.ipv6_route; offset = 54; len = 24 }
      ∷ record { protocol = Protocol.udp; offset = 78; len = 8 }
      ∷ record { protocol = Protocol.raw; offset = 86; len = 2 }
      ∷ [];
}

routed_destination :
    pseudo_header_dst routed_packet (slice (slice routed_packet.bytes 14 54) 24 40)
    ≡ some (replicate 16 0x40)
unfolding pseudo_header_dst field
routed_destination = refl

fix_checksums-ipv6_example :
    segment_valid_v6 17
      (slice (slice routed_packet.bytes 14 54) 8 24)
      (replicate 16 0x40)
      (slice ((fix_checksums routed_packet).bytes) 78 88)
    ≡ true
unfolding outer_ip_family outer_layer segment_bounds field chain_viewer outer_transport
fix_checksums-ipv6_example =
    fix_checksums-ipv6 routed_packet refl 78 88 refl (omega arith) (omega arith)
      {l = record { protocol = Protocol.ipv6; offset = 14; len = 40 }} refl refl routed_destination
      refl (omega arith)
