-- ===== src/Mapping/Rewriter/Valid.antt =====
-- IPv4 packets through `Rewriter::rewrite` of tools/maja-mergecap/src/map.rs.
use maja.Base.{
  ℕ, ◌+◌, ◌-◌, ◌≡◌, ◌==◌, refl, sym, ap, ◌∙◌, true, false, Option, none, some, List, arith, length,
}
use maja.Field.{whole}
use maja.Protocol.{Protocol}
use maja.Context.{Layer, slice}
use maja.Packet.{Packet}
use maja.Validate.{stored, ipv4_validate_checksum}
use maja.Mapping.{Random, Nets}
use maja.Mapping.Envelope.{outer_viewer, outer_transport, read_info}
use maja.Mapping.Segment.{transport_segment}
use maja.Mapping.Fix.{info_fragment, fix_checksums}
use maja.Mapping.Fix.Writes.{Roomy, Ipv4Packet, segment_bounds-behind}
use maja.Mapping.Fix.Slice.{get_range-some, some-get_range, length-slice}
use maja.Mapping.Fix.Segment.{in_use, in_use-same, udp_layer_of}
use maja.Mapping.Fix.Valid.{transport_segment-bounds}
use maja.Mapping.Fix.Received.{tail, Complete, Received, no_segment, fix_checksums-Received}
use maja.Mapping.Rewriter.{Rewriter, rewrite_direct, fix_if, rewrite_packet}
use maja.Mapping.Rewriter.Steps.{rewrite_direct-fix, rewrite_flow-fix, rewrite_packet-Steps}
use maja.Mapping.Rewriter.Readdressed.{
  Readdressed, Readdressed-trans, rewrite_direct-Readdressed, rewrite_flow-Readdressed,
}

-- With other addresses the segment is as it was.
same_segment :
    (packet : Packet) (l : Layer) (four : Ipv4Packet packet l) (roomy : Roomy packet) {protocol : ℕ}
    (other : Packet) {segment : List ℕ}
    → outer_transport packet ≡ some protocol
    → Readdressed packet l other
    → transport_segment packet ≡ some segment
    → (same : List ℕ) × (transport_segment other ≡ some same)
      × (length same ≡ length segment)
      × (in_use protocol same ≡ in_use protocol segment)
unfolding transport_segment
same_segment packet l four roomy {protocol} other {segment} is_transport one h =
    let (start, stop, bounds, range) = transport_segment-bounds packet h in
    let (ordered, within, is) = get_range-some packet.bytes start stop range in
    let len_same = one.len in
    let wide = length-slice packet.bytes start stop ordered within in
    let also = length-slice other.bytes start stop ordered (omega arith) in
    let used =
      in_use-same protocol (slice packet.bytes start stop) (slice other.bytes start stop) (λ is_udp.
        let (udp, there, same, behind) =
          segment_bounds-behind packet l four roomy is_transport (udp_layer_of protocol is_udp)
            bounds in
        ap (λ (b : List ℕ). stored 6 b == 0) (one.behind start (stop - start) behind)) in
    (
      slice other.bytes start stop,
      rw (one.bounds, bounds, transport_segment)
          (some-get_range other.bytes start stop ordered (omega arith)),
      also ∙ sym wide ∙ ap length (sym is),
      used ∙ ap (in_use protocol) (sym is),
    )

module _ (packet : Packet) (l : Layer) (four : Ipv4Packet packet l) (roomy : Roomy packet)
    {protocol : ℕ} (middle : Packet) (both : Readdressed packet l middle)
    (whole : info_fragment (read_info packet) ≡ false)
    (is_transport : outer_transport packet ≡ some protocol) where
  abbrev ReceivedFrom : Option (List ℕ) → Type 0
  ReceivedFrom before =
      (header : List ℕ) × (outer_viewer (fix_checksums middle) Protocol.ipv4 ≡ some header)
      × (ipv4_validate_checksum header ≡ true)
      × Received protocol (l.offset + l.len) (slice header 12 16) (slice header 16 20) packet
          (fix_checksums middle) before

  tail-Readdressed : tail (l.offset + l.len) middle ≡ tail (l.offset + l.len) packet
  tail-Readdressed =
      rw both.len
        (both.behind (l.offset + l.len) (length packet.bytes - (l.offset + l.len)) (omega arith))

  Readdressed-Received :
      (before : Option (List ℕ))
      → transport_segment packet ≡ before
      → Complete protocol before
      → ReceivedFrom before
  Readdressed-Received none h complete =
      let (header, viewed, valid, received) =
        fix_checksums-Received middle l both.four both.roomy (both.fragment ∙ whole)
          (both.transport ∙ is_transport) none (no_segment packet middle both.bounds both.len h)
          tt in
      (header, viewed, valid, (received.0, received.1 ∙ tail-Readdressed))
  Readdressed-Received (some segment) h complete =
      let (same, same_is, same_len, used) =
        same_segment packet l four roomy middle is_transport both h in
      let (header, viewed, valid, received) =
        fix_checksums-Received middle l both.four both.roomy (both.fragment ∙ whole)
          (both.transport ∙ is_transport) (some same) same_is (omega arith) in
      let (carried, is, checked, kept) = received in
      (header, viewed, valid, (carried, is, checked, kept ∙ used))

module _ (n : Nets) (r : Random) (packet : Packet) (l : Layer) (four : Ipv4Packet packet l)
    (roomy : Roomy packet) where
  -- Let a rewriter that is to fix checksums report a change of an IPv4 packet that is no fragment
  -- and whose layers lie in it with their fixed headers, the IPv4 layer as long as the header
  -- says; and if transport_segment finds a segment in the packet and the protocol is TCP or UDP,
  -- let this have its fixed header. Then the header is valid afterwards, as its receiver checks
  -- it. If there was a segment, there is one afterwards, and if the protocol is TCP or UDP, it is
  -- valid with the addresses of the header, where a UDP checksum of zero is one that is not
  -- checked, and a UDP checksum is zero exactly where it was zero before. If transport_segment
  -- finds no segment, as in a packet of another protocol or one that the capture cut off, it finds
  -- none afterwards, and everything behind the header is as it was: a checksum there is not fixed.
  pub rewrite_packet-valid :
      (rewriter later : Rewriter n.Net r.Rng) (group : ℕ) (after : Packet) (protocol : ℕ)
      → rewriter.fix_checksum ≡ true
      → rewrite_packet n r rewriter group packet ≡ some ((true, after), later)
      → info_fragment (read_info packet) ≡ false
      → outer_transport packet ≡ some protocol
      → Complete protocol (transport_segment packet)
      → (header : List ℕ) × (outer_viewer after Protocol.ipv4 ≡ some header)
        × (ipv4_validate_checksum header ≡ true)
        × Received protocol
            (l.offset + l.len)
            (slice header 12 16)
            (slice header 16 20)
            packet
            after
            (transport_segment packet)
  unfolding fix_if
  rewrite_packet-valid rewriter later group after protocol fixes h whole is_transport complete =
      let direct = rewrite_direct n r rewriter packet in
      let (flow_changed, middle, flows, changed, after_is) =
        rewrite_packet-Steps n r rewriter later group packet after true h in
      let one = rewrite_direct-Readdressed n r packet l four roomy rewriter in
      let two =
        rewrite_flow-Readdressed n r direct.0.1 l one.four one.roomy direct.1 later group
          flow_changed middle flows in
      let both = Readdressed-trans packet l direct.0.1 middle one two in
      let to_fix : later.fix_checksum ≡ true =
        rewrite_flow-fix n r direct.1 later group direct.0.1 middle flow_changed flows
        ∙ rewrite_direct-fix n r rewriter packet
        ∙ fixes in
      let fixed : after ≡ fix_checksums middle = rw (to_fix, fix_if) at after_is in
      rw fixed (
        Readdressed-Received packet l four roomy middle both whole is_transport
          (transport_segment packet) refl complete)
