-- ===== src/Mapping/Fix/Writes.antt =====
-- What `fix_checksums` of tools/maja-mergecap/src/map.rs writes into an IPv4 packet.
use maja.Base.{
  ℕ, ◌+◌, ◌≤◌, ◌≡◌, refl, Bool, true, false, inl, inr, Bool-cases, some, List, zero, suc, [], ◌∷◌,
  get_elem?, if◌then◌else◌, Option-cases, arith, ◌==◌, length,
}
use mathlib.Core.Option.{some-injective}
use maja.Protocol.{Protocol, id, is}
use maja.Packet.Lookup.{nth_layer-Found}
use maja.Protocol.IpProtocol
use maja.Context.{Layer, slice, get_range}
use maja.Packet.{Packet, negsuc}
use maja.Validate.{store, ipv4_header_len, tcp_calculate_checksum_ipv4, udp_calculate_checksum_ipv4}
use maja.Mapping.{v4}
use maja.Mapping.Envelope.{bytes_in, outer_layer, outer_viewer, outer_ip_family, outer_transport}
use maja.Mapping.Segment.{transport_layer, segment_bounds, set_checksum, transport_segment}
use maja.Mapping.Segment.Bounds.{
  outer_viewer-some, segment_bounds-Found, bounds_from-some, extent-v4,
}
use maja.Mapping.Fix.{fix_segment, fix_transport_v4, udp_disabled, unless_fragment, fix_protocol_v4}
use maja.Mapping.Fix.Behind.{Behind}

-- `MIN_LEN` of the headers that are written.
abbrev pub fixed_len : Protocol → ℕ
fixed_len p =
    if is p Protocol.ipv4
    then 20
    else if is p Protocol.tcp
    then 20
    else if is p Protocol.udp
    then 8
    else 0

-- The outermost layers lie in the packet and have their fixed part, as after a parse.
abbrev pub Roomy : Packet → Type 0
Roomy packet =
    (p : Protocol) (l : Layer)
    → outer_layer packet p ≡ some l
    → (fixed_len p ≤ l.len) × (l.offset + l.len ≤ length packet.bytes)

-- A layer that lies in the packet and has its fixed part.
abbrev pub Fits : List ℕ → Layer → Type 0
Fits bytes l = (fixed_len l.protocol ≤ l.len) × (l.offset + l.len ≤ length bytes)

abbrev pub AllFit : List ℕ → List Layer → Type 0
AllFit bytes [] = Unit
AllFit bytes (l ∷ ls) = Fits bytes l × AllFit bytes ls

found-Fits :
    (bytes : List ℕ) (ls : List Layer) (j : ℕ) {l : Layer}
    → AllFit bytes ls
    → get_elem? ls j ≡ some l
    → Fits bytes l
found-Fits bytes [] j fit h = absurd (cc)
found-Fits bytes (m ∷ ls) zero {l} fit h = rw (some-injective m l h) at fit.0
found-Fits bytes (m ∷ ls) (suc j) fit h = found-Fits bytes ls j fit.1 h

pub AllFit-Roomy : (packet : Packet) → AllFit packet.bytes packet.layers → Roomy packet
unfolding outer_layer
AllFit-Roomy packet fit p l here =
    let (same, j, at) = nth_layer-Found packet p (negsuc 0) l here in
    let (fixed, within) = found-Fits packet.bytes packet.layers j fit at in
    let e : id l.protocol ≡ id p = ground arith in (rw e at fixed, within)

-- An IPv4 packet, its outermost header and where that ends.
pub record Ipv4Packet (packet : Packet) (l : Layer) : Type 0 where
  pub family : outer_ip_family packet ≡ some v4
  pub here : outer_layer packet Protocol.ipv4 ≡ some l
  pub exact : ipv4_header_len (bytes_in packet.bytes l) ≡ l.len

module _ (packet : Packet) (l : Layer) (four : Ipv4Packet packet l) (roomy : Roomy packet) where
  -- The layer of the segment starts behind the header.
  pub segment_bounds-behind :
      {protocol : ℕ} {p : Protocol} {start stop : ℕ}
      → outer_transport packet ≡ some protocol
      → transport_layer protocol ≡ some p
      → segment_bounds packet ≡ some (start, stop)
      → (t : Layer) × (outer_layer packet p ≡ some t)
        × (start ≡ t.offset)
        × (l.offset + l.len ≤ start)
  segment_bounds-behind {start = start} is_transport is_kind h =
      let (t, there, found, is_extent, e) =
        segment_bounds-Found packet four.family is_transport is_kind h in
      let (same, behind) =
        bounds_from-some (length packet.bytes) t.offset found.0 found.1 found.2 e in
      let (at, len) = extent-v4 packet four.here is_extent in
      let exact = four.exact in (t, there, same, omega arith)

  -- A checksum of the transport header, into the bytes of the packet.
  fix_segment-Behind :
      {protocol : ℕ} {p : Protocol} (at : ℕ) (calculate : List ℕ → ℕ)
      → outer_transport packet ≡ some protocol
      → transport_layer protocol ≡ some p
      → at + 2 ≤ fixed_len p
      → (bytes : List ℕ) × (fix_segment p at calculate packet ≡ record packet { bytes = bytes })
        × Behind (l.offset + l.len) packet.bytes bytes
  unfolding fix_segment transport_segment set_checksum
  fix_segment-Behind {protocol} {p} at calculate is_transport is_kind inside =
      elim (Option-cases (segment_bounds packet)) [
        | inl nowhere ↦ (packet.bytes, rw (nowhere, fix_segment, transport_segment) refl, inl refl)
        | inr ((start, stop), bounds) ↦ elim (Option-cases (get_range packet.bytes start stop)) [
          | inl outside ↦
              (packet.bytes, rw (bounds, outside, fix_segment, transport_segment) refl, inl refl)
          | inr (segment, some_segment) ↦
              let (t, there, same, behind) = segment_bounds-behind is_transport is_kind bounds in
              let (fixed, within) = roomy p t there in
              (
                store (t.offset + at) (calculate segment) packet.bytes,
                rw (bounds, some_segment, there, fix_segment, transport_segment, set_checksum) refl,
                inr (t.offset + at, calculate segment, omega arith, omega arith, refl),
              )
        ]
      ]

  abbrev pub Wrote : Packet → Type 0
  Wrote after =
      (bytes : List ℕ) × (after ≡ record packet { bytes = bytes })
      × Behind (l.offset + l.len) packet.bytes bytes

  fix_protocol_v4-Behind :
      (protocol : ℕ) (src dst : List ℕ)
      → outer_transport packet ≡ some protocol
      → Wrote (fix_protocol_v4 protocol src dst packet)
  unfolding fix_protocol_v4
  fix_protocol_v4-Behind protocol src dst is_transport =
      elim (Bool-cases (protocol == IpProtocol.tcp)) [
        | inl is_tcp ↦
            rw (is_tcp, fix_protocol_v4)
              (fix_segment-Behind {p = Protocol.tcp} 16 (tcp_calculate_checksum_ipv4 src dst)
                is_transport (rw is_tcp refl) (omega arith))
        | inr no_tcp ↦ elim (Bool-cases (protocol == IpProtocol.udp)) [
          | inr no_udp ↦ rw (no_tcp, no_udp, fix_protocol_v4) (packet.bytes, refl, inl refl)
          | inl is_udp ↦ elim (Bool-cases (udp_disabled (outer_viewer packet Protocol.udp))) [
            | inl disabled ↦
                rw (no_tcp, is_udp, disabled, fix_protocol_v4) (packet.bytes, refl, inl refl)
            | inr in_use ↦
                rw (no_tcp, is_udp, in_use, fix_protocol_v4)
                  (fix_segment-Behind {p = Protocol.udp} 6 (udp_calculate_checksum_ipv4 src dst)
                    is_transport (rw (no_tcp, is_udp) refl) (omega arith))
          ]
        ]
      ]

  fix_transport_v4-Behind : Wrote (fix_transport_v4 packet)
  unfolding fix_transport_v4
  fix_transport_v4-Behind = elim (Option-cases (outer_transport packet)) [
    | inl none_there ↦ rw (none_there, fix_transport_v4) (packet.bytes, refl, inl refl)
    | inr (protocol, is_transport) ↦
        let header = bytes_in packet.bytes l in
        rw (is_transport, outer_viewer-some packet Protocol.ipv4 four.here, fix_transport_v4)
          (fix_protocol_v4-Behind protocol (slice header 12 16) (slice header 16 20) is_transport)
  ]

  pub unless_fragment-Behind : (fragment : Bool) → Wrote (unless_fragment fragment packet)
  unfolding unless_fragment
  unless_fragment-Behind true = (packet.bytes, refl, inl refl)
  unless_fragment-Behind false = fix_transport_v4-Behind
