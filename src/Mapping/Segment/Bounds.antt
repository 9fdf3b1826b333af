-- ===== src/Mapping/Segment/Bounds.antt =====
-- Where the segment of `transport_segment` of tools/maja-mergecap/src/map/packet.rs lies.
use maja.Base.{
  ℕ, ◌+◌, ◌-◌, ◌≤◌, ◌≡◌, refl, sym, inl, inr, Bool-cases, some, Option-cases, arith, ltb, ◌&&◌, not,
  ◌==◌, if◌then◌else◌, length,
}
use maja.Field.{whole}
use maja.Layers.{field}
use maja.Protocol.{Protocol}
use maja.Context.{Layer}
use maja.Packet.{Packet}
use maja.Validate.{ipv4_header_len}
use maja.Mapping.{Family, v4}
use maja.Mapping.Envelope.{bytes_in, outer_layer, outer_viewer, outer_ip_family, outer_transport}
use maja.Mapping.Segment.{extent, transport_layer, bounds_from, bounds_with, segment_bounds}

pub outer_viewer-some :
    (packet : Packet) (p : Protocol) {l : Layer}
    → outer_layer packet p ≡ some l
    → outer_viewer packet p ≡ some (bytes_in packet.bytes l)
unfolding outer_viewer
outer_viewer-some packet p here = rw (here, outer_viewer) refl

-- The extent and the transport layer that the bounds come from.
abbrev pub Found : Packet → Family → Protocol → ℕ × ℕ → Type 0
Found packet family p bounds =
    (t : Layer) × (outer_layer packet p ≡ some t)
    × (found : ℕ × ℕ × ℕ) × (extent packet family ≡ some found)
    × (bounds_from (length packet.bytes) t.offset found ≡ some bounds)

pub segment_bounds-Found :
    (packet : Packet) {family : Family} {protocol : ℕ} {p : Protocol} {bounds : ℕ × ℕ}
    → outer_ip_family packet ≡ some family
    → outer_transport packet ≡ some protocol
    → transport_layer protocol ≡ some p
    → segment_bounds packet ≡ some bounds
    → Found packet family p bounds
unfolding segment_bounds
segment_bounds-Found packet {family} {protocol} {p} is_family is_transport is_kind h =
    elim (Option-cases (extent packet family)) [
      | inl no_extent ↦
          let e = rw (is_family, no_extent, segment_bounds, bounds_with) at h in absurd (cc)
      | inr (found, some_extent) ↦ elim (Option-cases (outer_layer packet p)) [
        | inl no_layer ↦
            let e =
              rw
                (
                  is_family, some_extent, is_transport, is_kind, no_layer, segment_bounds,
                  bounds_with,
                )
                at h in
            absurd (cc)
        | inr (t, here) ↦ (
          t,
          here,
          found,
          some_extent,
          rw (is_family, some_extent, is_transport, is_kind, here, segment_bounds, bounds_with) at
              h,
        )
      ]
    ]

pub bounds_from-some :
    (len l4_offset ip_offset header_len payload_len : ℕ) {start stop : ℕ}
    → bounds_from len l4_offset (ip_offset, header_len, payload_len) ≡ some (start, stop)
    → (start ≡ l4_offset) × (ip_offset + header_len ≤ start)
bounds_from-some len l4_offset ip_offset header_len payload_len {start} {stop} h =
    elim (Bool-cases (ltb l4_offset (ip_offset + header_len))) [
      | inl inside ↦ let e = rw inside at h in absurd (cc)
      | inr behind ↦
          let e : some
                (l4_offset, if payload_len == 0 then len else ip_offset + header_len + payload_len)
              ≡ some (start, stop) =
            rw behind at h in
          let same : l4_offset ≡ start = cc in (sym same, ground arith)
    ]

pub extent-v4 :
    (packet : Packet) {l : Layer} {found : ℕ × ℕ × ℕ}
    → outer_layer packet Protocol.ipv4 ≡ some l
    → extent packet v4 ≡ some found
    → (found.0 ≡ l.offset) × (found.1 ≡ ipv4_header_len (bytes_in packet.bytes l))
unfolding extent
extent-v4 packet {l} {found} here h =
    let header = bytes_in packet.bytes l in
    let total = field (whole 2) 2 header in
    elim (Bool-cases (not (total == 0) && ltb total (ipv4_header_len header))) [
      | inl short ↦
          let e = rw (here, outer_viewer-some packet Protocol.ipv4 here, short, extent) at h in
          absurd (cc)
      | inr enough ↦
          let e : some (l.offset, ipv4_header_len header, total - ipv4_header_len header)
              ≡ some found =
            rw (here, outer_viewer-some packet Protocol.ipv4 here, enough, extent) at h in
          (cc, cc)
    ]
