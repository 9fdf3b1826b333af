-- ===== src/Mapping/Fix/Slice.antt =====
-- A checksum that `fix_checksums` of tools/maja-mergecap/src/map.rs stores in the transport segment.
use maja.Base.{
  le→leb, ℕ, ◌+◌, ◌-◌, ◌≤◌, ◌≡◌, refl, sym, inl, inr, Bool-cases, none, some, List, arith, ◌&&◌,
  leb, length, length-take, length-drop, drop,
}
use maja.Protocol.{Protocol}
use maja.Context.{slice, get_range}
use maja.Packet.{Packet}
use maja.Validate.{store}
use maja.Validate.Store.{take-drop-store_in}
use maja.Mapping.{Family}
use maja.Mapping.Envelope.{outer_ip_family, outer_transport}
use maja.Mapping.Segment.{segment_bounds, set_checksum, transport_segment, transport_layer}
use maja.Mapping.Segment.Bounds.{segment_bounds-Found, bounds_from-some}
use maja.Mapping.Fix.{fix_segment}

pub get_range-some :
    (bytes : List ℕ) (start stop : ℕ) {part : List ℕ}
    → get_range bytes start stop ≡ some part
    → (start ≤ stop) × (stop ≤ length bytes) × (part ≡ slice bytes start stop)
get_range-some bytes start stop {part} h =
    elim (Bool-cases (leb start stop && leb stop (length bytes))) [
      | inr out ↦ let e : none ≡ some part = rw out at h in absurd (cc)
      | inl inside ↦
          let e : some (slice bytes start stop) ≡ some part = rw inside at h in
          let same : part ≡ slice bytes start stop = cc in (ground arith, ground arith, same)
    ]

pub some-get_range :
    (bytes : List ℕ) (start stop : ℕ)
    → start ≤ stop
    → stop ≤ length bytes
    → get_range bytes start stop ≡ some (slice bytes start stop)
some-get_range bytes start stop h k = rw (le→leb start stop h, le→leb stop (length bytes) k) refl

pub length-slice :
    (bytes : List ℕ) (start stop : ℕ)
    → start ≤ stop
    → stop ≤ length bytes
    → length (slice bytes start stop) ≡ stop - start
length-slice bytes start stop h k =
    omega (arith, length-take (stop - start) (drop start bytes), length-drop start bytes)

-- The segment of the packet that `fix_segment` leaves.
pub fix_segment-slice :
    (packet : Packet) {family : Family}
    → outer_ip_family packet ≡ some family
    → (start stop : ℕ) → segment_bounds packet ≡ some (start, stop)
    → start ≤ stop
    → stop ≤ length packet.bytes
    → {protocol : ℕ} {p : Protocol} (at : ℕ) (calculate : List ℕ → ℕ)
    → outer_transport packet ≡ some protocol
    → transport_layer protocol ≡ some p
    → start + at + 2 ≤ stop
    → slice ((fix_segment p at calculate packet).bytes) start stop
      ≡ store at (calculate (slice packet.bytes start stop)) (slice packet.bytes start stop)
unfolding fix_segment transport_segment set_checksum
fix_segment-slice packet is_family start stop bounds within inside at calculate is_transport is_kind
      room =
    let (t, there, found, is_extent, e) =
      segment_bounds-Found packet is_family is_transport is_kind bounds in
    let (same, behind) =
      bounds_from-some (length packet.bytes) t.offset found.0 found.1 found.2 e in
    rw
      (
        bounds,
        some-get_range packet.bytes start stop within inside,
        there,
        sym same,
        fix_segment,
        transport_segment,
        set_checksum,
      )
      (take-drop-store_in start at (stop - start) (calculate (slice packet.bytes start stop))
        packet.bytes (omega arith) (omega arith))
