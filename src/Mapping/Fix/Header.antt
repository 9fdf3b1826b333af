-- ===== src/Mapping/Fix/Header.antt =====
-- The IPv4 header after `fix_checksums` of tools/maja-mergecap/src/map.rs.
use maja.Base.{
  ℕ, ◌+◌, ◌-◌, ◌*◌, ◌≤◌, ◌≡◌, refl, ap, ◌∙◌, true, some, List, arith, length, length-take,
  length-drop, drop,
}
use maja.Protocol.{Protocol}
use maja.Context.{Layer}
use maja.Packet.{Packet}
use maja.Validate.{store, ipv4_header_len, ipv4_calculate_checksum, ipv4_validate_checksum}
use maja.Validate.Store.{length-store, field-store, take-drop-store_in}
use maja.Validate.Stored.{ipv4_validate_checksum-store}
use maja.Mapping.Envelope.{bytes_in, outer_layer, outer_viewer, outer_ip_family, read_info}
use maja.Mapping.Segment.{set_checksum}
use maja.Mapping.Segment.Bounds.{outer_viewer-some}
use maja.Mapping.Fix.{fix_header, fix_in, info_fragment, fix_checksums}
use maja.Mapping.Fix.Behind.{Behind, bytes_in-Behind}
use maja.Mapping.Fix.Writes.{Roomy, Ipv4Packet, unless_fragment-Behind}

pub length-bytes_in :
    (bytes : List ℕ) (l : Layer)
    → l.offset + l.len ≤ length bytes
    → length (bytes_in bytes l) ≡ l.len
length-bytes_in bytes l h = omega (
  arith,
  length-take (l.offset + l.len - l.offset) (drop l.offset bytes),
  length-drop l.offset bytes,
)

module _ (packet : Packet) (l : Layer) (four : Ipv4Packet packet l) (roomy : Roomy packet) where
  abbrev pub header : List ℕ
  header = bytes_in packet.bytes l

  abbrev pub headed : List ℕ
  headed = store (l.offset + 10) (ipv4_calculate_checksum header) packet.bytes

  -- The packet with the checksum of its header.
  abbrev pub with_header : Packet
  with_header = record packet { bytes = headed }

  pub fix_header-some : fix_header packet ≡ with_header
  unfolding fix_header set_checksum
  fix_header-some =
      rw (outer_viewer-some packet Protocol.ipv4 four.here, four.here, fix_header, set_checksum)
        refl

  pub header-headed : bytes_in headed l ≡ store 10 (ipv4_calculate_checksum header) header
  header-headed =
      let (fixed, within) = roomy Protocol.ipv4 l four.here in
      take-drop-store_in l.offset 10 (l.offset + l.len - l.offset) (ipv4_calculate_checksum header)
        packet.bytes (omega arith) (omega arith)

  pub with_header-Ipv4Packet : Ipv4Packet with_header l
  unfolding outer_ip_family outer_layer
  with_header-Ipv4Packet =
      let (fixed, within) = roomy Protocol.ipv4 l four.here in
      record {
        family = four.family;
        here = four.here;
        exact =
            ap ipv4_header_len header-headed
            ∙ ap (λ (n : ℕ). n * 4)
                (field-store (record { size = 1; mask = 0x0F; shift = 0 }) 0 10
                  (ipv4_calculate_checksum header) header (omega arith)
                  (omega (arith, length-bytes_in packet.bytes l within)))
            ∙ four.exact;
      }

  pub with_header-Roomy : Roomy with_header
  unfolding outer_layer
  with_header-Roomy p t there =
      let (fixed, within) = roomy Protocol.ipv4 l four.here in
      let same =
        length-store (l.offset + 10) (ipv4_calculate_checksum header) packet.bytes (omega arith) in
      let (long, inside) = roomy p t there in (long, omega arith)

  -- The packet afterwards: another checksum may be stored behind the header.
  pub fix_checksums-Behind :
      (bytes : List ℕ) × (fix_checksums packet ≡ record packet { bytes = bytes })
      × Behind (l.offset + l.len) headed bytes
  unfolding fix_checksums fix_in
  fix_checksums-Behind =
      let (bytes, is, behind) =
        unless_fragment-Behind with_header l with_header-Ipv4Packet with_header-Roomy
          (info_fragment (read_info with_header)) in
      (bytes, rw (four.family, fix_header-some, fix_checksums, fix_in) is, behind)

  -- After the checksums of an IPv4 packet are fixed, a fragment's too, whose layers lie in it with
  -- their fixed headers and the IPv4 layer as long as the header says, the packet has the header
  -- that it had, with its checksum stored, and this is valid.
  pub fix_checksums-header :
      (outer_viewer (fix_checksums packet) Protocol.ipv4
        ≡ some (store 10 (ipv4_calculate_checksum header) header))
      × (ipv4_validate_checksum (store 10 (ipv4_calculate_checksum header) header) ≡ true)
  unfolding outer_layer
  fix_checksums-header =
      let (fixed, within) = roomy Protocol.ipv4 l four.here in
      let (bytes, is, behind) = fix_checksums-Behind in
      (
        rw is (
            outer_viewer-some (record packet { bytes = bytes }) Protocol.ipv4 four.here
            ∙ ap some (
                bytes_in-Behind (l.offset + l.len) headed bytes l (omega arith) behind
                ∙ header-headed)),
        ipv4_validate_checksum-store header (omega (arith, length-bytes_in packet.bytes l within)),
      )
