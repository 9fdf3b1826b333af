-- ===== src/Craft/Ipv4.antt =====
-- src/packet/layer/ip/v4/craft.rs.
pub mod Laws
use Prim.Native.String.{String}
use mathlib.Core.Path.{subst}
use maja.Base.{
  ℕ, ◌+◌, ◌/◌, ◌%◌, ◌≤◌, ◌≡◌, ◌≢◌, ◌-◌, ◌&&◌, get_elem?, refl, sym, ap, ◌∙◌, true, Option, none,
  some, List, [], ◌∷◌, arith, ltb, leb, ◌==◌, if◌then◌else◌, length, drop, take, replicate,
  length-take,
}
use maja.Base.Words.{from_bytes}
use maja.Protocol.{Protocol, is}
use maja.Protocol.IpProtocol
use maja.Field.{FieldSpec, whole}
use maja.Context.{usize_max, Layer}
use maja.Packet.{Packet, bytes_of}
use maja.Validate.{store, ipv4_calculate_checksum, ipv4_validate_checksum}
use maja.Validate.Store.{take-store, length-store}
use maja.Validate.Stored.{ipv4_validate_checksum-store}
use maja.Craft.{
  Result, ok, err, panic, ◌>>=◌, ◌>>◌, CraftContext, Ipv4CraftContext, CraftChildPlan, CraftChild,
  CraftPlan, CraftLayer, build_in, child_len, checked_add_len, checked_u16_len, with_ipv4,
}
use maja.Craft.Measured.{ok_of_bind, ok_inj, checked_add_len-ok, calm_bind, checked_add_len-calm}
use maja.Craft.Laws.{Lawful, All}
use maja.Craft.Compose.{Outermost, build_in-Outermost}
use maja.Craft.Header.{Edit, Within, unwrap_or, Filled, behind_at}
use maja.Craft.Udp.{match_length}
use maja.Craft.Options.{
  header_len, header_len-ok, header_len-calm, fill_with_options, fill_with_options-Filled,
  fill_with_options-length,
}

-- The addresses are their octets, and a protocol is its number.
pub record Ipv4Builder : Type 0 where
  pub ihl : Option ℕ
  pub dscp : Option ℕ
  pub ecn : Option ℕ
  pub total_length : Option ℕ
  pub identification : Option ℕ
  pub flags : Option ℕ
  pub fragment_offset : Option ℕ
  pub ttl : Option ℕ
  pub protocol : Option ℕ
  pub checksum : Option ℕ
  pub src : Option (List ℕ)
  pub dst : Option (List ℕ)
  pub options : List ℕ

abbrev pub effective : Option (List ℕ) → List ℕ
effective address = unwrap_or address (replicate 4 0)

abbrev pub ipv4_header_len : Ipv4Builder → Result ℕ
ipv4_header_len b = header_len "ipv4" "ihl" "IHL must be at least 5" b.ihl b.options

unfoldable pub measure_ipv4 : Ipv4Builder → CraftContext → Option CraftChildPlan → Result CraftPlan
measure_ipv4 b c child = do
  len ← ipv4_header_len b
  generated ← checked_add_len "ipv4" "total_length" len (child_len child)
  total ← match_length "ipv4" "total_length" b.total_length generated
  ok (record { layer_len = len; total_len = total })

-- The protocol number of a child.
abbrev pub child_protocol : Option CraftChild → ℕ
child_protocol none = 255
child_protocol (some child) =
    if is child.protocol Protocol.icmp
    then IpProtocol.icmp
    else if is child.protocol Protocol.tcp
    then IpProtocol.tcp
    else if is child.protocol Protocol.udp
    then IpProtocol.udp
    else 255

abbrev part : ℕ → ℕ → FieldSpec
part mask shift = record { size = 1; mask = mask; shift = shift }

abbrev pub ipv4_fields : Ipv4Builder → Option CraftChild → ℕ → ℕ → List Edit
ipv4_fields b child header_len total =
    record { spec = part 0xF0 4; start = 0; value = 4 }
    ∷ record { spec = part 0x0F 0; start = 0; value = header_len / 4 % 256 }
    ∷ record { spec = part 0xFC 2; start = 1; value = unwrap_or b.dscp 0 }
    ∷ record { spec = part 0x03 0; start = 1; value = unwrap_or b.ecn 0 }
    ∷ record { spec = whole 2; start = 2; value = total }
    ∷ record { spec = whole 2; start = 4; value = unwrap_or b.identification 0 }
    ∷ record { spec = part 0xE0 5; start = 6; value = unwrap_or b.flags 0 }
    ∷ record {
      spec = record { size = 2; mask = 0x1FFF; shift = 0 };
      start = 6;
      value = unwrap_or b.fragment_offset 0;
    }
    ∷ record { spec = whole 1; start = 8; value = unwrap_or b.ttl 64 }
    ∷ record { spec = part 0xFF 0; start = 9; value = unwrap_or b.protocol (child_protocol child) }
    ∷ record { spec = whole 2; start = 10; value = 0 }
    ∷ record { spec = whole 4; start = 12; value = from_bytes true (effective b.src) }
    ∷ record { spec = whole 4; start = 16; value = from_bytes true (effective b.dst) }
    ∷ []

-- The checksum is over `bytes[..header_len]`.
abbrev pub ipv4_checksum : Ipv4Builder → ℕ → List ℕ → ℕ
ipv4_checksum b header_len filled =
    unwrap_or b.checksum (ipv4_calculate_checksum (take header_len filled))

unfoldable pub write_ipv4 :
    Ipv4Builder → CraftContext → CraftPlan → Option CraftChild → List ℕ → Result (List ℕ)
write_ipv4 b c plan child bytes = checked_u16_len "ipv4" "total_length" plan.total_len >>= λ total.
    fill_with_options b.options plan.layer_len (ipv4_fields b child plan.layer_len total) 10
      (ipv4_checksum b plan.layer_len) bytes

abbrev pub ipv4_layer : Ipv4Builder → CraftLayer
ipv4_layer b = record {
  name = "maja::packet::layer::ip::v4::craft::Ipv4Builder";
  protocol = Protocol.ipv4;
  child_context = λ c. with_ipv4 c (effective b.src) (effective b.dst);
  measure = measure_ipv4 b;
  write = write_ipv4 b;
}
