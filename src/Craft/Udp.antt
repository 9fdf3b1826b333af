-- ===== src/Craft/Udp.antt =====
-- src/packet/layer/udp/craft.rs and src/packet/layer/icmp/echo/craft.rs: headers of eight bytes with
-- a checksum over what follows.
pub mod Laws
use Prim.Native.String.{String}
use maja.Base.{
  ℕ, ◌+◌, ◌≤◌, ◌≡◌, ◌≢◌, refl, sym, ap, ◌∙◌, true, Bool, Option, none, some, List, [], ◌∷◌, arith,
  leb, ◌==◌, if◌then◌else◌, length, drop,
}
use maja.Protocol.{Protocol}
use maja.Field.{whole}
use maja.Context.{usize_max}
use maja.Packet.{Packet}
use maja.Validate.{
  store, udp_calculate_checksum_ipv4, udp_validate_checksum_ipv4, icmp_calculate_checksum,
  icmp_validate_checksum,
}
use maja.Validate.Stored.{udp_validate_checksum-store, icmp_validate_checksum-store}
use mathlib.Core.Path.{subst}
use maja.Craft.{
  Result, ok, err, panic, ◌>>=◌, ◌>>◌, CraftContext, Ipv4CraftContext, CraftChildPlan, CraftChild,
  CraftPlan, CraftLayer, invalid_field, build_in, child_len, checked_add_len, checked_u16_len,
}
use maja.Craft.Laws.{Lawful, All}
use maja.Craft.Compose.{Outermost, build_in-Outermost}
use maja.Craft.Measured.{ok_of_bind, ok_inj, checked_add_len-ok, calm_bind, checked_add_len-calm}
use maja.Craft.Header.{Edit, unwrap_or, fill, fill-length, fill-Filled, Filled, behind_at}

-- `u16` fields.
pub record UdpBuilder : Type 0 where
  pub src_port : Option ℕ
  pub dst_port : Option ℕ
  pub udp_length : Option ℕ
  pub checksum : Option ℕ

abbrev pub gap : String
gap = "must match generated header plus child length; use raw!(...) to add payload bytes"

-- An explicit length, or the generated one if it fits a `u16`.
abbrev pub match_length : String → String → Option ℕ → ℕ → Result ℕ
match_length protocol field none generated = checked_u16_len protocol field generated
match_length protocol field (some len) generated =
    if len == generated then ok len else err (invalid_field protocol field len gap)

unfoldable pub measure_udp : UdpBuilder → CraftContext → Option CraftChildPlan → Result CraftPlan
measure_udp b c child = do
  generated ← checked_add_len "udp" "length" 8 (child_len child)
  len ← match_length "udp" "length" b.udp_length generated
  ok (record { layer_len = 8; total_len = len })

abbrev pub udp_fields : UdpBuilder → ℕ → List Edit
udp_fields b len =
    record { spec = whole 2; start = 0; value = unwrap_or b.src_port 0 }
    ∷ record { spec = whole 2; start = 2; value = unwrap_or b.dst_port 0 }
    ∷ record { spec = whole 2; start = 4; value = len }
    ∷ record { spec = whole 2; start = 6; value = 0 }
    ∷ []

-- The checksum over IPv4, or zero if the layer around is not IPv4.
abbrev pub over_ipv4 : (List ℕ → List ℕ → List ℕ → ℕ) → Option Ipv4CraftContext → List ℕ → ℕ
over_ipv4 calculate none bytes = 0
over_ipv4 calculate (some ctx) bytes = calculate ctx.src ctx.dst bytes

abbrev pub udp_checksum : UdpBuilder → CraftContext → List ℕ → ℕ
udp_checksum b c filled = unwrap_or b.checksum (over_ipv4 udp_calculate_checksum_ipv4 c.ipv4 filled)

unfoldable pub write_udp :
    UdpBuilder → CraftContext → CraftPlan → Option CraftChild → List ℕ → Result (List ℕ)
write_udp b c plan child bytes = checked_u16_len "udp" "length" plan.total_len >>= λ len.
    fill 8 (udp_fields b len) 6 (udp_checksum b c) bytes

abbrev pub udp_layer : UdpBuilder → CraftLayer
udp_layer b = record {
  name = "maja::packet::layer::udp::craft::UdpBuilder";
  protocol = Protocol.udp;
  child_context = λ c. c;
  measure = measure_udp b;
  write = write_udp b;
}
