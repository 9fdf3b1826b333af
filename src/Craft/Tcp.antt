-- ===== src/Craft/Tcp.antt =====
-- src/packet/layer/tcp/craft.rs.
pub mod Laws
use Prim.Native.String.{String}
use maja.Base.{
  ℕ, ◌+◌, ◌/◌, ◌%◌, ◌≤◌, ◌≡◌, ◌≢◌, refl, sym, ap, ◌∙◌, true, Option, none, some, List, [], ◌∷◌,
  arith, leb, if◌then◌else◌, length, drop,
}
use mathlib.Core.Path.{subst}
use maja.Protocol.{Protocol}
use maja.Field.{FieldSpec, whole}
use maja.Context.{usize_max}
use maja.Packet.{Packet}
use maja.Validate.{store, tcp_calculate_checksum_ipv4, tcp_validate_checksum_ipv4}
use maja.Validate.Stored.{tcp_validate_checksum-store}
use maja.Craft.{
  Result, ok, err, panic, ◌>>=◌, ◌>>◌, CraftContext, Ipv4CraftContext, CraftChildPlan, CraftChild,
  CraftPlan, CraftLayer, build_in, child_len, checked_add_len, checked_u16_len,
}
use maja.Craft.Measured.{ok_of_bind, ok_inj, checked_add_len-ok, calm_bind, checked_add_len-calm}
use maja.Craft.Laws.{Lawful, All}
use maja.Craft.Compose.{Outermost, build_in-Outermost}
use maja.Craft.Header.{Edit, Within, unwrap_or, Filled, behind_at}
use maja.Craft.Udp.{over_ipv4}
use maja.Craft.Options.{
  header_len, header_len-ok, header_len-calm, fill_with_options, fill_with_options-Filled,
  fill_with_options-length,
}

-- The flags are their octet.
pub record TcpBuilder : Type 0 where
  pub src_port : Option ℕ
  pub dst_port : Option ℕ
  pub seq_num : Option ℕ
  pub ack_num : Option ℕ
  pub data_offset : Option ℕ
  pub flags : Option ℕ
  pub window_size : Option ℕ
  pub checksum : Option ℕ
  pub urgent_pointer : Option ℕ
  pub options : List ℕ

abbrev pub tcp_header_len : TcpBuilder → Result ℕ
tcp_header_len b =
    header_len "tcp" "data_offset" "data offset must be at least 5" b.data_offset b.options

unfoldable pub measure_tcp : TcpBuilder → CraftContext → Option CraftChildPlan → Result CraftPlan
measure_tcp b c child = do
  len ← tcp_header_len b
  segment_len ← checked_add_len "tcp" "segment_len" len (child_len child)
  checked ← checked_u16_len "tcp" "ipv4_pseudo_length" segment_len
  ok (record { layer_len = len; total_len = segment_len })

abbrev pub tcp_fields : TcpBuilder → ℕ → List Edit
tcp_fields b header_len =
    record { spec = whole 2; start = 0; value = unwrap_or b.src_port 0 }
    ∷ record { spec = whole 2; start = 2; value = unwrap_or b.dst_port 0 }
    ∷ record { spec = whole 4; start = 4; value = unwrap_or b.seq_num 0 }
    ∷ record { spec = whole 4; start = 8; value = unwrap_or b.ack_num 0 }
    ∷ record {
      spec = record { size = 1; mask = 0xF0; shift = 4 };
      start = 12;
      value = header_len / 4 % 256;
    }
    ∷ record { spec = whole 1; start = 13; value = unwrap_or b.flags 0 }
    ∷ record { spec = whole 2; start = 14; value = unwrap_or b.window_size 64 }
    ∷ record { spec = whole 2; start = 16; value = 0 }
    ∷ record { spec = whole 2; start = 18; value = unwrap_or b.urgent_pointer 0 }
    ∷ []

abbrev pub tcp_checksum : TcpBuilder → CraftContext → List ℕ → ℕ
tcp_checksum b c filled = unwrap_or b.checksum (over_ipv4 tcp_calculate_checksum_ipv4 c.ipv4 filled)

unfoldable pub write_tcp :
    TcpBuilder → CraftContext → CraftPlan → Option CraftChild → List ℕ → Result (List ℕ)
write_tcp b c plan child bytes =
    fill_with_options b.options plan.layer_len (tcp_fields b plan.layer_len) 16 (tcp_checksum b c)
      bytes

abbrev pub tcp_layer : TcpBuilder → CraftLayer
tcp_layer b = record {
  name = "maja::packet::layer::tcp::craft::TcpBuilder";
  protocol = Protocol.tcp;
  child_context = λ c. c;
  measure = measure_tcp b;
  write = write_tcp b;
}
