-- ===== src/Craft/Tcp/Laws.antt =====
-- src/packet/layer/tcp/craft.rs: the builder is a lawful layer, and its checksum is valid.
use Prim.Native.String.{String}
use maja.Base.{
  ℕ, ◌+◌, ◌≤◌, ◌≡◌, ◌≢◌, sym, ap, ◌∙◌, true, Option, none, some, List, ◌∷◌, arith, length,
}
use mathlib.Core.Path.{subst}
use maja.Packet.{Packet}
use maja.Validate.{store, tcp_calculate_checksum_ipv4, tcp_validate_checksum_ipv4}
use maja.Validate.Stored.{tcp_validate_checksum-store}
use maja.Craft.{
  ok, panic, CraftContext, Ipv4CraftContext, CraftChildPlan, CraftChild, CraftPlan, CraftLayer,
  build_in, child_len, checked_add_len, checked_u16_len,
}
use maja.Craft.Measured.{ok_of_bind, ok_inj, checked_add_len-ok, calm_bind, checked_add_len-calm}
use maja.Craft.Laws.{Lawful, All}
use maja.Craft.Compose.{build_in-Outermost}
use maja.Craft.Header.{Within, unwrap_or, Filled}
use maja.Craft.Options.{
  header_len-ok, header_len-calm, fill_with_options-Filled, fill_with_options-length,
}
use maja.Craft.Tcp.{
  TcpBuilder, tcp_header_len, measure_tcp, tcp_fields, tcp_checksum, write_tcp, tcp_layer,
}

checked_u16_len-calm : (p f : String) (n : ℕ) → checked_u16_len p f n ≢ panic
checked_u16_len-calm p f n e = ground arith

tcp_measured :
    (b : TcpBuilder) (c : CraftContext) (child : Option CraftChildPlan) (plan : CraftPlan)
    → measure_tcp b c child ≡ ok plan
    → (plan.total_len ≡ plan.layer_len + child_len child)
      × (plan.total_len ≤ 0xffff)
      × (20 + length b.options ≤ plan.layer_len)
      × (20 ≤ plan.layer_len)
unfolding measure_tcp
tcp_measured b c child plan e =
    let (len, e0, h0) = ok_of_bind _ (tcp_header_len b) e in
    let (segment, e1, h1) =
      ok_of_bind _ (checked_add_len "tcp" "segment_len" len (child_len child)) h0 in
    let (checked, e2, h2) = ok_of_bind _ (checked_u16_len "tcp" "ipv4_pseudo_length" segment) h1 in
    let n = checked_add_len-ok "tcp" "segment_len" len (child_len child) segment e1 in
    let (w, o, lo, hi) =
      header_len-ok "tcp" "data_offset" "data offset must be at least 5" b.data_offset b.options len
        e0 in
    ground (arith, ok_inj h2)

measure_tcp-calm :
    (b : TcpBuilder) (c : CraftContext) (child : Option CraftChildPlan)
    → measure_tcp b c child ≢ panic
unfolding measure_tcp
measure_tcp-calm b c child =
    calm_bind (tcp_header_len b) _
      (header_len-calm "tcp" "data_offset" "data offset must be at least 5" b.data_offset b.options)
      (λ len.
        calm_bind (checked_add_len "tcp" "segment_len" len (child_len child)) _
          (checked_add_len-calm "tcp" "segment_len" len (child_len child))
          (λ segment.
            calm_bind (checked_u16_len "tcp" "ipv4_pseudo_length" segment) _
              (checked_u16_len-calm "tcp" "ipv4_pseudo_length" segment) (λ total e. cc)))

tcp_fields-Within : (b : TcpBuilder) (n k : ℕ) → 20 ≤ k → Within k (tcp_fields b n)
tcp_fields-Within b n k h = omega arith

write_tcp-Filled :
    (b : TcpBuilder) (c : CraftContext) (plan : CraftPlan) (child : Option CraftChild)
    (bytes : List ℕ)
    → 20 + length b.options ≤ plan.layer_len
    → plan.layer_len ≤ length bytes
    → Filled plan.layer_len 16 (tcp_checksum b c) bytes (write_tcp b c plan child bytes)
unfolding write_tcp
write_tcp-Filled b c plan child bytes o room =
    let n : ℕ = plan.layer_len in
    fill_with_options-Filled b.options n 16 (tcp_fields b n) (tcp_checksum b c) bytes o
      (tcp_fields-Within b n n (omega arith)) (omega arith) room

write_tcp-length :
    (b : TcpBuilder) (c : CraftContext) (plan : CraftPlan) (child : Option CraftChild)
    (bytes written : List ℕ)
    → write_tcp b c plan child bytes ≡ ok written
    → length written ≡ length bytes
unfolding write_tcp
write_tcp-length b c plan child bytes written e =
    let n : ℕ = plan.layer_len in
    fill_with_options-length b.options n 16 (tcp_fields b n) (tcp_checksum b c) bytes written
      (λ h. (tcp_fields-Within b n n h, omega arith)) e

pub tcp_layer-Lawful : (b : TcpBuilder) → Lawful (tcp_layer b)
tcp_layer-Lawful b = record {
  keeps = record { length_kept = write_tcp-length b };
  calm = measure_tcp-calm b;
  exact = λ c child plan e.
      let (total, small, o, lo) = tcp_measured b c child plan e in (total, omega arith);
  writes = λ c child plan inner bytes e n.
      let (total, small, o, lo) = tcp_measured b c child plan e in
      let f = write_tcp-Filled b c plan inner bytes o (omega arith) in
      (_, f.result, f.kept_all.behind);
}

-- Over IPv4 the checksum of a segment that is built is valid, unless the caller gives one.
pub build_in-tcp :
    (b : TcpBuilder) (ctx : Ipv4CraftContext) (ls : List CraftLayer) (p : Packet)
    → b.checksum ≡ none
    → All Lawful ls
    → build_in (record { ipv4 = some ctx }) (tcp_layer b ∷ ls) ≡ ok p
    → tcp_validate_checksum_ipv4 ctx.src ctx.dst p.bytes ≡ true
build_in-tcp b ctx ls p auto k h =
    let c : CraftContext = record { ipv4 = some ctx } in
    let o = build_in-Outermost c (tcp_layer b) ls p (tcp_layer-Lawful b, k) h in
    let (total, small, opt, lo) = tcp_measured b c o.child_plan o.plan o.is_measured in
    let f = write_tcp-Filled b c o.plan o.child o.before opt (omega (arith, o.size)) in
    let value : ℕ = tcp_calculate_checksum_ipv4 ctx.src ctx.dst f.filled in
    let e : store 16 value f.filled ≡ p.bytes =
      ap (λ (given : Option ℕ). store 16 (unwrap_or given value) f.filled) (sym auto)
      ∙ ok_inj (sym f.result ∙ o.is_written) in
    subst (λ (bytes : List ℕ). tcp_validate_checksum_ipv4 ctx.src ctx.dst bytes ≡ true) e
      (tcp_validate_checksum-store ctx.src ctx.dst f.filled
        (omega (arith, f.kept.same_length, o.size))).0
