-- ===== src/Craft/Udp/Laws.antt =====
-- src/packet/layer/udp/craft.rs and src/packet/layer/icmp/echo/craft.rs: headers of eight bytes with
-- a checksum over what follows: the builder is a lawful layer, and its checksum is valid.
use Prim.Native.String.{String}
use maja.Base.{
  ℕ, ◌+◌, ◌≤◌, ◌≡◌, ◌≢◌, sym, ap, ◌∙◌, true, false, ◌==◌, Option, none, some, List, ◌∷◌, arith, leb,
  length,
}
use maja.Packet.{Packet}
use maja.Validate.{store, stored, udp_calculate_checksum_ipv4, udp_validate_checksum_ipv4}
use maja.Validate.Stored.{udp_validate_checksum-store, udp_calculate_checksum-in_use}
use mathlib.Core.Path.{subst}
use maja.Craft.{
  ok, panic, CraftContext, Ipv4CraftContext, CraftChildPlan, CraftChild, CraftPlan, CraftLayer,
  build_in, child_len, checked_add_len, checked_u16_len,
}
use maja.Craft.Laws.{Lawful, All}
use maja.Craft.Compose.{build_in-Outermost}
use maja.Craft.Measured.{ok_of_bind, ok_inj, checked_add_len-ok, calm_bind, checked_add_len-calm}
use maja.Craft.Header.{unwrap_or, fill-length, fill-Filled, Filled, behind_at}
use maja.Craft.Udp.{
  UdpBuilder, match_length, measure_udp, udp_fields, udp_checksum, write_udp, udp_layer,
}

-- A value of the type `Option<u16>`.
abbrev pub IsU16 : Option ℕ → Type 0
IsU16 none = Unit
IsU16 (some n) = n ≤ 0xffff

pub match_length-ok :
    (p f : String) (given : Option ℕ) (generated len : ℕ)
    → IsU16 given
    → match_length p f given generated ≡ ok len
    → (len ≡ generated) × (len ≤ 0xffff)
match_length-ok p f none generated len u e = ground arith
match_length-ok p f (some n) generated len u e = ground arith

pub match_length-calm :
    (p f : String) (given : Option ℕ) (generated : ℕ) → match_length p f given generated ≢ panic
match_length-calm p f none generated e = ground arith
match_length-calm p f (some n) generated e = ground arith

udp_measured :
    (b : UdpBuilder) (c : CraftContext) (child : Option CraftChildPlan) (plan : CraftPlan)
    → IsU16 b.udp_length
    → measure_udp b c child ≡ ok plan
    → (plan.layer_len ≡ 8) × (plan.total_len ≡ 8 + child_len child) × (plan.total_len ≤ 0xffff)
unfolding measure_udp
udp_measured b c child plan u e =
    let (generated, e1, h1) = ok_of_bind _ (checked_add_len "udp" "length" 8 (child_len child)) e in
    let (len, e2, h2) = ok_of_bind _ (match_length "udp" "length" b.udp_length generated) h1 in
    let (same, small) = match_length-ok "udp" "length" b.udp_length generated len u e2 in
    let n = checked_add_len-ok "udp" "length" 8 (child_len child) generated e1 in
    ground (arith, ok_inj h2)

measure_udp-calm :
    (b : UdpBuilder) (c : CraftContext) (child : Option CraftChildPlan)
    → measure_udp b c child ≢ panic
unfolding measure_udp
measure_udp-calm b c child =
    calm_bind (checked_add_len "udp" "length" 8 (child_len child)) _
      (checked_add_len-calm "udp" "length" 8 (child_len child))
      (λ generated.
        calm_bind (match_length "udp" "length" b.udp_length generated) _
          (match_length-calm "udp" "length" b.udp_length generated) (λ len e. cc))

pub write_udp-Filled :
    (b : UdpBuilder) (c : CraftContext) (plan : CraftPlan) (child : Option CraftChild)
    (bytes : List ℕ)
    → plan.total_len ≤ 0xffff
    → 8 ≤ length bytes
    → Filled 8 6 (udp_checksum b c) bytes (write_udp b c plan child bytes)
unfolding write_udp
write_udp-Filled b c plan child bytes small room =
    let e : leb plan.total_len 0xffff ≡ true = ground arith in
    rw e (
      fill-Filled 8 6 (udp_fields b plan.total_len) (udp_checksum b c) bytes (omega arith)
        (omega arith) room)

write_udp-length :
    (b : UdpBuilder) (c : CraftContext) (plan : CraftPlan) (child : Option CraftChild)
    (bytes written : List ℕ)
    → write_udp b c plan child bytes ≡ ok written
    → length written ≡ length bytes
unfolding write_udp
write_udp-length b c plan child bytes written e =
    let (len, e1, e2) = ok_of_bind _ (checked_u16_len "udp" "length" plan.total_len) e in
    fill-length 8 6 (udp_fields b len) (udp_checksum b c) bytes written (omega arith) (omega arith)
      e2

pub udp_layer-Lawful : (b : UdpBuilder) → IsU16 b.udp_length → Lawful (udp_layer b)
udp_layer-Lawful b u = record {
  keeps = record { length_kept = write_udp-length b };
  calm = measure_udp-calm b;
  exact = λ c child plan e. omega (arith, udp_measured b c child plan u e);
  writes = λ c child plan inner bytes e n.
      let (len, total, small) = udp_measured b c child plan u e in
      let f = write_udp-Filled b c plan inner bytes small (omega arith) in
      (_, f.result, behind_at plan.layer_len len f.kept_all);
}

-- Over IPv4 the checksum of a datagram that is built is valid and in use, unless the caller gives one.
pub build_in-udp :
    (b : UdpBuilder) (ctx : Ipv4CraftContext) (ls : List CraftLayer) (p : Packet)
    → IsU16 b.udp_length
    → b.checksum ≡ none
    → All Lawful ls
    → build_in (record { ipv4 = some ctx }) (udp_layer b ∷ ls) ≡ ok p
    → (udp_validate_checksum_ipv4 ctx.src ctx.dst p.bytes ≡ true)
      × ((stored 6 p.bytes == 0) ≡ false)
build_in-udp b ctx ls p u auto k h =
    let c : CraftContext = record { ipv4 = some ctx } in
    let o = build_in-Outermost c (udp_layer b) ls p (udp_layer-Lawful b u, k) h in
    let (len, total, small) = udp_measured b c o.child_plan o.plan u o.is_measured in
    let f = write_udp-Filled b c o.plan o.child o.before small (omega (arith, o.size)) in
    let e : store 6 (udp_calculate_checksum_ipv4 ctx.src ctx.dst f.filled) f.filled ≡ p.bytes =
      ap
        (λ (given : Option ℕ).
          store 6 (unwrap_or given (udp_calculate_checksum_ipv4 ctx.src ctx.dst f.filled)) f.filled)
        (sym auto)
      ∙ ok_inj (sym f.result ∙ o.is_written) in
    let room : 8 ≤ length f.filled = omega (arith, f.kept.same_length, o.size) in
    (
      subst (λ (bytes : List ℕ). udp_validate_checksum_ipv4 ctx.src ctx.dst bytes ≡ true) e
          (udp_validate_checksum-store ctx.src ctx.dst f.filled room).0,
      subst (λ (bytes : List ℕ). (stored 6 bytes == 0) ≡ false) e
          (udp_calculate_checksum-in_use ctx.src ctx.dst f.filled room),
    )
