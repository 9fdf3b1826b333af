-- ===== src/Craft/Echo.antt =====
-- src/packet/layer/icmp/echo/craft.rs.
use maja.Base.{
  ℕ, ◌+◌, ◌≤◌, ◌≡◌, ◌≢◌, sym, ap, ◌∙◌, true, Option, none, List, [], ◌∷◌, arith, length,
}
use mathlib.Core.Path.{subst}
use maja.Protocol.{Protocol}
use maja.Field.{whole}
use maja.Context.{usize_max}
use maja.Packet.{Packet}
use maja.Validate.{store, icmp_calculate_checksum, icmp_validate_checksum}
use maja.Validate.Stored.{icmp_validate_checksum-store}
use maja.Craft.{
  Result, ok, err, panic, ◌>>=◌, ◌>>◌, CraftContext, CraftChildPlan, CraftChild, CraftPlan,
  CraftLayer, build_in, child_len, checked_add_len, invalid_field,
}
use maja.Craft.Measured.{ok_of_bind, ok_inj, calm_bind, checked_add_len-calm}
use maja.Craft.Laws.{Lawful, All}
use maja.Craft.Compose.{build_in-Outermost}
use maja.Craft.Header.{Edit, unwrap_or, Filled, behind_at, fill, fill-Filled, fill-length}

-- `IcmpType`, of which the builder takes two; `other n` stands for the others.
pub data IcmpType : Type 0 where
  echo_reply echo_request : IcmpType
  other : ℕ → IcmpType

abbrev pub icmp_type_into : IcmpType → ℕ
icmp_type_into echo_reply = 0
icmp_type_into echo_request = 8
icmp_type_into (other n) = n

pub record IcmpEchoBuilder : Type 0 where
  pub message_type : IcmpType
  pub code : Option ℕ
  pub checksum : Option ℕ
  pub identifier : Option ℕ
  pub sequence : Option ℕ

abbrev pub validate_message_type : IcmpType → Result (Unit {0})
validate_message_type echo_reply = ok tt
validate_message_type echo_request = ok tt
validate_message_type (other n) = err (
    invalid_field "icmp" "type" n
      "IcmpEchoBuilder only supports echo request and echo reply messages")

unfoldable pub measure_echo :
    IcmpEchoBuilder → CraftContext → Option CraftChildPlan → Result CraftPlan
measure_echo b c child = do
  validate_message_type b.message_type
  total ← checked_add_len "icmp" "total_len" 8 (child_len child)
  ok (record { layer_len = 8; total_len = total })

abbrev pub echo_fields : IcmpEchoBuilder → List Edit
echo_fields b =
    record { spec = whole 1; start = 0; value = icmp_type_into b.message_type }
    ∷ record { spec = whole 1; start = 1; value = unwrap_or b.code 0 }
    ∷ record { spec = whole 2; start = 2; value = 0 }
    ∷ record { spec = whole 2; start = 4; value = unwrap_or b.identifier 0 }
    ∷ record { spec = whole 2; start = 6; value = unwrap_or b.sequence 0 }
    ∷ []

abbrev pub echo_checksum : IcmpEchoBuilder → List ℕ → ℕ
echo_checksum b filled = unwrap_or b.checksum (icmp_calculate_checksum filled)

unfoldable pub write_echo :
    IcmpEchoBuilder → CraftContext → CraftPlan → Option CraftChild → List ℕ → Result (List ℕ)
write_echo b c plan child bytes = fill 8 (echo_fields b) 2 (echo_checksum b) bytes

abbrev pub echo_layer : IcmpEchoBuilder → CraftLayer
echo_layer b = record {
  name = "maja::packet::layer::icmp::echo::craft::IcmpEchoBuilder";
  protocol = Protocol.icmp;
  child_context = λ c. c;
  measure = measure_echo b;
  write = write_echo b;
}

echo_measured :
    (b : IcmpEchoBuilder) (c : CraftContext) (child : Option CraftChildPlan) (plan : CraftPlan)
    → measure_echo b c child ≡ ok plan
    → (plan.layer_len ≡ 8) × (plan.total_len ≡ 8 + child_len child) × (plan.total_len ≤ usize_max)
unfolding measure_echo
echo_measured b c child plan e =
    let (u, e0, h0) = ok_of_bind _ (validate_message_type b.message_type) e in ground arith

validate_message_type-calm : (t : IcmpType) → validate_message_type t ≢ panic
validate_message_type-calm echo_reply e = cc
validate_message_type-calm echo_request e = cc
validate_message_type-calm (other n) e = cc

measure_echo-calm :
    (b : IcmpEchoBuilder) (c : CraftContext) (child : Option CraftChildPlan)
    → measure_echo b c child ≢ panic
unfolding measure_echo
measure_echo-calm b c child =
    calm_bind (validate_message_type b.message_type) _ (validate_message_type-calm b.message_type)
      (λ u.
        calm_bind (checked_add_len "icmp" "total_len" 8 (child_len child)) _
          (checked_add_len-calm "icmp" "total_len" 8 (child_len child)) (λ total e. cc))

write_echo-Filled :
    (b : IcmpEchoBuilder) (c : CraftContext) (plan : CraftPlan) (child : Option CraftChild)
    (bytes : List ℕ)
    → 8 ≤ length bytes
    → Filled 8 2 (echo_checksum b) bytes (write_echo b c plan child bytes)
unfolding write_echo
write_echo-Filled b c plan child bytes room =
    fill-Filled 8 2 (echo_fields b) (echo_checksum b) bytes (omega arith) (omega arith) room

write_echo-length :
    (b : IcmpEchoBuilder) (c : CraftContext) (plan : CraftPlan) (child : Option CraftChild)
    (bytes written : List ℕ)
    → write_echo b c plan child bytes ≡ ok written
    → length written ≡ length bytes
unfolding write_echo
write_echo-length b c plan child bytes written e =
    fill-length 8 2 (echo_fields b) (echo_checksum b) bytes written (omega arith) (omega arith) e

pub echo_layer-Lawful : (b : IcmpEchoBuilder) → Lawful (echo_layer b)
echo_layer-Lawful b = record {
  keeps = record { length_kept = write_echo-length b };
  calm = measure_echo-calm b;
  exact = λ c child plan e. omega (arith, echo_measured b c child plan e);
  writes = λ c child plan inner bytes e n.
      let (len, total, fits) = echo_measured b c child plan e in
      let f = write_echo-Filled b c plan inner bytes (omega arith) in
      (_, f.result, behind_at plan.layer_len len f.kept_all);
}

-- The checksum of an echo message that is built is valid, unless the caller gives one.
pub build_in-echo :
    (b : IcmpEchoBuilder) (c : CraftContext) (ls : List CraftLayer) (p : Packet)
    → b.checksum ≡ none
    → All Lawful ls
    → build_in c (echo_layer b ∷ ls) ≡ ok p
    → icmp_validate_checksum p.bytes ≡ true
build_in-echo b c ls p auto k h =
    let o = build_in-Outermost c (echo_layer b) ls p (echo_layer-Lawful b, k) h in
    let (len, total, fits) = echo_measured b c o.child_plan o.plan o.is_measured in
    let f = write_echo-Filled b c o.plan o.child o.before (omega (arith, o.size)) in
    let value : ℕ = icmp_calculate_checksum f.filled in
    let e : store 2 value f.filled ≡ p.bytes =
      ap (λ (given : Option ℕ). store 2 (unwrap_or given value) f.filled) (sym auto)
      ∙ ok_inj (sym f.result ∙ o.is_written) in
    subst (λ (bytes : List ℕ). icmp_validate_checksum bytes ≡ true) e
      (icmp_validate_checksum-store [] [] f.filled (omega (arith, f.kept.same_length, o.size))).0
