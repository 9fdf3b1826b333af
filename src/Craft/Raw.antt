-- ===== src/Craft/Raw.antt =====
-- src/packet/layer/raw/craft.rs and src/packet/layer/eth/craft.rs: the payload, which is the last
-- layer, and the Ethernet header.
use maja.Base.{
  ℕ, ◌+◌, ◌≤◌, ◌≡◌, ◌≢◌, refl, sym, ◌∙◌, true, Option, none, some, List, [], ◌∷◌, arith, ◌==◌,
  if◌then◌else◌, length, replicate,
}
use maja.Base.Words.{from_bytes}
use maja.Protocol.{Protocol, EthType, eth_type_into, reserverd, is}
use maja.Field.{whole}
use maja.Context.{usize_max}
use maja.Craft.{
  Result, ok, err, panic, ◌>>=◌, CraftContext, CraftChildPlan, CraftChild, CraftPlan, CraftLayer,
  raw_must_be_terminal, child_len, checked_add_len,
}
use maja.Craft.Laws.{Lawful}
use maja.Craft.Header.{
  Edit, set_fields, in_header, in_header-ok, in_header-length, set_fields-Keeps, unwrap_or,
  drop_all,
}

pub record RawBuilder : Type 0 where
  pub bytes : List ℕ

abbrev pub measure_raw : RawBuilder → CraftContext → Option CraftChildPlan → Result CraftPlan
measure_raw b c none = ok (record { layer_len = length b.bytes; total_len = length b.bytes })
measure_raw b c (some child) = err raw_must_be_terminal

-- `copy_from_slice` wants slices of one length.
abbrev pub write_raw :
    RawBuilder → CraftContext → CraftPlan → Option CraftChild → List ℕ → Result (List ℕ)
write_raw b c plan child bytes = if length bytes == length b.bytes then ok b.bytes else panic

abbrev pub raw_layer : RawBuilder → CraftLayer
raw_layer b = record {
  name = "maja::packet::layer::raw::craft::RawBuilder";
  protocol = Protocol.raw;
  child_context = λ c. c;
  measure = measure_raw b;
  write = write_raw b;
}

-- An address is its six octets.
pub record EthBuilder : Type 0 where
  pub src : Option (List ℕ)
  pub dst : Option (List ℕ)
  pub eth_type : Option EthType

abbrev pub measure_eth : EthBuilder → CraftContext → Option CraftChildPlan → Result CraftPlan
measure_eth b c child = checked_add_len "eth" "total_len" 14 (child_len child) >>= λ total.
    ok (record { layer_len = 14; total_len = total })

-- The EtherType of a child.
abbrev pub child_eth_type : Option CraftChild → EthType
child_eth_type none = reserverd 0
child_eth_type (some child) = if is child.protocol Protocol.ipv4 then EthType.ipv4 else reserverd 0

abbrev address : Option (List ℕ) → ℕ
address a = from_bytes true (unwrap_or a (replicate 6 0))

abbrev pub eth_fields : EthBuilder → Option CraftChild → List Edit
eth_fields b child =
    record { spec = whole 6; start = 0; value = address b.dst }
    ∷ record { spec = whole 6; start = 6; value = address b.src }
    ∷ record {
      spec = whole 2;
      start = 12;
      value = eth_type_into (unwrap_or b.eth_type (child_eth_type child));
    }
    ∷ []

abbrev pub write_eth :
    EthBuilder → CraftContext → CraftPlan → Option CraftChild → List ℕ → Result (List ℕ)
write_eth b c plan child bytes = in_header 14 (set_fields (eth_fields b child)) bytes

abbrev pub eth_layer : EthBuilder → CraftLayer
eth_layer b = record {
  name = "maja::packet::layer::eth::craft::EthBuilder";
  protocol = Protocol.eth;
  child_context = λ c. c;
  measure = measure_eth b;
  write = write_eth b;
}

raw_calm :
    (b : RawBuilder) (c : CraftContext) (child : Option CraftChildPlan)
    → measure_raw b c child ≢ panic
raw_calm b c none e = cc
raw_calm b c (some child) e = cc

raw_no_child :
    (b : RawBuilder) (c : CraftContext) (child : CraftChildPlan) (plan : CraftPlan)
    → measure_raw b c (some child) ≢ ok plan
raw_no_child b c child plan e = cc

eth_measured :
    (b : EthBuilder) (c : CraftContext) (child : Option CraftChildPlan) (plan : CraftPlan)
    → measure_eth b c child ≡ ok plan
    → (plan.total_len ≡ plan.layer_len + child_len child)
      × (plan.total_len ≤ usize_max)
      × (plan.layer_len ≡ 14)
eth_measured b c child plan e = ground arith

raw_measured :
    (b : RawBuilder) (c : CraftContext) (child : Option CraftChildPlan) (plan : CraftPlan)
    → measure_raw b c child ≡ ok plan
    → (child_len child ≡ 0) × (plan.layer_len ≡ length b.bytes) × (plan.total_len ≡ length b.bytes)
raw_measured b c none plan e = (refl, cc, cc)
raw_measured b c (some child) plan e = absurd (raw_no_child b c child plan e)

pub raw_layer-Lawful : (b : RawBuilder) → length b.bytes ≤ usize_max → Lawful (raw_layer b)
raw_layer-Lawful b fits = record {
  keeps = record { length_kept = λ c plan child bytes written e. ground arith };
  calm = raw_calm b;
  exact = λ c child plan e. omega (arith, raw_measured b c child plan e);
  writes = λ c child plan inner bytes e n.
      let same : (length bytes == length b.bytes) ≡ true =
        ground (arith, raw_measured b c child plan e) in
      (
        b.bytes,
        rw same refl,
        drop_all plan.layer_len b.bytes (omega (arith, raw_measured b c child plan e))
            ∙ sym (drop_all plan.layer_len bytes (omega (arith, raw_measured b c child plan e))),
      );
}

pub eth_layer-Lawful : (b : EthBuilder) → Lawful (eth_layer b)
eth_layer-Lawful b = record {
  keeps = record {
    length_kept = λ c plan child bytes written e.
        in_header-length 14 (set_fields (eth_fields b child)) bytes written e
          (λ room. set_fields-Keeps (eth_fields b child) 14 bytes (omega arith) room);
  };
  calm = λ c child e. ground arith;
  exact = λ c child plan e. ((eth_measured b c child plan e).0, (eth_measured b c child plan e).1);
  writes = λ c child plan inner bytes e n.
      let room : 14 ≤ length bytes = omega (arith, eth_measured b c child plan e) in
      let kept = set_fields-Keeps (eth_fields b inner) 14 bytes (omega arith) room in
      (
        set_fields (eth_fields b inner) bytes,
        in_header-ok 14 (set_fields (eth_fields b inner)) bytes room,
        rw (eth_measured b c child plan e).2 kept.behind,
      );
}
