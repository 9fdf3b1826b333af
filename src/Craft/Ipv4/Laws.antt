-- ===== src/Craft/Ipv4/Laws.antt =====
-- src/packet/layer/ip/v4/craft.rs: the builder is a lawful layer, and its checksum is valid.
use maja.Base.{
  ℕ, ◌+◌, ◌≤◌, ◌≡◌, ◌≢◌, ◌-◌, ◌&&◌, get_elem?, refl, sym, ap, ◌∙◌, true, Option, none, some, List,
  ◌∷◌, arith, leb, length, take, length-take,
}
use maja.Protocol.{Protocol}
use maja.Context.{Layer}
use maja.Packet.{Packet, bytes_of}
use maja.Validate.{store, ipv4_calculate_checksum, ipv4_validate_checksum}
use maja.Validate.Store.{take-store, length-store}
use maja.Validate.Stored.{ipv4_validate_checksum-store}
use maja.Craft.{
  ok, panic, CraftContext, CraftChildPlan, CraftChild, CraftPlan, CraftLayer, build_in, child_len,
  checked_add_len, checked_u16_len,
}
use maja.Craft.Measured.{ok_of_bind, ok_inj, checked_add_len-ok, calm_bind, checked_add_len-calm}
use maja.Craft.Laws.{Lawful, All}
use maja.Craft.Compose.{build_in-Outermost}
use maja.Craft.Header.{Within, unwrap_or, Filled}
use maja.Craft.Udp.{match_length}
use maja.Craft.Udp.Laws.{match_length-ok, match_length-calm, IsU16}
use maja.Craft.Options.{
  header_len-ok, header_len-calm, fill_with_options-Filled, fill_with_options-length,
}
use maja.Craft.Ipv4.{
  Ipv4Builder, ipv4_header_len, measure_ipv4, ipv4_fields, ipv4_checksum, write_ipv4, ipv4_layer,
}

ipv4_measured :
    (b : Ipv4Builder) (c : CraftContext) (child : Option CraftChildPlan) (plan : CraftPlan)
    → IsU16 b.total_length
    → measure_ipv4 b c child ≡ ok plan
    → (plan.total_len ≡ plan.layer_len + child_len child)
      × (plan.total_len ≤ 0xffff)
      × (20 + length b.options ≤ plan.layer_len)
      × (20 ≤ plan.layer_len)
unfolding measure_ipv4
ipv4_measured b c child plan u e =
    let (len, e0, h0) = ok_of_bind _ (ipv4_header_len b) e in
    let (generated, e1, h1) =
      ok_of_bind _ (checked_add_len "ipv4" "total_length" len (child_len child)) h0 in
    let (total, e2, h2) =
      ok_of_bind _ (match_length "ipv4" "total_length" b.total_length generated) h1 in
    let (same, small) = match_length-ok "ipv4" "total_length" b.total_length generated total u e2 in
    let n = checked_add_len-ok "ipv4" "total_length" len (child_len child) generated e1 in
    let (w, o, lo, hi) =
      header_len-ok "ipv4" "ihl" "IHL must be at least 5" b.ihl b.options len e0 in
    ground (arith, ok_inj h2)

measure_ipv4-calm :
    (b : Ipv4Builder) (c : CraftContext) (child : Option CraftChildPlan)
    → measure_ipv4 b c child ≢ panic
unfolding measure_ipv4
measure_ipv4-calm b c child =
    calm_bind (ipv4_header_len b) _
      (header_len-calm "ipv4" "ihl" "IHL must be at least 5" b.ihl b.options)
      (λ len.
        calm_bind (checked_add_len "ipv4" "total_length" len (child_len child)) _
          (checked_add_len-calm "ipv4" "total_length" len (child_len child))
          (λ generated.
            calm_bind (match_length "ipv4" "total_length" b.total_length generated) _
              (match_length-calm "ipv4" "total_length" b.total_length generated) (λ total e. cc)))

ipv4_fields-Within :
    (b : Ipv4Builder) (child : Option CraftChild) (n total k : ℕ)
    → 20 ≤ k
    → Within k (ipv4_fields b child n total)
ipv4_fields-Within b child n total k h = omega arith

write_ipv4-Filled :
    (b : Ipv4Builder) (c : CraftContext) (plan : CraftPlan) (child : Option CraftChild)
    (bytes : List ℕ)
    → plan.total_len ≤ 0xffff
    → 20 + length b.options ≤ plan.layer_len
    → plan.layer_len ≤ length bytes
    → Filled plan.layer_len 10
        (ipv4_checksum b plan.layer_len)
        bytes
        (write_ipv4 b c plan child bytes)
unfolding write_ipv4
write_ipv4-Filled b c plan child bytes small o room =
    let n : ℕ = plan.layer_len in
    let e : leb plan.total_len 0xffff ≡ true = ground arith in
    rw e (
      fill_with_options-Filled b.options n 10 (ipv4_fields b child n plan.total_len)
        (ipv4_checksum b n) bytes o (ipv4_fields-Within b child n plan.total_len n (omega arith))
        (omega arith) room)

write_ipv4-length :
    (b : Ipv4Builder) (c : CraftContext) (plan : CraftPlan) (child : Option CraftChild)
    (bytes written : List ℕ)
    → write_ipv4 b c plan child bytes ≡ ok written
    → length written ≡ length bytes
unfolding write_ipv4
write_ipv4-length b c plan child bytes written e =
    let n : ℕ = plan.layer_len in
    let (total, e1, e2) = ok_of_bind _ (checked_u16_len "ipv4" "total_length" plan.total_len) e in
    fill_with_options-length b.options n 10 (ipv4_fields b child n total) (ipv4_checksum b n) bytes
      written (λ h. (ipv4_fields-Within b child n total n h, omega arith)) e2

pub ipv4_layer-Lawful : (b : Ipv4Builder) → IsU16 b.total_length → Lawful (ipv4_layer b)
ipv4_layer-Lawful b u = record {
  keeps = record { length_kept = write_ipv4-length b };
  calm = measure_ipv4-calm b;
  exact = λ c child plan e.
      let (total, small, o, lo) = ipv4_measured b c child plan u e in (total, omega arith);
  writes = λ c child plan inner bytes e n.
      let (total, small, o, lo) = ipv4_measured b c child plan u e in
      let f = write_ipv4-Filled b c plan inner bytes small o (omega arith) in
      (_, f.result, f.kept_all.behind);
}

prefix_bytes :
    (p : Protocol) (n : ℕ) (bytes : List ℕ)
    → n ≤ length bytes
    → bytes_of (record { protocol = p; offset = 0; len = n }) bytes ≡ some (take n bytes)
prefix_bytes p n bytes room =
    let e : 0 + n ≡ n = omega arith in
    let s : n - 0 ≡ n = omega arith in
    let inside : (leb 0 n && leb n (length bytes)) ≡ true = ground arith in
    rw e (rw (inside, s) refl)

-- A packet that is built with an IPv4 builder outermost around any lawful layers has a first layer
-- that lies in the packet, covers the fixed header and the options, and has a valid header
-- checksum, if the caller gives no checksum and a total length that is a u16, if any.
pub build_in-ipv4 :
    (b : Ipv4Builder) (c : CraftContext) (ls : List CraftLayer) (p : Packet)
    → IsU16 b.total_length
    → b.checksum ≡ none
    → All Lawful ls
    → build_in c (ipv4_layer b ∷ ls) ≡ ok p
    → (first : Layer) × (header : List ℕ) × (get_elem? p.layers 0 ≡ some first)
      × (bytes_of first p.bytes ≡ some header)
      × (20 + length b.options ≤ length header)
      × (ipv4_validate_checksum header ≡ true)
build_in-ipv4 b c ls p u auto k h =
    let o = build_in-Outermost c (ipv4_layer b) ls p (ipv4_layer-Lawful b u, k) h in
    let (total, small, opt, lo) = ipv4_measured b c o.child_plan o.plan u o.is_measured in
    let n : ℕ = o.plan.layer_len in
    let f = write_ipv4-Filled b c o.plan o.child o.before small opt (omega (arith, o.size)) in
    let value : ℕ = ipv4_calculate_checksum (take n f.filled) in
    let e : store 10 value f.filled ≡ p.bytes =
      ap (λ (given : Option ℕ). store 10 (unwrap_or given value) f.filled) (sym auto)
      ∙ ok_inj (sym f.result ∙ o.is_written) in
    let room : n ≤ length f.filled = omega (arith, f.kept.same_length, o.size) in
    let len : length (take n f.filled) ≡ n = omega (arith, length-take n f.filled) in
    let fits : n ≤ length p.bytes =
      omega (arith, ap length e, length-store 10 value f.filled (omega arith)) in
    let header : take n p.bytes ≡ store 10 value (take n f.filled) =
      ap (take n) (sym e) ∙ take-store 10 n value f.filled (omega arith) room in
    (
      record { protocol = Protocol.ipv4; offset = 0; len = n },
      take n p.bytes,
      o.first,
      prefix_bytes Protocol.ipv4 n p.bytes fits,
      omega (arith, length-take n p.bytes),
      rw header (ipv4_validate_checksum-store (take n f.filled) (omega arith)),
    )
