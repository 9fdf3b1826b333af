-- ===== src/Mapping/Segment/Applied.antt =====
-- What `apply_targets` of tools/maja-mergecap/src/map/packet.rs does to an IPv4 packet.
use maja.Base.{
  ℕ, ◌+◌, ◌*◌, ◌^◌, ◌≤◌, ◌<◌, ◌≡◌, refl, sym, ap, ◌∙◌, inl, inr, true, Option, none, some, List,
  arith, length, take, drop,
}
use maja.Base.Words.{to_bytes, length-to_bytes}
use maja.Field.{FieldSpec, whole}
use maja.Protocol.{Protocol}
use maja.Context.{Layer}
use maja.Layers.{field}
use maja.Packet.{Packet}
use maja.Mapping.{IpAddr, ipv4, ipv6}
use maja.Mapping.Session.{Targets}
use maja.Mapping.Envelope.{bytes_in, outer_layer, outer_ip_family}
use maja.Mapping.Segment.{overwrite, set_octets, set_v4, apply_in, apply_targets}
use maja.Mapping.Segment.Overwrite.{
  Apart, take-drop-overwrite, length-overwrite, field-overwrite, field-overwrite_same,
  field-bytes_in,
}
use maja.Mapping.Fix.Writes.{Roomy, Ipv4Packet}

-- The address of an IPv4 header afterwards.
abbrev pub new_v4 : Option IpAddr → ℕ → ℕ
new_v4 (some (ipv4 addr)) old = addr
new_v4 _ old = old

-- An IPv4 address has 32 bits.
abbrev pub Narrow : Option IpAddr → Type 0
Narrow (some (ipv4 addr)) = addr < 2 ^ 32
Narrow _ = Unit

-- What stands from a place on is as before.
abbrev pub KeptBehind : ℕ → List ℕ → List ℕ → Type 0
KeptBehind place before bytes =
    (start n : ℕ) → place ≤ start → take n (drop start bytes) ≡ take n (drop start before)

-- One address is written, at `at` of the layer, and no other field of it.
pub record WroteAt (l : Layer) (at : ℕ) (target : Option IpAddr) (before after : Packet)
    : Type 0 where
  pub bytes : List ℕ
  pub is : after ≡ record before { bytes = bytes }
  pub same_len : length bytes ≡ length before.bytes
  pub value :
      Narrow target
      → field (whole 4) at (bytes_in bytes l)
        ≡ new_v4 target (field (whole 4) at (bytes_in before.bytes l))
  pub elsewhere :
      (spec : FieldSpec) (start : ℕ)
      → start + spec.size ≤ l.len
      → Apart start spec.size at 4
      → field spec start (bytes_in bytes l) ≡ field spec start (bytes_in before.bytes l)
  pub behind : KeptBehind (l.offset + l.len) before.bytes bytes

module _ (packet : Packet) (l : Layer) (here : outer_layer packet Protocol.ipv4 ≡ some l) (at : ℕ)
    (room : at + 4 ≤ l.len) (within : l.offset + l.len ≤ length packet.bytes) where
  kept-WroteAt :
      (target : Option IpAddr) → new_v4 target ≡ (λ old. old) → WroteAt l at target packet packet
  kept-WroteAt target same = record {
    bytes = packet.bytes;
    is = refl;
    same_len = refl;
    value =
        λ narrow. sym (ap (λ (f : ℕ → ℕ). f (field (whole 4) at (bytes_in packet.bytes l))) same);
    elsewhere = λ spec start h apart. refl;
    behind = λ start n h. refl;
  }

  offset_gap :
      (start size : ℕ) (octets : List ℕ)
      → length octets ≡ 4
      → Apart start size at 4
      → Apart (l.offset + start) size (l.offset + at) (length octets)
  offset_gap start size octets four (inl front) = inl (omega arith)
  offset_gap start size octets four (inr behind) = inr (omega arith)

  pub set_v4-WroteAt :
      (target : Option IpAddr) → WroteAt l at target packet (set_v4 at target packet)
  unfolding set_v4 set_octets
  set_v4-WroteAt none = kept-WroteAt none refl
  set_v4-WroteAt (some (ipv6 addr)) = kept-WroteAt (some (ipv6 addr)) refl
  set_v4-WroteAt (some (ipv4 addr)) =
      let octets = to_bytes true 4 addr in
      let four : length octets ≡ 4 = length-to_bytes true 4 addr in
      let bytes = overwrite (l.offset + at) octets packet.bytes in
      record {
        bytes = bytes;
        is = rw (here, set_v4, set_octets) refl;
        same_len = length-overwrite (l.offset + at) octets packet.bytes (omega arith);
        value = λ narrow.
            field-bytes_in (whole 4) at bytes l room
            ∙ field-overwrite_same 4 (l.offset + at) addr packet.bytes (omega arith) (omega arith);
        elsewhere = λ spec start h apart.
            field-bytes_in spec start bytes l h
            ∙ field-overwrite spec (l.offset + start) (l.offset + at) octets packet.bytes
                (omega arith) (offset_gap start spec.size octets four apart)
            ∙ sym (field-bytes_in spec start packet.bytes l h);
        behind = λ start n h.
            take-drop-overwrite start n (l.offset + at) octets packet.bytes (omega arith)
              (inr (omega arith));
      }

-- The packet afterwards: both addresses are the targets' where these have one that fits, and every
-- field in front of them and everything behind the header is as it was.
pub record Applied (packet : Packet) (l : Layer) (targets : Targets) (after : Packet) : Type 0 where
  pub bytes : List ℕ
  pub is : after ≡ record packet { bytes = bytes }
  pub same_len : length bytes ≡ length packet.bytes
  pub src :
      Narrow targets.src
      → field (whole 4) 12 (bytes_in bytes l)
        ≡ new_v4 targets.src (field (whole 4) 12 (bytes_in packet.bytes l))
  pub dst :
      Narrow targets.dst
      → field (whole 4) 16 (bytes_in bytes l)
        ≡ new_v4 targets.dst (field (whole 4) 16 (bytes_in packet.bytes l))
  pub front :
      (spec : FieldSpec) (start : ℕ)
      → start + spec.size ≤ 12
      → field spec start (bytes_in bytes l) ≡ field spec start (bytes_in packet.bytes l)
  pub behind : KeptBehind (l.offset + l.len) packet.bytes bytes

module _ (packet : Packet) (l : Layer) (four : Ipv4Packet packet l) (roomy : Roomy packet)
    (targets : Targets) where
  set_both-Applied : Applied packet l targets (set_v4 16 targets.dst (set_v4 12 targets.src packet))
  unfolding outer_layer
  set_both-Applied =
      let (long, within) = roomy Protocol.ipv4 l four.here in
      let one = set_v4-WroteAt packet l four.here 12 (omega arith) within targets.src in
      let same_one = one.same_len in
      let middle : Packet = record packet { bytes = one.bytes } in
      let two = set_v4-WroteAt middle l four.here 16 (omega arith) (omega arith) targets.dst in
      record {
        bytes = two.bytes;
        is = ap (set_v4 16 targets.dst) one.is ∙ two.is;
        same_len = two.same_len ∙ one.same_len;
        src = λ narrow.
            two.elsewhere (whole 4) 12 (omega arith) (inl (omega arith)) ∙ one.value narrow;
        dst = λ narrow.
            two.value narrow
            ∙ ap (new_v4 targets.dst)
                (one.elsewhere (whole 4) 16 (omega arith) (inr (omega arith)));
        front = λ spec start h.
            two.elsewhere spec start (omega arith) (inl (omega arith))
            ∙ one.elsewhere spec start (omega arith) (inl (omega arith));
        behind = λ start n h. two.behind start n h ∙ one.behind start n h;
      }

  pub apply_targets-Applied : Applied packet l targets (apply_targets targets packet)
  unfolding apply_targets apply_in
  apply_targets-Applied = rw (four.family, apply_targets, apply_in) set_both-Applied

  -- It is still an IPv4 packet with the same layers.
  pub apply_targets-Ipv4Packet : Ipv4Packet (apply_targets targets packet) l
  unfolding outer_ip_family outer_layer
  apply_targets-Ipv4Packet =
      let applied = apply_targets-Applied in
      rw applied.is (record {
        family = four.family;
        here = four.here;
        exact =
            ap (λ (n : ℕ). n * 4)
              (applied.front (record { size = 1; mask = 0x0F; shift = 0 }) 0 (omega arith))
            ∙ four.exact;
      })

  pub apply_targets-Roomy : Roomy (apply_targets targets packet)
  unfolding outer_layer
  apply_targets-Roomy =
      let applied = apply_targets-Applied in
      let same = applied.same_len in
      rw applied.is (λ p t there. let (long, inside) = roomy p t there in (long, omega arith))
