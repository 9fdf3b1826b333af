-- ===== src/Craft/Datagram.antt =====
-- An Ethernet frame with an IPv4 packet with a UDP datagram: `eth!() / ipv4!() / udp!() / …` of
-- src/packet/craft.rs, whose layers pass the addresses inwards and their bytes outwards.
use maja.Base.{
  ℕ, ◌+◌, ◌≡◌, refl, sym, ap, ◌∙◌, true, false, ◌==◌, Option, none, some, List, [], ◌∷◌, map, arith,
  drop, drop-drop, get_elem?,
}
use maja.Context.{Layer}
use maja.Packet.{Packet}
use maja.Validate.{stored, udp_validate_checksum_ipv4}
use maja.Craft.{ok, CraftLayer, build, default_context, with_ipv4}
use maja.Craft.Laws.{Lawful, All}
use maja.Craft.Compose.{build_in-Around, build_in-Outermost, shift}
use maja.Craft.Raw.{EthBuilder, eth_layer, eth_layer-Lawful}
use maja.Craft.Ipv4.{Ipv4Builder, ipv4_layer, effective}
use maja.Craft.Ipv4.Laws.{ipv4_layer-Lawful}
use maja.Craft.Udp.{UdpBuilder, udp_layer}
use maja.Craft.Udp.Laws.{IsU16, udp_layer-Lawful, build_in-udp}

first-map :
    (f : Layer → Layer) (ls : List Layer) (l : Layer)
    → get_elem? ls 0 ≡ some l
    → get_elem? (map f ls) 0 ≡ some (f l)
first-map f [] l h = cc
first-map f (x ∷ xs) l h = ap (λ (o : Option Layer). elim o [ none ↦ none | some y ↦ some (f y) ]) h

-- In a frame that is built of Ethernet, IPv4 and UDP builders around any lawful layers, the third
-- layer is where the datagram starts, and its checksum is valid for the addresses that the IPv4
-- builder writes and is not the zero that stands for no checksum, if the caller gives none, and
-- the length fields that the caller gives are u16s.
pub build-datagram :
    (e : EthBuilder) (i : Ipv4Builder) (u : UdpBuilder) (ls : List CraftLayer) (p : Packet)
    → IsU16 i.total_length
    → IsU16 u.udp_length
    → u.checksum ≡ none
    → All Lawful ls
    → build (eth_layer e ∷ ipv4_layer i ∷ udp_layer u ∷ ls) ≡ ok p
    → (l : Layer) × (get_elem? p.layers 2 ≡ some l)
      × (udp_validate_checksum_ipv4 (effective i.src) (effective i.dst) (drop l.offset p.bytes)
          ≡ true)
      × ((stored 6 (drop l.offset p.bytes) == 0) ≡ false)
build-datagram e i u ls p hi hu auto k h =
    let lawful_udp : All Lawful (udp_layer u ∷ ls) = (udp_layer-Lawful u hu, k) in
    let lawful_ipv4 : All Lawful (ipv4_layer i ∷ udp_layer u ∷ ls) =
      (ipv4_layer-Lawful i hi, lawful_udp) in
    let outer =
      build_in-Around default_context (eth_layer e) (ipv4_layer i) (udp_layer u ∷ ls) p
        (eth_layer-Lawful e, lawful_ipv4) h in
    let q = outer.inner in
    let middle =
      build_in-Around default_context (ipv4_layer i) (udp_layer u) ls q lawful_ipv4
        outer.built_inner in
    let r = middle.inner in
    let c = with_ipv4 default_context (effective i.src) (effective i.dst) in
    let o = build_in-Outermost c (udp_layer u) ls r lawful_udp middle.built_inner in
    let n = outer.header_len in
    let m = middle.header_len in
    let behind : drop (n + (m + 0)) p.bytes ≡ r.bytes =
      sym (drop-drop n (m + 0) (n + (m + 0)) p.bytes refl)
      ∙ ap (drop (m + 0)) outer.behind
      ∙ ap (λ (s : ℕ). drop s q.bytes) (omega arith)
      ∙ middle.behind in
    let checked =
      build_in-udp u (record { src = effective i.src; dst = effective i.dst }) ls r hu auto k
        middle.built_inner in
    (
      _,
      ap (λ (t : List Layer). get_elem? t 2) outer.table
          ∙ ap (λ (t : List Layer). get_elem? (map (shift n) t) 1) middle.table
          ∙ first-map (shift n) (map (shift m) r.layers) _ (first-map (shift m) r.layers _ o.first),
      rw behind checked.0,
      rw behind checked.1,
    )
