-- ===== src/Mapping/Direct.antt =====
-- `DirectMaps` of tools/maja-mergecap/src/map/entry.rs: rules that draw for each packet and keep no
-- state but the generator. `IpNet::from`, the network of a single address, is a parameter.
pub mod Applies
use maja.Base.{ℕ, Bool, true, false, ◌||◌, Option, none, some, List, [], ◌∷◌, ◌++◌, if◌then◌else◌}
use maja.Field.{whole}
use maja.Protocol.{Protocol}
use maja.Packet.{Packet}
use maja.Mapping.{Family, v4, v6, IpAddr, ipv4, ipv6, of_addr, Random, Nets}
use maja.Mapping.Alloc.{random}
use maja.Mapping.Entry.{
  Target, ip, net, MapEntry, Action, fixed, mask, pool, CompiledEntry, compile_entry, sort_entries,
}
use maja.Mapping.Pool.{Pool, from_nets, choose, mask_map}
use maja.Mapping.Envelope.{outer_ip_family, outer_viewer, address_v4, address_v6}
use maja.Mapping.Segment.{set_v4, set_v6}

pub record DirectionMap (Net : Type 0) : Type 0 where
  pub rules : List (CompiledEntry Net)
  pub merged_v4 : Pool Net
  pub merged_v6 : Pool Net

pub record DirectMaps (Net Rng : Type 0) : Type 0 where
  pub src_map : DirectionMap Net
  pub dst_map : DirectionMap Net
  pub rng : Rng

-- `merged[family.index()]`.
abbrev merged_of : {Net : Type 0} → DirectionMap Net → Family → Pool Net
merged_of direction v4 = direction.merged_v4
merged_of direction v6 = direction.merged_v6

module _ (n : Nets) where
  -- `Target::net`.
  abbrev net_of_target : (IpAddr → n.Net) → Target n.Net → n.Net
  net_of_target single (ip addr) = single addr
  net_of_target single (net to) = to

  -- The rules, and the networks of the entries without a scope, by their family.
  record Sorted : Type 0 where
    pub rules : List (CompiledEntry n.Net)
    pub nets_v4 : List n.Net
    pub nets_v6 : List n.Net

  abbrev add_net : Family → n.Net → Sorted → Sorted
  add_net v4 to sorted = record sorted { nets_v4 = to ∷ sorted.nets_v4 }
  add_net v6 to sorted = record sorted { nets_v6 = to ∷ sorted.nets_v6 }

  abbrev add_entry :
      (IpAddr → n.Net) → MapEntry n.Net → CompiledEntry n.Net → Option n.Net → Sorted → Sorted
  add_entry single entry compiled (some _) sorted = record sorted {
    rules = compiled ∷ sorted.rules;
  }
  add_entry single entry compiled none sorted =
      let to = net_of_target single entry.to in add_net (n.of_net to) to sorted

  -- The loop of `DirectionMap::new`; `none` is the error of `compile`.
  split_entries : (IpAddr → n.Net) → List (MapEntry n.Net) → Option Sorted
  unfolding compile_entry
  split_entries single [] = some (record { rules = []; nets_v4 = []; nets_v6 = [] })
  split_entries single (entry ∷ rest) = elim (compile_entry n entry random) [
    | none ↦ none
    | some compiled ↦ elim (split_entries single rest) [
      | none ↦ none
      | some sorted ↦ some (add_entry single entry compiled compiled.from sorted)
    ]
  ]

  -- `DirectionMap::new`.
  pub new_direction : (IpAddr → n.Net) → List (MapEntry n.Net) → Option (DirectionMap n.Net)
  unfolding split_entries sort_entries from_nets
  new_direction single entries = elim (split_entries single entries) [
    | none ↦ none
    | some sorted ↦ some (record {
      rules = sort_entries n sorted.rules;
      merged_v4 = from_nets n sorted.nets_v4;
      merged_v6 = from_nets n sorted.nets_v6;
    })
  ]

  abbrev pub scope_has : Option n.Net → IpAddr → Bool
  scope_has none addr = false
  scope_has (some scope) addr = n.contains scope addr

  pub find_rule : List (CompiledEntry n.Net) → IpAddr → Option (CompiledEntry n.Net)
  find_rule [] addr = none
  find_rule (rule ∷ rest) addr =
      let later = find_rule rest addr in if scope_has rule.from addr then some rule else later

module _ (n : Nets) (r : Random) where
  -- `DirectMaps::new`.
  pub new_direct :
      (IpAddr → n.Net)
      → List (MapEntry n.Net)
      → List (MapEntry n.Net)
      → List (MapEntry n.Net)
      → r.Rng
      → Option (DirectMaps n.Net r.Rng)
  unfolding new_direction
  new_direct single src_map ip_map dst_map rng = elim (new_direction n single (src_map ++ ip_map)) [
    | none ↦ none
    | some src ↦ elim (new_direction n single (dst_map ++ ip_map)) [
      | none ↦ none
      | some dst ↦ some (record { src_map = src; dst_map = dst; rng = rng })
    ]
  ]

  unfoldable pub act_direct : Action n.Net → IpAddr → r.Rng → Option IpAddr × r.Rng
  unfolding choose mask_map
  act_direct (fixed addr) _ rng = (some addr, rng)
  act_direct (mask to) addr rng = (mask_map n to addr, rng)
  act_direct (pool addrs _) _ rng = choose n r addrs rng

  -- `DirectionMap::target`.
  unfoldable pub direct_target : DirectionMap n.Net → IpAddr → r.Rng → Option IpAddr × r.Rng
  unfolding find_rule act_direct choose
  direct_target direction addr rng = elim (find_rule n direction.rules addr) [
    | some rule ↦ act_direct rule.action addr rng
    | none ↦ choose n r (merged_of direction (of_addr addr)) rng
  ]

  abbrev pub is_v4 : Option IpAddr → Bool
  is_v4 (some (ipv4 _)) = true
  is_v4 _ = false

  abbrev pub is_v6 : Option IpAddr → Bool
  is_v6 (some (ipv6 _)) = true
  is_v6 _ = false

  abbrev no_header : DirectMaps n.Net r.Rng → Packet → (Bool × Packet) × DirectMaps n.Net r.Rng
  no_header maps packet = ((false, packet), maps)

  -- What the viewer sees when the source is written.
  abbrev viewed_now : List ℕ → Option (List ℕ) → List ℕ
  viewed_now header none = header
  viewed_now header (some now) = now

  unfoldable pub direct_v4 :
      DirectMaps n.Net r.Rng → Packet → (Bool × Packet) × DirectMaps n.Net r.Rng
  unfolding outer_viewer direct_target set_v4
  direct_v4 maps packet = elim (outer_viewer packet Protocol.ipv4) [
    | none ↦ no_header maps packet
    | some header ↦
        let (src, rng) = direct_target maps.src_map (address_v4 12 header) maps.rng in
        let packet = set_v4 12 src packet in
        let header = viewed_now header (outer_viewer packet Protocol.ipv4) in
        let (dst, rng) = direct_target maps.dst_map (address_v4 16 header) rng in
        ((is_v4 src || is_v4 dst, set_v4 16 dst packet), record maps { rng = rng })
  ]

  unfoldable pub direct_v6 :
      DirectMaps n.Net r.Rng → Packet → (Bool × Packet) × DirectMaps n.Net r.Rng
  unfolding outer_viewer direct_target set_v6
  direct_v6 maps packet = elim (outer_viewer packet Protocol.ipv6) [
    | none ↦ no_header maps packet
    | some header ↦
        let (src, rng) = direct_target maps.src_map (address_v6 8 header) maps.rng in
        let packet = set_v6 8 src packet in
        let header = viewed_now header (outer_viewer packet Protocol.ipv6) in
        let (dst, rng) = direct_target maps.dst_map (address_v6 24 header) rng in
        ((is_v6 src || is_v6 dst, set_v6 24 dst packet), record maps { rng = rng })
  ]

  unfoldable pub direct_in :
      Option Family → DirectMaps n.Net r.Rng → Packet → (Bool × Packet) × DirectMaps n.Net r.Rng
  unfolding direct_v4 direct_v6
  direct_in (some v4) maps packet = direct_v4 maps packet
  direct_in (some v6) maps packet = direct_v6 maps packet
  direct_in none maps packet = no_header maps packet

  -- `DirectMaps::rewrite`: whether an address was written, and the packet.
  unfoldable pub direct_rewrite :
      DirectMaps n.Net r.Rng → Packet → (Bool × Packet) × DirectMaps n.Net r.Rng
  unfolding outer_ip_family direct_in
  direct_rewrite maps packet = direct_in (outer_ip_family packet) maps packet
