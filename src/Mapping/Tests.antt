-- ===== src/Mapping/Tests.antt =====
-- The mapping of tools/maja-mergecap/src/map at work, on two networks and a generator that counts.
use native.Mathlib.Nat
use maja.Base.{
  ℕ, ◌+◌, ◌-◌, ◌*◌, ◌/◌, ◌%◌, ◌^◌, ◌≤◌, ◌<◌, ◌≡◌, ◌≢◌, refl, Bool, true, false, Option, none, some,
  List, [], ◌∷◌, ◌==◌, arith,
}
use maja.Base.Order.{Acc-below, lt_wf}
use maja.Mapping.{
  Family, v4, v6, IpAddr, ipv4, ipv6, Random, InRange, Nets, Networks, host_bits, bits,
}
use maja.Mapping.Hash.{splitmix64, derived_rng}
use maja.Mapping.Pool.{
  Pool, usable, offset_of, host_count, host_at, net_le, insert_net, sort_nets, dedup_after, dedup,
  distinct_nets, accumulate, from_nets, net_of, addr_at, choose,
}
use maja.Mapping.Sequence.{gcd_loop, gcd, find_step, new_sequence, next_index}
use maja.Mapping.Sequence.Walk.{Visits, new_sequence-Visits}
use maja.Mapping.Session.{AllocId, of_address, same_identity, same_id}
use maja.Mapping.Alloc.{AllocSlot, new_sequences, new_slot, note_wrap, remember, unique_target}
use maja.Mapping.Alloc.{random, unique, hash, per_group}
use maja.Mapping.Entry.{
  MapEntry, net, pool, CompiledEntry, compile_entry, compile_action, sort_entries, classify,
}
use maja.Mapping.Entry.Compiled.{Compiled}
use maja.Mapping.Entry.Longest.{All, empty, each, Chosen, classify-sort_entries-Chosen}
use maja.Mapping.Flow.{
  targets, rewrite, FlowCfg, FlowState, targets_for, needs_alias, draws_per_packet,
}
use maja.Mapping.Flow.Fragments.{targets-fragments, here, next}
use maja.Mapping.Flow.Directions.{targets_for-directions}
use maja.Mapping.Flow.Fresh.{new_flow, new_flow-Prepared}
use maja.Mapping.Flow.Replies.{Both}
use maja.Mapping.Flow.Returns.{Prepared}
use maja.Mapping.Pool.Located.{At, hosts, addr_at-from_nets}
use maja.Mapping.Session.{FragKey, PacketInfo, Targets, by_session}
use maja.Mapping.Alloc.Given.{given}
use maja.Mapping.Alloc.Distinct.{fresh, own_unique}
use maja.Mapping.Alloc.Unique.{unique_target-separates}

abbrev pub counting : Random
counting = record {
  Rng = ℕ;
  seed_from_u64 = λ seed. seed;
  random_range = λ low high rng. (low + rng % (high - low), rng + 1);
}

counting-InRange : InRange counting
counting-InRange low high rng h =
    let below : rng % (high - low) < high - low = Nat.mod-lt rng (omega arith) in
    (omega arith, omega arith)

pub data TestNet : Type 0 where
  lan office far : TestNet

abbrev pub net_family : TestNet → Family
net_family lan = v4
net_family office = v4
net_family far = v6

-- 10.0.0.0/29, 192.168.1.0/24 and 2001:db8::/112.
abbrev pub net_block : TestNet → ℕ
net_block lan = 0x0a000000 / 8
net_block office = 0xc0a80100 / 256
net_block far = 0x20010db8000000000000000000000000 / 65536

abbrev pub net_free : TestNet → ℕ
net_free lan = 3
net_free office = 8
net_free far = 16

abbrev pub net_len : TestNet → ℕ
net_len lan = 29
net_len office = 24
net_len far = 112

abbrev pub net_contains : TestNet → IpAddr → Bool
net_contains lan (ipv4 a) = a / 8 == net_block lan
net_contains office (ipv4 a) = a / 256 == net_block office
net_contains far (ipv6 a) = a / 65536 == net_block far
net_contains _ _ = false

abbrev pub net_same : TestNet → TestNet → Bool
net_same a b = net_block a == net_block b

abbrev pub test_nets : Nets
test_nets = record {
  Net = TestNet;
  of_net = net_family;
  network = λ net. net_block net * 2 ^ net_free net;
  prefix_len = net_len;
  hostmask = λ net. 2 ^ net_free net - 1;
  contains = net_contains;
  same_net = net_same;
}

net_fits : (net : TestNet) → net_len net ≤ bits (net_family net)
net_fits lan = omega arith
net_fits office = omega arith
net_fits far = omega arith

net_aligned :
    (net : TestNet) → net_block net * 2 ^ net_free net ≡ net_block net * 2 ^ host_bits test_nets net
net_aligned lan = refl
net_aligned office = refl
net_aligned far = refl

net_ends :
    (net : TestNet)
    → net_block net * 2 ^ net_free net + 2 ^ host_bits test_nets net ≤ 2 ^ bits (net_family net)
net_ends lan = omega arith
net_ends office = omega arith
net_ends far = omega arith

net_masked : (net : TestNet) → 2 ^ net_free net - 1 ≡ 2 ^ host_bits test_nets net - 1
net_masked lan = refl
net_masked office = refl
net_masked far = refl

test_nets-Networks : Networks test_nets
test_nets-Networks = record {
  fits = net_fits;
  block = net_block;
  aligned = net_aligned;
  ends = net_ends;
  masked = net_masked;
}

new_sequence-Visits_example : Visits 6 (new_sequence counting 5 6).0
new_sequence-Visits_example =
    new_sequence-Visits counting counting-InRange 5 6 (omega arith) (omega arith)

abbrev first_id : AllocId
first_id = record { entry = 1; identity = of_address; addr = ipv4 7 }

abbrev second_id : AllocId
second_id = record { entry = 1; identity = of_address; addr = ipv4 8 }

abbrev start_slot : AllocSlot ℕ
start_slot = new_slot counting 1 2 (0 ∷ 6 ∷ [])

walk_runs : (new_sequence counting 5 6).0 ≡ record { start = 0; step = 5; drawn = 0 }
unfolding new_sequence find_step gcd gcd_loop lt_wf Acc-below
walk_runs = refl

abbrev slot_from : Option (Option IpAddr × AllocSlot ℕ) → AllocSlot ℕ
slot_from (some (_, slot)) = slot
slot_from none = start_slot

abbrev addr_from : Option (Option IpAddr × AllocSlot ℕ) → IpAddr
addr_from (some (some addr, _)) = addr
addr_from _ = ipv4 0

abbrev lan_pool : Pool TestNet
lan_pool = from_nets test_nets (lan ∷ [])

abbrev first_slot : AllocSlot ℕ
first_slot = slot_from (unique_target test_nets counting start_slot first_id lan_pool)

abbrev second_slot : AllocSlot ℕ
second_slot = slot_from (unique_target test_nets counting first_slot second_id lan_pool)

abbrev first_addr : IpAddr
first_addr = addr_from (unique_target test_nets counting start_slot first_id lan_pool)

abbrev second_addr : IpAddr
second_addr = addr_from (unique_target test_nets counting first_slot second_id lan_pool)

first_request :
    unique_target test_nets counting start_slot first_id lan_pool
    ≡ some (some first_addr, first_slot)
unfolding new_slot new_sequences new_sequence find_step gcd gcd_loop lt_wf Acc-below next_index
    splitmix64 derived_rng unique_target note_wrap remember usable offset_of host_count host_at
    net_le insert_net sort_nets dedup_after dedup distinct_nets accumulate from_nets net_of addr_at
    same_id same_identity
first_request = refl

second_request :
    unique_target test_nets counting first_slot second_id lan_pool
    ≡ some (some second_addr, second_slot)
unfolding new_slot new_sequences new_sequence find_step gcd gcd_loop lt_wf Acc-below next_index
    splitmix64 derived_rng unique_target note_wrap remember usable offset_of host_count host_at
    net_le insert_net sort_nets dedup_after dedup distinct_nets accumulate from_nets net_of addr_at
    same_id same_identity
second_request = refl

unique_target-separates_example : first_addr ≢ second_addr
unfolding new_slot new_sequences new_sequence find_step gcd gcd_loop lt_wf Acc-below next_index
    splitmix64 derived_rng unique_target note_wrap remember usable offset_of host_count host_at
    net_le insert_net sort_nets dedup_after dedup distinct_nets accumulate from_nets net_of addr_at
    same_id same_identity given
unique_target-separates_example =
    unique_target-separates test_nets test_nets-Networks counting counting-InRange lan (omega arith)
      (omega arith) 1 2 (0 ∷ 6 ∷ []) 1 refl second_slot
      (own_unique (own_unique fresh first_id refl first_request) second_id refl second_request)
      (omega arith) first_id second_id refl refl (λ same. cc) first_addr second_addr refl refl

-- Clients of the office get addresses of the small network, one each; all others are hashed.
abbrev office_rule : MapEntry TestNet
office_rule = record { from = some office; to = net lan; shape = none; policy = none }

abbrev other_rule : MapEntry TestNet
other_rule = record { from = none; to = net office; shape = none; policy = some hash }

abbrev office_entry : CompiledEntry TestNet
office_entry = record { from = some office; action = pool lan_pool unique }

abbrev other_entry : CompiledEntry TestNet
other_entry = record { from = none; action = pool (from_nets test_nets (office ∷ [])) hash }

abbrev test_entries : List (CompiledEntry TestNet)
test_entries = office_entry ∷ other_entry ∷ []

test_entries-Compiled : All test_nets (Compiled test_nets) test_entries
unfolding Compiled compile_entry compile_action
test_entries-Compiled = each (office_rule, unique, refl) (each (other_rule, unique, refl) empty)

abbrev test_cfg : FlowCfg TestNet
test_cfg = record {
  key = by_session;
  entries = test_entries;
  exclude = [];
  protocols = record { any = true; set = λ _. false };
  fragments = true;
}

abbrev test_flow : FlowState TestNet ℕ
test_flow = new_flow test_nets counting test_cfg 3 4 2 per_group none

abbrev test_packet : PacketInfo
test_packet = record {
  src = ipv4 0xc0a80117;
  dst = ipv4 0xcb007150;
  proto = 6;
  src_port = 40000;
  dst_port = 80;
  has_ports = true;
  fragment = none;
}

targets_for-directions_example :
    (targets : Targets) × (after : FlowState TestNet ℕ) × (targets_for test_nets counting test_flow
        1 test_packet none
      ≡ some (targets, after))
    × Prepared test_nets counting 1 after
    × Both test_nets counting 1 test_packet test_flow (targets, after)
unfolding needs_alias draws_per_packet classify new_flow
targets_for-directions_example =
    targets_for-directions test_nets counting test_flow 1 test_packet
      (new_flow-Prepared test_nets counting test_cfg 3 4 2 1 per_group (omega arith))
      test_entries-Compiled refl refl

abbrev unsorted_entries : List (CompiledEntry TestNet)
unsorted_entries = other_entry ∷ office_entry ∷ []

classify-sort_entries-Chosen_example :
    Chosen test_nets unsorted_entries
      (sort_entries test_nets unsorted_entries)
      (ipv4 0xc0a80117)
      0
      (classify test_nets 0 (sort_entries test_nets unsorted_entries) (ipv4 0xc0a80117))
classify-sort_entries-Chosen_example =
    classify-sort_entries-Chosen test_nets unsorted_entries (ipv4 0xc0a80117)

-- Networks that are given twice and out of order.
abbrev test_list : List TestNet
test_list = office ∷ lan ∷ office ∷ []

addr_at-from_nets_example :
    (one : TestNet) × (j : ℕ) × At test_nets
      (distinct_nets test_nets test_list)
      (7 % hosts test_nets (distinct_nets test_nets test_list))
      one
      j
    × (addr_at test_nets (from_nets test_nets test_list) 7 ≡ some (host_at test_nets one j))
unfolding hosts distinct_nets sort_nets insert_net net_le dedup dedup_after host_count usable
addr_at-from_nets_example = addr_at-from_nets test_nets test_list 7 (omega arith) (omega arith)

-- A flow map that draws for every packet, and the fragments of a datagram.
abbrev drawing_cfg : FlowCfg TestNet
drawing_cfg = record {
  key = by_session;
  entries = record { from = none; action = pool (from_nets test_nets (lan ∷ [])) random } ∷ [];
  exclude = [];
  protocols = record { any = true; set = λ _. false };
  fragments = true;
}

abbrev drawing_flow : ℕ → List (FragKey × Targets) → FlowState TestNet ℕ
drawing_flow rng fragments = record {
  cfg = drawing_cfg;
  hash_seed = 3;
  groups = record { rng = rng; fragments = fragments } ∷ [];
  allocation = none;
  warned_unmatched = false;
}

abbrev datagram_key : FragKey
datagram_key = record { src = ipv4 0xc0a80117; dst = ipv4 0xcb007150; proto = 17; id = 7 }

abbrev first_fragment : PacketInfo
first_fragment = record {
  src = ipv4 0xc0a80117;
  dst = ipv4 0xcb007150;
  proto = 17;
  src_port = 40000;
  dst_port = 53;
  has_ports = true;
  fragment = some datagram_key;
}

abbrev second_fragment : PacketInfo
second_fragment = record first_fragment { src_port = 0; dst_port = 0; has_ports = false }

abbrev first_targets : Targets
first_targets = record { src = some (ipv4 0x0a000005); dst = some (ipv4 0x0a000006) }

abbrev other_targets : Targets
other_targets = record { src = some (ipv4 0x0a000001); dst = some (ipv4 0x0a000002) }

first_drawn :
    targets test_nets counting (drawing_flow 4 []) 0 first_fragment
    ≡ some (first_targets, drawing_flow 6 ((datagram_key, first_targets) ∷ []))
unfolding targets needs_alias classify from_nets choose
first_drawn = refl

other_drawn :
    rewrite test_nets counting
      (drawing_flow 6 ((datagram_key, first_targets) ∷ []))
      0
      (some test_packet)
    ≡ some ((other_targets, true), drawing_flow 8 ((datagram_key, first_targets) ∷ []))
unfolding rewrite classify from_nets choose
other_drawn = refl

targets-fragments_example :
    targets test_nets counting
      (drawing_flow 8 ((datagram_key, first_targets) ∷ []))
      0
      second_fragment
    ≡ some (first_targets, drawing_flow 8 ((datagram_key, first_targets) ∷ []))
unfolding needs_alias classify
targets-fragments_example =
    targets-fragments test_nets counting (drawing_flow 4 [])
      (drawing_flow 6 ((datagram_key, first_targets) ∷ []))
      (drawing_flow 8 ((datagram_key, first_targets) ∷ [])) 0 first_fragment second_fragment
      datagram_key first_targets (refl, refl, refl, refl) refl refl first_drawn
      (next 0 (some test_packet) (other_targets, true) here other_drawn)
