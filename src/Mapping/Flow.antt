-- ===== src/Mapping/Flow.antt =====
-- `FlowState` of tools/maja-mergecap/src/map/flow.rs: which address an endpoint gets. A packet is read
-- and written by its caller, warnings are only flags, and `none` stands for a panic where a result with
-- a state is an `Option`.
pub mod Later
pub mod Settles
pub mod Replies
pub mod Drawn
pub mod Returns
pub mod Directions
pub mod Fresh
pub mod Aliases
pub mod Fragments
use Prim.Native.Nat.{max}
use maja.Base.{
  ℕ, zero, suc, ◌+◌, ◌%◌, ◌^◌, Bool, true, false, ◌||◌, Option, none, some, List, [], ◌∷◌,
  get_elem?, set, ◌==◌, if◌then◌else◌,
}
use maja.Mapping.{Family, v4, v6, IpAddr, of_addr, Random, Nets}
use maja.Mapping.Alloc.{
  MapPolicy, random, sticky, unique, hash, AllocSlot, Allocation, MapSharing, new_allocation,
  slot_of, sticky_target, unique_target,
}
use maja.Mapping.Entry.{Action, fixed, mask, pool, CompiledEntry, classify, is_stateful, pool_len}
use maja.Mapping.Hash.{hash_index, derived_rng, map_rng_salt}
use maja.Mapping.Pool.{Pool, addr_at, choose, mask_map}
use maja.Mapping.Session.{
  MapKey, SessionId, FragKey, Targets, PacketInfo, session, identity, AllocId, same_fragment,
  same_family,
}

pub record ProtocolSet : Type 0 where
  pub any : Bool
  pub set : ℕ → Bool

abbrev pub allows : ProtocolSet → ℕ → Bool
allows protocols proto = protocols.any || protocols.set proto

pub record FlowCfg (Net : Type 0) : Type 0 where
  pub key : MapKey
  pub entries : List (CompiledEntry Net)
  pub exclude : List Net
  pub protocols : ProtocolSet
  pub fragments : Bool

pub record GroupState (Rng : Type 0) : Type 0 where
  pub rng : Rng
  pub fragments : List (FragKey × Targets)

pub record FlowState (Net Rng : Type 0) : Type 0 where
  pub cfg : FlowCfg Net
  pub hash_seed : ℕ
  pub groups : List (GroupState Rng)
  pub allocation : Option (Allocation Rng)
  pub warned_unmatched : Bool

abbrev pub lookup_fragment : FragKey → List (FragKey × Targets) → Option Targets
lookup_fragment key [] = none
lookup_fragment key ((other, targets) ∷ rest) =
    let later = lookup_fragment key rest in if same_fragment key other then some targets else later

module _ (n : Nets) where
  abbrev pub excluded : List n.Net → IpAddr → Bool
  excluded [] addr = false
  excluded (net ∷ rest) addr = n.contains net addr || excluded rest addr

  -- `FlowCfg::is_stateful`: whether an entry needs a table.
  abbrev keeps : Action n.Net → Bool
  keeps (pool _ policy) = is_stateful policy
  keeps _ = false

  pub needs_table : List (CompiledEntry n.Net) → Bool
  needs_table [] = false
  needs_table (entry ∷ rest) = keeps entry.action || needs_table rest

  abbrev pub draws : Action n.Net → Bool
  draws (pool _ random) = true
  draws _ = false

  -- Whether the entry of an address draws per packet.
  unfoldable pub draws_per_packet : FlowCfg n.Net → IpAddr → Bool
  draws_per_packet cfg addr = elim (classify n 0 cfg.entries addr) [
    | none ↦ false
    | some (_, entry) ↦ draws entry.action
  ]

  unfoldable pub needs_alias : FlowCfg n.Net → PacketInfo → Bool
  unfolding draws_per_packet
  needs_alias cfg info = draws_per_packet cfg info.src || draws_per_packet cfg info.dst

module _ (n : Nets) (r : Random) where
  abbrev pub Step : Type 0
  Step = Option (Option IpAddr × FlowState n.Net r.Rng)

  -- A random address, from the generator of the group.
  draw_random : FlowState n.Net r.Rng → ℕ → Pool n.Net → Step
  draw_random state group addrs = elim (get_elem? state.groups group) [
    | none ↦ none
    | some own ↦
        let (target, rng) = choose n r addrs own.rng in
        some (target, record state { groups = set state.groups group (record own { rng = rng }) })
  ]

  put_slot :
      FlowState n.Net r.Rng
      → Allocation r.Rng
      → ℕ
      → Option IpAddr × AllocSlot r.Rng
      → Option IpAddr × FlowState n.Net r.Rng
  put_slot state allocation group (target, slot) = (
    target,
    record state {
      allocation =
          some (record allocation { slots = set allocation.slots (slot_of allocation group) slot });
    },
  )

  pub draw_slot :
      AllocSlot r.Rng → AllocId → Pool n.Net → MapPolicy → Option (Option IpAddr × AllocSlot r.Rng)
  draw_slot slot id addrs sticky = some (sticky_target n r slot id addrs)
  draw_slot slot id addrs _ = unique_target n r slot id addrs

  -- An address from the table of the group.
  pub draw_stateful : FlowState n.Net r.Rng → ℕ → AllocId → Pool n.Net → MapPolicy → Step
  unfolding put_slot draw_slot
  draw_stateful state group id addrs policy = elim state.allocation [
    | none ↦ none
    | some allocation ↦ elim (get_elem? allocation.slots (slot_of allocation group)) [
      | none ↦ none
      | some slot ↦ elim (draw_slot slot id addrs policy) [
        | none ↦ none
        | some drawn ↦ some (put_slot state allocation group drawn)
      ]
    ]
  ]

  pub draw : FlowState n.Net r.Rng → ℕ → ℕ → AllocId → Pool n.Net → MapPolicy → Step
  unfolding draw_random draw_stateful
  draw state group entry id addrs random = draw_random state group addrs
  draw state group entry id addrs hash =
      some
        (addr_at n addrs (hash_index state.hash_seed entry id.addr id.identity addrs.total), state)
  draw state group entry id addrs sticky = draw_stateful state group id addrs sticky
  draw state group entry id addrs unique = draw_stateful state group id addrs unique

  pub act : FlowState n.Net r.Rng → ℕ → ℕ → AllocId → Action n.Net → Step
  unfolding draw
  act state group entry id (fixed ip) =
      some (if same_family (of_addr ip) (of_addr id.addr) then some ip else none, state)
  act state group entry id (mask to) = some (mask_map n to id.addr, state)
  act state group entry id (pool addrs policy) =
      let drawn = draw state group entry id addrs policy in
      if addrs.total == 0 then some (none, state) else drawn

  -- `target_for`: the address that an endpoint gets, `none` for one that stays.
  pub target_for : FlowState n.Net r.Rng → ℕ → IpAddr → Option SessionId → Option FragKey → Step
  unfolding act
  target_for state group addr session fragment =
      if excluded n state.cfg.exclude addr
      then some (none, state)
      else elim (classify n 0 state.cfg.entries addr) [
        | none ↦ some (none, record state { warned_unmatched = true })
        | some (entry, rule) ↦
            act state group entry
              (record {
                entry = entry % 2 ^ 32;
                identity = identity state.cfg.key session fragment;
                addr = addr;
              })
              rule.action
      ]

  -- `targets_for`: both endpoints, the source first.
  pub targets_for :
      FlowState n.Net r.Rng
      → ℕ
      → PacketInfo
      → Option FragKey
      → Option (Targets × FlowState n.Net r.Rng)
  unfolding target_for
  targets_for state group info fragment =
      elim (target_for state group info.src (session info) fragment) [
        | none ↦ none
        | some (src, state) ↦ elim (target_for state group info.dst (session info) fragment) [
          | none ↦ none
          | some (dst, state) ↦ some (record { src = src; dst = dst }, state)
        ]
      ]

  -- The targets of a datagram are drawn once and kept by its group.
  unfoldable pub aliased :
      FlowState n.Net r.Rng → ℕ → PacketInfo → FragKey → Option (Targets × FlowState n.Net r.Rng)
  unfolding targets_for
  aliased state group info fragment = elim (get_elem? state.groups group) [
    | none ↦ none
    | some own ↦ elim (lookup_fragment fragment own.fragments) [
      | some targets ↦ some (targets, state)
      | none ↦ elim (targets_for state group info (some fragment)) [
        | none ↦ none
        | some (targets, state) ↦ elim (get_elem? state.groups group) [
          | none ↦ none
          | some own ↦
              let kept = record own { fragments = (fragment, targets) ∷ own.fragments } in
              some (targets, record state { groups = set state.groups group kept })
        ]
      ]
    ]
  ]

  unfoldable pub targets :
      FlowState n.Net r.Rng → ℕ → PacketInfo → Option (Targets × FlowState n.Net r.Rng)
  unfolding aliased targets_for
  targets state group info = elim info.fragment [
    | none ↦ targets_for state group info none
    | some fragment ↦
        if state.cfg.fragments
        then (if needs_alias n state.cfg info
            then aliased state group info fragment
            else targets_for state group info (some fragment))
        else targets_for state group info none
  ]

  abbrev pub is_some : Option IpAddr → Bool
  is_some none = false
  is_some (some _) = true

  -- `rewrite`, of what was read of the packet: the targets to write, and whether there are any.
  unfoldable pub rewrite :
      FlowState n.Net r.Rng
      → ℕ
      → Option PacketInfo
      → Option ((Targets × Bool) × FlowState n.Net r.Rng)
  unfolding targets
  rewrite state group none = some ((record { src = none; dst = none }, false), state)
  rewrite state group (some info) =
      if allows state.cfg.protocols info.proto
      then elim (targets state group info) [
        | none ↦ none
        | some (drawn, state) ↦ some ((drawn, is_some drawn.src || is_some drawn.dst), state)
      ]
      else some ((record { src = none; dst = none }, false), state)
