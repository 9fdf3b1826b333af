-- ===== src/Mapping/Entry.antt =====
-- The rules of tools/maja-mergecap/src/map/entry.rs, and `MapEntry` of src/config.rs there. The network
-- of a single address, `IpNet::from`, is a parameter.
pub mod Longest
pub mod Compiled
use maja.Base.{ℕ, suc, Bool, true, false, Option, none, some, List, [], ◌∷◌, leb, if◌then◌else◌}
use maja.Mapping.{IpAddr, Nets}
use maja.Mapping.Alloc.{MapPolicy, sticky, unique}
use maja.Mapping.Pool.{Pool, from_nets}

pub data Target (Net : Type 0) : Type 0 where
  ip : IpAddr → Target Net
  net : Net → Target Net

pub data MapShape : Type 0 where
  fixed_shape mask_shape pool_shape : MapShape

pub record MapEntry (Net : Type 0) : Type 0 where
  pub from : Option Net
  pub to : Target Net
  pub shape : Option MapShape
  pub policy : Option MapPolicy

-- `MapEntry::shape`.
abbrev pub shape_of : {Net : Type 0} → Option MapShape → Target Net → MapShape
shape_of (some shape) _ = shape
shape_of none (ip _) = fixed_shape
shape_of none (net _) = pool_shape

pub data Action (Net : Type 0) : Type 0 where
  fixed : IpAddr → Action Net
  mask : Net → Action Net
  pool : Pool Net → MapPolicy → Action Net

pub record CompiledEntry (Net : Type 0) : Type 0 where
  pub from : Option Net
  pub action : Action Net

-- `policy.unwrap_or(default)`.
abbrev policy_or : Option MapPolicy → MapPolicy → MapPolicy
policy_or (some policy) default = policy
policy_or none default = default

-- `MapPolicy::is_stateful`.
abbrev pub is_stateful : MapPolicy → Bool
is_stateful sticky = true
is_stateful unique = true
is_stateful _ = false

module _ (n : Nets) where
  unfoldable pub compile_action : MapShape → Target n.Net → MapPolicy → Option (Action n.Net)
  compile_action fixed_shape (ip addr) policy = some (fixed addr)
  compile_action mask_shape (net to) policy = some (mask to)
  compile_action pool_shape (net to) policy = some (pool (from_nets n (to ∷ [])) policy)
  compile_action fixed_shape (net to) policy = none
  compile_action mask_shape (ip addr) policy = none
  compile_action pool_shape (ip addr) policy = none

  -- `CompiledEntry::compile`; `none` is its error.
  unfoldable pub compile_entry : MapEntry n.Net → MapPolicy → Option (CompiledEntry n.Net)
  unfolding compile_action
  compile_entry entry default =
      elim (compile_action (shape_of entry.shape entry.to) entry.to
        (policy_or entry.policy default)) [
          | none ↦ none
          | some action ↦ some (record { from = entry.from; action = action })
        ]

  -- `pool_len` of an entry.
  pub pool_len : Action n.Net → ℕ
  pool_len (fixed _) = 0
  pool_len (mask _) = 0
  pool_len (pool addrs _) = addrs.total

  pub from_len : Option n.Net → ℕ
  from_len none = 0
  from_len (some scope) = n.prefix_len scope

  insert_rule : CompiledEntry n.Net → List (CompiledEntry n.Net) → List (CompiledEntry n.Net)
  unfolding from_len
  insert_rule entry [] = entry ∷ []
  insert_rule entry (other ∷ rest) =
      let later = insert_rule entry rest in
      if leb (from_len other.from) (from_len entry.from)
      then entry ∷ other ∷ rest
      else other ∷ later

  -- `sort_entries`, a stable sort by the length of the prefix, the longest first.
  unfoldable pub sort_entries : List (CompiledEntry n.Net) → List (CompiledEntry n.Net)
  unfolding insert_rule
  sort_entries [] = []
  sort_entries (entry ∷ rest) = insert_rule entry (sort_entries rest)

  abbrev pub in_scope : Option n.Net → IpAddr → Bool
  in_scope none addr = true
  in_scope (some scope) addr = n.contains scope addr

  -- `classify` from an index on: the first entry whose scope has the address, and its index.
  unfoldable pub classify :
      ℕ → List (CompiledEntry n.Net) → IpAddr → Option (ℕ × CompiledEntry n.Net)
  classify i [] addr = none
  classify i (entry ∷ rest) addr =
      let later = classify (suc i) rest addr in
      if in_scope entry.from addr then some (i, entry) else later
