-- ===== src/Mapping/Entry/Compiled.antt =====
-- What `CompiledEntry::compile` of tools/maja-mergecap/src/map/entry.rs makes of a rule.
use maja.Base.{◌≡◌, ◌∙◌, ap, inl, inr, Option, none, some, [], ◌∷◌, Option-cases}
use mathlib.Core.Path.{subst}
use maja.Mapping.{Nets}
use maja.Mapping.Alloc.{MapPolicy}
use maja.Mapping.Alloc.Grow.{Full}
use maja.Mapping.Entry.{
  MapEntry, Target, ip, net, MapShape, fixed_shape, mask_shape, pool_shape, shape_of, pool,
  CompiledEntry, compile_entry, compile_action, policy_or,
}
use maja.Mapping.Pool.{Pool, from_nets}
use maja.Mapping.Pool.Single.{addr_at-one}

module _ (n : Nets) where
  unfoldable pub Compiled : CompiledEntry n.Net → Type 0
  Compiled entry =
      (rule : MapEntry n.Net) × (default : MapPolicy) × (compile_entry n rule default ≡ some entry)

  compile_action-one :
      (shape : MapShape) (target : Target n.Net) (policy : MapPolicy) {addrs : Pool n.Net}
      {own : MapPolicy}
      → compile_action n shape target policy ≡ some (pool addrs own)
      → (one : n.Net) × (from_nets n (one ∷ []) ≡ addrs)
  unfolding compile_action
  compile_action-one fixed_shape (ip addr) policy h = absurd (cc)
  compile_action-one mask_shape (net to) policy h = absurd (cc)
  compile_action-one pool_shape (net to) policy h = (to, cc)
  compile_action-one fixed_shape (net to) policy h = absurd (cc)
  compile_action-one mask_shape (ip addr) policy h = absurd (cc)
  compile_action-one pool_shape (ip addr) policy h = absurd (cc)

  pub Compiled-Full :
      (entry : CompiledEntry n.Net)
      → Compiled entry
      → (addrs : Pool n.Net) (policy : MapPolicy) → entry.action ≡ pool addrs policy
      → Full n addrs
  unfolding Compiled compile_entry Full
  Compiled-Full entry (rule, default, compiled) addrs policy is =
      let shape = shape_of rule.shape rule.to in
      let own = policy_or rule.policy default in
      elim (Option-cases (compile_action n shape rule.to own)) [
        | inl refused ↦
            let nothing : none ≡ some entry = rw (refused, compile_entry) at compiled in absurd (cc)
        | inr (action, made) ↦
            let whole : some (record { from = rule.from; action = action }) ≡ some entry =
              rw (made, compile_entry) at compiled in
            let same : action ≡ entry.action =
              ap
                (λ (o : Option (CompiledEntry n.Net)). elim o [ none ↦ action | some e ↦ e.action ])
                whole in
            let (one, from_one) =
              compile_action-one shape rule.to own (made ∙ ap some (same ∙ is)) in
            subst (Full n) from_one (addr_at-one n one)
      ]
