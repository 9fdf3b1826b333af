-- ===== src/Mapping/Flow/Replies.antt =====
-- Both directions of a session get the same addresses: tools/maja-mergecap/src/map/flow.rs.
use maja.Base.{ℕ, ◌≡◌, sym, refl, inl, inr, Option, none, some, Option-cases}
use mathlib.Core.Path.{subst}
use maja.Mapping.{IpAddr, of_addr, Random, Nets}
use maja.Mapping.Alloc.Grow.{IfReturned, panicked, returned, of_returned}
use maja.Mapping.Session.{PacketInfo, Targets, FragKey, session}
use maja.Mapping.Session.Reply.{reply_of, session-reply_of}
use maja.Mapping.Flow.{FlowState, target_for, targets_for}
use maja.Mapping.Flow.Later.{Later, Later-trans, Again, Settles}
use maja.Mapping.Flow.Settles.{SteadyFor, target_for-Settles}

abbrev pub swapped : Targets → Targets
swapped targets = record { src = targets.dst; dst = targets.src }

module _ (n : Nets) (r : Random) where
  -- In a later state a call for a packet gives these targets.
  unfoldable pub Gives : ℕ → FlowState n.Net r.Rng → PacketInfo → Option FragKey → Targets → Type 0
  Gives group later info fragment targets =
      (next : FlowState n.Net r.Rng) × (targets_for n r later group info fragment
        ≡ some (targets, next))
      × Later n r group later next

  -- Two calls with known answers, the source first.
  Gives-both :
      (group : ℕ) (later : FlowState n.Net r.Rng) (info : PacketInfo) (fragment : Option FragKey)
      {src dst : Option IpAddr} {middle last : FlowState n.Net r.Rng}
      → target_for n r later group info.src (session info) fragment ≡ some (src, middle)
      → target_for n r middle group info.dst (session info) fragment ≡ some (dst, last)
      → Later n r group later middle
      → Later n r group middle last
      → Gives group later info fragment (record { src = src; dst = dst })
  unfolding Gives targets_for
  Gives-both group later info fragment {last = last} first second growth more =
      (last, rw (first, second, targets_for) refl, Later-trans n r group growth more)

  -- What both directions of a packet get in the states after it.
  unfoldable pub Both :
      ℕ → PacketInfo → FlowState n.Net r.Rng → Targets × FlowState n.Net r.Rng → Type 0
  Both group info before (targets, after) =
      Later n r group before after
      × ((later : FlowState n.Net r.Rng)
          → Later n r group after later
          → Gives group later info none targets
            × Gives group later (reply_of info) none (swapped targets))

  both :
      (group : ℕ) (state middle after : FlowState n.Net r.Rng) (info : PacketInfo)
      (src dst : Option IpAddr)
      → of_addr info.src ≡ of_addr info.dst
      → Settles n r group
          (λ s. target_for n r s group info.src (session info) none)
          state
          (src, middle)
      → Settles n r group
          (λ s. target_for n r s group info.dst (session info) none)
          middle
          (dst, after)
      → Both group info state (record { src = src; dst = dst }, after)
  unfolding Both Settles Again
  both group state middle after info src dst family (to_middle, again_src) (to_after, again_dst) = (
    Later-trans n r group to_middle to_after,
    λ later growth.
        let (at_src, src_is, src_growth) =
          again_src later (Later-trans n r group to_after growth) in
        let (at_dst, dst_is, dst_growth) =
          again_dst at_src (Later-trans n r group growth src_growth) in
        let (back_dst, back_is, back_growth) = again_dst later growth in
        let (back_src, reply_is, reply_growth) =
          again_src back_dst
            (Later-trans n r group to_after (Later-trans n r group growth back_growth)) in
        let same = sym (session-reply_of info family) in
        (
          Gives-both group later info none src_is dst_is src_growth dst_growth,
          Gives-both group later (reply_of info) none
              (subst (λ s. target_for n r later group info.dst s none ≡ some (dst, back_dst)) same
                back_is)
              (subst (λ s. target_for n r back_dst group info.src s none ≡ some (src, back_src))
                same reply_is)
              back_growth reply_growth,
        ),
  )

  pub targets_for-Both :
      (state : FlowState n.Net r.Rng) (group : ℕ) (info : PacketInfo)
      → of_addr info.src ≡ of_addr info.dst
      → SteadyFor n r state.cfg info.src
      → SteadyFor n r state.cfg info.dst
      → IfReturned (Both group info state) (targets_for n r state group info none)
  unfolding targets_for Both Settles Again
  targets_for-Both state group info family at_src at_dst =
      elim (Option-cases (target_for n r state group info.src (session info) none)) [
        | inl stopped ↦ rw (stopped, targets_for) panicked
        | inr ((src, middle), first) ↦
            let (to_middle, again_src) = of_returned (
              subst (IfReturned _) first
                (target_for-Settles n r state group info.src (session info) none at_src)) in
            elim (Option-cases (target_for n r middle group info.dst (session info) none)) [
              | inl stopped ↦ rw (first, stopped, targets_for) panicked
              | inr ((dst, after), second) ↦
                  let at_dst : SteadyFor n r middle.cfg info.dst =
                    subst (λ c. SteadyFor n r c info.dst) (sym to_middle.cfg) at_dst in
                  let settled = of_returned (
                    subst (IfReturned _) second
                      (target_for-Settles n r middle group info.dst (session info) none at_dst)) in
                  rw (first, second, targets_for)
                    (returned (
                      both group state middle after info src dst family (to_middle, again_src)
                        settled))
            ]
      ]
