-- ===== src/Mapping/Flow/Directions.antt =====
-- A flow map as it is compiled gives both directions of a session the same addresses:
-- tools/maja-mergecap/src/map/flow.rs.
use maja.Base.{ℕ, ◌≡◌, false, none, some}
use mathlib.Core.Path.{subst}
use maja.Mapping.{IpAddr, of_addr, Random, Nets}
use maja.Mapping.Alloc.Grow.{IfReturned, of_returned}
use maja.Mapping.Entry.Longest.{All, All-classify}
use maja.Mapping.Entry.Compiled.{Compiled, Compiled-Full}
use maja.Mapping.Session.{PacketInfo, Targets, session}
use maja.Mapping.Flow.{FlowState, FlowCfg, targets_for, needs_alias, draws_per_packet}
use maja.Mapping.Flow.Later.{Settles}
use maja.Mapping.Flow.Settles.{SteadyFor, target_for-Settles}
use maja.Mapping.Flow.Replies.{Both, targets_for-Both}
use maja.Mapping.Flow.Returns.{Prepared, or_false, targets_for-Prepared}

module _ (n : Nets) (r : Random) where
  Compiled-SteadyFor :
      (cfg : FlowCfg n.Net) (addr : IpAddr)
      → All n (Compiled n) cfg.entries
      → draws_per_packet n cfg addr ≡ false
      → SteadyFor n r cfg addr
  unfolding draws_per_packet
  Compiled-SteadyFor cfg addr compiled quiet = record {
    rule = λ i entry found. record {
      kept = rw (found, draws_per_packet) at quiet;
      full = Compiled-Full n entry (All-classify n 0 cfg.entries addr compiled found);
    };
  }

  -- In a flow map of compiled rules whose tables are prepared, a packet without a fragment,
  -- between addresses of one family whose rules do not draw per packet, gets its targets without a
  -- panic; and in every later state of the map, whose table for the group still has what it had,
  -- the packet gets these targets again, and a packet of the other direction gets them swapped.
  pub targets_for-directions :
      (state : FlowState n.Net r.Rng) (group : ℕ) (info : PacketInfo)
      → Prepared n r group state
      → All n (Compiled n) state.cfg.entries
      → needs_alias n state.cfg info ≡ false
      → of_addr info.src ≡ of_addr info.dst
      → (targets : Targets) × (after : FlowState n.Net r.Rng) × (targets_for n r state group info
            none
          ≡ some (targets, after))
        × Prepared n r group after
        × Both n r group info state (targets, after)
  unfolding needs_alias Settles
  targets_for-directions state group info ready compiled quiet family =
      let (quiet_src, quiet_dst) = or_false n r _ _ quiet in
      let at_src = Compiled-SteadyFor state.cfg info.src compiled quiet_src in
      let at_dst = Compiled-SteadyFor state.cfg info.dst compiled quiet_dst in
      let (targets, after, is, kept) =
        targets_for-Prepared n r state group info none ready quiet (λ middle target first.
          (of_returned (
            subst (IfReturned _) first
              (target_for-Settles n r state group info.src (session info) none at_src))).0.cfg) in
      (
        targets,
        after,
        is,
        kept,
        of_returned
            (subst (IfReturned _) is (targets_for-Both n r state group info family at_src at_dst)),
      )
