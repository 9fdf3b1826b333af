-- ===== src/Mapping/Rewriter.antt =====
-- `Rewriter::rewrite` of tools/maja-mergecap/src/map.rs: the direct maps, then the flow map, then the
-- checksums. The flow map reads the packet that the direct maps leave.
pub mod Steps
pub mod Readdressed
pub mod Valid
pub mod Unchanged
mod Tests
use maja.Base.{ℕ, Bool, true, false, ◌||◌, ◌&&◌, Option, none, some, if◌then◌else◌}
use maja.Packet.{Packet}
use maja.Mapping.{Random, Nets}
use maja.Mapping.Flow.{FlowState, rewrite}
use maja.Mapping.Envelope.{read_info}
use maja.Mapping.Segment.{apply_targets}
use maja.Mapping.Fix.{fix_checksums}
use maja.Mapping.Direct.{DirectMaps, direct_rewrite}

pub record Rewriter (Net Rng : Type 0) : Type 0 where
  pub direct : Option (DirectMaps Net Rng)
  pub flow : Option (FlowState Net Rng)
  pub fix_checksum : Bool

-- `is_active`.
abbrev pub is_active : {Net Rng : Type 0} → Rewriter Net Rng → Bool
is_active rewriter = elim rewriter.direct [
  | some _ ↦ true
  | none ↦ elim rewriter.flow [ some _ ↦ true | none ↦ false ]
]

module _ (n : Nets) (r : Random) where
  unfoldable pub rewrite_direct :
      Rewriter n.Net r.Rng → Packet → (Bool × Packet) × Rewriter n.Net r.Rng
  unfolding direct_rewrite
  rewrite_direct rewriter packet = elim rewriter.direct [
    | none ↦ ((false, packet), rewriter)
    | some maps ↦
        let (result, maps) = direct_rewrite n r maps packet in
        (result, record rewriter { direct = some maps })
  ]

  -- `FlowState::rewrite` with its reads and writes; `none` is a panic.
  unfoldable pub rewrite_flow :
      Rewriter n.Net r.Rng → ℕ → Packet → Option ((Bool × Packet) × Rewriter n.Net r.Rng)
  unfolding rewrite read_info apply_targets
  rewrite_flow rewriter group packet = elim rewriter.flow [
    | none ↦ some ((false, packet), rewriter)
    | some state ↦ elim (rewrite n r state group (read_info packet)) [
      | none ↦ none
      | some ((targets, changed), state) ↦
          some ((changed, apply_targets targets packet), record rewriter { flow = some state })
    ]
  ]

  unfoldable pub fix_if : Bool → Packet → Packet
  unfolding fix_checksums
  fix_if true packet = fix_checksums packet
  fix_if false packet = packet

  unfoldable pub rewrite_packet :
      Rewriter n.Net r.Rng → ℕ → Packet → Option ((Bool × Packet) × Rewriter n.Net r.Rng)
  unfolding rewrite_direct rewrite_flow fix_if
  rewrite_packet rewriter group packet =
      let ((direct_changed, packet), rewriter) = rewrite_direct rewriter packet in
      elim (rewrite_flow rewriter group packet) [
        | none ↦ none
        | some ((flow_changed, packet), rewriter) ↦
            let changed = direct_changed || flow_changed in
            some ((changed, fix_if (changed && rewriter.fix_checksum) packet), rewriter)
      ]
