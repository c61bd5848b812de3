-- ===== src/Recovery/Delta/Load.antt =====
-- delta_checkpoint.py: the latest base with its segments applied, and the check of the chains.
use stocky_cognitive_runtime.Prelude.{
  ℕ, ◌+◌, ◌==◌, String, Bool, true, false, Option, none, some, List, [], ◌∷◌, ◌++◌, length, ltb,
  if◌then◌else◌,
}
use stocky_cognitive_runtime.Prelude.Raise.{Result, ok, err}
use stocky_cognitive_runtime.Queue.{order_by}
use stocky_cognitive_runtime.Recovery.Snapshot.{RuntimeSnapshot, update_fields}
use stocky_cognitive_runtime.Data.Json.{Codec}
use stocky_cognitive_runtime.Recovery.Snapshot.Text.{from_json}
use stocky_cognitive_runtime.Recovery.Delta.{
  DeltaSegment, CheckpointBaseMeta, DeltaCheckpointManager, read_file, latest_base, deltas_of,
}

abbrev pub by_number : DeltaSegment → DeltaSegment → Bool
by_number a b = ltb a.sequence_no b.sequence_no

-- REC-DELTA-001 from a number on: the chain has no gap.
unfoldable pub is_sequential : ℕ → List DeltaSegment → Bool
is_sequential n [] = true
is_sequential n (d ∷ ds) =
    let rest = is_sequential (n + 1) ds in if d.sequence_no == n + 1 then rest else false

-- The loop of `_apply_deltas`, and the fields of its result that the last segment gives.
unfoldable pub apply_delta : RuntimeSnapshot → DeltaSegment → RuntimeSnapshot
unfolding update_fields
apply_delta s d = record s {
  created_at = d.created_at;
  state = update_fields s.state d.state;
  trace_count = length (s.traces ++ d.new_traces);
  traces = s.traces ++ d.new_traces;
  governance_scores = s.governance_scores ++ d.new_governance_scores;
  confidence_scores = s.confidence_scores ++ d.new_confidence_scores;
  stability_scores = s.stability_scores ++ d.new_stability_scores;
  queue_depth = d.queue_depth;
  total_events_processed = d.total_events_processed;
  cycle_count = d.cycle_count;
}

unfoldable pub apply_all : RuntimeSnapshot → List DeltaSegment → RuntimeSnapshot
apply_all s [] = s
apply_all s (d ∷ ds) = apply_all (apply_delta s d) ds

-- The text of the RuntimeError.
abbrev pub chain_gap : String
chain_gap = "REC-DELTA-001 violation: delta chain gap"

unfoldable pub apply_deltas : RuntimeSnapshot → List DeltaSegment → Result String RuntimeSnapshot
unfolding is_sequential apply_all order_by
apply_deltas s ds =
    let ordered = order_by by_number ds in
    if is_sequential 0 ordered then ok (apply_all s ordered) else err chain_gap

module _ (codec : Codec) where
  unfoldable pub restore :
      List DeltaSegment → Option RuntimeSnapshot → Result String (Option RuntimeSnapshot)
  unfolding apply_deltas
  restore ds none = ok none
  restore [] (some s) = ok (some s)
  restore (d ∷ ds) (some s) = elim (apply_deltas s (d ∷ ds)) [
    | ok s' ↦ ok (some s')
    | err e ↦ err e
  ]

  -- `_load_base_snapshot`
  unfoldable pub load_base : DeltaCheckpointManager → CheckpointBaseMeta → Option RuntimeSnapshot
  unfolding read_file
  load_base m base = elim (read_file base.file_path m.files) [
    | none ↦ none
    | some text ↦ from_json codec text
  ]

  unfoldable pub load_latest : DeltaCheckpointManager → Result String (Option RuntimeSnapshot)
  unfolding load_base restore latest_base deltas_of
  load_latest m = elim (latest_base m.bases) [
    | none ↦ ok none
    | some base ↦ restore (deltas_of base.base_id m.deltas) (load_base m base)
  ]

-- `verify_delta_chain`
unfoldable pub verify_delta_chain : List (String × List DeltaSegment) → Bool
unfolding is_sequential order_by
verify_delta_chain [] = true
verify_delta_chain ((id, ds) ∷ rest) =
    let others = verify_delta_chain rest in
    if is_sequential 0 (order_by by_number ds) then others else false
