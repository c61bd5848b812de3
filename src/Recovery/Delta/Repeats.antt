-- ===== src/Recovery/Delta/Repeats.antt =====
-- delta_checkpoint.py: what `load_latest` restores more than once.
use stocky_cognitive_runtime.Prelude.{
  ◌≡◌, ap, ◌∙◌, true, some, List, [], ◌∷◌, ◌++◌, length, drop, arith,
}
use stocky_cognitive_runtime.Prelude.Raise.{ok}
use stocky_cognitive_runtime.Data.Json.{Codec}
use stocky_cognitive_runtime.Data.Trace.{ExecutionTrace}
use stocky_cognitive_runtime.Data.Float.{Float}
use stocky_cognitive_runtime.Recovery.Snapshot.{RuntimeSnapshot}
use stocky_cognitive_runtime.Recovery.Delta.{
  CheckpointBaseMeta, DeltaCheckpointManager, make_delta, deltas_of, save_delta, reopen,
}
use stocky_cognitive_runtime.Recovery.Delta.Load.{
  apply_delta, apply_all, load_base, load_latest, is_sequential,
}
use stocky_cognitive_runtime.Recovery.Delta.Chain.{apply_all-append, is_sequential-append}
use stocky_cognitive_runtime.Recovery.Delta.RoundTrip.{
  drop-append, IsSaved, deltas_of_head, load_latest-eq-apply_all,
}

module _ (codec : Codec) where
  -- The segment that a save adds to the chain is applied last.
  apply_all-save_delta :
      (m : DeltaCheckpointManager) (meta : CheckpointBaseMeta) (base s : RuntimeSnapshot)
      → let ds = deltas_of meta.base_id m.deltas in
        apply_all base (deltas_of meta.base_id (save_delta codec m true s (some meta)).0.deltas)
        ≡ apply_delta (apply_all base ds) (make_delta m meta ds s)
  unfolding save_delta
  apply_all-save_delta m meta base s =
      let ds = deltas_of meta.base_id m.deltas in
      ap (apply_all base)
        (deltas_of_head codec meta.base_id (ds ++ make_delta m meta ds s ∷ []) m.deltas)
      ∙ apply_all-append base ds (make_delta m meta ds s)

  save_delta-sequential :
      (m : DeltaCheckpointManager) (meta : CheckpointBaseMeta) (s : RuntimeSnapshot)
      → is_sequential 0 (deltas_of meta.base_id m.deltas) ≡ true
      → is_sequential 0 (deltas_of meta.base_id (save_delta codec m true s (some meta)).0.deltas)
        ≡ true
  unfolding save_delta
  save_delta-sequential m meta s h =
      let ds = deltas_of meta.base_id m.deltas in
      ap (is_sequential 0)
        (deltas_of_head codec meta.base_id (ds ++ make_delta m meta ds s ∷ []) m.deltas)
      ∙ is_sequential-append 0 ds (make_delta m meta ds s) h (omega arith)

  governance_scores-save_delta :
      (m : DeltaCheckpointManager) (meta : CheckpointBaseMeta) (base s s0 : RuntimeSnapshot)
      (old new : List Float)
      → meta.governance_score_count ≡ length s0.governance_scores
      → (apply_all base (deltas_of meta.base_id m.deltas)).governance_scores ≡ old
      → s.governance_scores ≡ s0.governance_scores ++ new
      → let m' = (save_delta codec m true s (some meta)).0 in
        (apply_all base (deltas_of meta.base_id m'.deltas)).governance_scores ≡ old ++ new
  unfolding apply_delta
  governance_scores-save_delta m meta base s s0 old new count before grown =
      ap (λ (r : RuntimeSnapshot). r.governance_scores) (apply_all-save_delta m meta base s)
      ∙ ap (λ xs. xs ++ drop meta.governance_score_count s.governance_scores) before
      ∙ ap (λ n. old ++ drop n s.governance_scores) count
      ∙ ap (λ xs. old ++ drop (length s0.governance_scores) xs) grown
      ∙ ap (λ xs. old ++ xs) (drop-append s0.governance_scores new)

  -- Two segments on one base: each holds the governance scores since the base, so the scores `a` of
  -- the first are restored twice.
  pub governance_scores_repeat :
      (m : DeltaCheckpointManager) (s0 s1 s2 : RuntimeSnapshot) (h : IsSaved codec m s0)
      (a b : List Float)
      → h.meta.governance_score_count ≡ length s0.governance_scores
      → (apply_all h.base (deltas_of h.meta.base_id m.deltas)).governance_scores
        ≡ s0.governance_scores
      → s1.governance_scores ≡ s0.governance_scores ++ a
      → s2.governance_scores ≡ s0.governance_scores ++ (a ++ b)
      → let m1 = (save_delta codec m true s1 (some h.meta)).0 in
        let m2 = (save_delta codec m1 true s2 (some h.meta)).0 in
        (r : RuntimeSnapshot) × (load_latest codec m2 ≡ ok (some r))
        × (r.governance_scores ≡ (s0.governance_scores ++ a) ++ (a ++ b))
  unfolding save_delta load_base
  governance_scores_repeat m s0 s1 s2 h a b count exact e1 e2 =
      let m1 = (save_delta codec m true s1 (some h.meta)).0 in
      let m2 = (save_delta codec m1 true s2 (some h.meta)).0 in
      let seq =
        save_delta-sequential m1 h.meta s2 (save_delta-sequential m h.meta s1 h.sequential) in
      (
        apply_all h.base (deltas_of h.meta.base_id m2.deltas),
        load_latest-eq-apply_all codec m2 h.meta h.base h.latest h.loads seq,
        governance_scores-save_delta m1 h.meta h.base s2 s0 (s0.governance_scores ++ a) (a ++ b)
            count
            (governance_scores-save_delta m h.meta h.base s1 s0 s0.governance_scores a count exact
              e1)
            e2,
      )

  -- A reopened manager has lost the count of the saved traces: its next segment holds all traces of
  -- its snapshot. If that still extends the snapshot saved last, as for a manager that is made anew
  -- beside a loop that kept its traces, the traces saved before are restored twice.
  pub traces_repeat_after_reopen :
      (m : DeltaCheckpointManager) (last s : RuntimeSnapshot) (h : IsSaved codec m last)
      (more : List ExecutionTrace)
      → s.traces ≡ last.traces ++ more
      → let m' = (save_delta codec (reopen m) true s (some h.meta)).0 in
        (r : RuntimeSnapshot) × (load_latest codec m' ≡ ok (some r))
        × (r.traces ≡ last.traces ++ (last.traces ++ more))
  unfolding save_delta load_base apply_delta
  traces_repeat_after_reopen m last s h more grown =
      let m' = (save_delta codec (reopen m) true s (some h.meta)).0 in
      let seq = save_delta-sequential (reopen m) h.meta s h.sequential in
      (
        apply_all h.base (deltas_of h.meta.base_id m'.deltas),
        load_latest-eq-apply_all codec m' h.meta h.base h.latest h.loads seq,
        ap (λ (r : RuntimeSnapshot). r.traces) (apply_all-save_delta (reopen m) h.meta h.base s)
            ∙ ap (λ ts. ts ++ s.traces) h.restores.traces
            ∙ ap (λ ts. last.traces ++ ts) grown,
      )
