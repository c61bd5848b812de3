-- ===== src/Runtime/Loop/Finalize.antt =====
-- runtime/runtime_loop.py, `_finalize_cycle`: what a trace changes.
use Prim.Native.Nat.{◌^◌, ◌%◌}
use stocky_cognitive_runtime.Prelude.{
  ℕ, ◌+◌, ◌*◌, String, Bool, true, not, ◌&&◌, ◌||◌, Option, none, some, List, [], ◌∷◌, leb,
  if◌then◌else◌, ◌==◌,
}
use stocky_cognitive_runtime.Prelude.Int.{pos}
use stocky_cognitive_runtime.Data.Float.{Float, finite, leb_float, ltb_float, seven_tenths}
use stocky_cognitive_runtime.Data.Trace.{ExecutionTrace}
use stocky_cognitive_runtime.TraceWindow.{append, all_traces}
use stocky_cognitive_runtime.Causal.Build.{build}
use stocky_cognitive_runtime.Recovery.Snapshot.{Captured, capture}
use stocky_cognitive_runtime.Recovery.Delta.{save}
use stocky_cognitive_runtime.Runtime.Health.{RuntimeState, degraded, health_text, snapshot}
use stocky_cognitive_runtime.Runtime.Coherence.{CoherenceReport, check_trace}
use stocky_cognitive_runtime.Runtime.Loop.{Parts, Moment, RuntimeLoop}

-- 0.5, and the double nearest to 0.3.
unfoldable pub half : Float
half = finite (pos (2 ^ 1073))

unfoldable pub three_tenths : Float
three_tenths = finite (pos (5404319552844595 * 2 ^ 1020))

-- A change of the shared state.
abbrev pub with_state : RuntimeLoop → RuntimeState → RuntimeLoop
with_state l s = record l { orchestrator = record l.orchestrator { state = s } }

-- `n % d == 0`
abbrev pub every : ℕ → ℕ → Bool
every d n = (n % d) == 0

unfoldable pub note_execution : Moment → ExecutionTrace → RuntimeState → RuntimeState
note_execution m t s = record s {
  last_execution_trace_id = t.event_id;
  last_execution_status = t.final_status;
  last_execution_at = some m.now;
}

unfoldable pub note_drift : CoherenceReport → RuntimeState → RuntimeState
note_drift r s =
    if r.drift_detected
    then record s { drift_detected = true; drift_count = s.drift_count + r.drift_count }
    else s

unfoldable pub check_coherence : Parts → ExecutionTrace → RuntimeLoop → RuntimeLoop
unfolding note_drift check_trace
check_coherence parts t l =
    let coherence = check_trace parts.show l.coherence t in
    with_state (record l { coherence = coherence })
      (note_drift coherence.report l.orchestrator.state)

unfoldable pub rebuild_graph : RuntimeLoop → RuntimeLoop
unfolding build
rebuild_graph l =
    if every 10 l.traces.total_count || leb l.traces.total_count 5
    then record l { graph = build l.traces.active }
    else l

unfoldable pub note_stability : Float → RuntimeState → RuntimeState
unfolding three_tenths
note_stability score s =
    if ltb_float score three_tenths then record s { health_status = degraded } else s

unfoldable pub check_stability : Moment → RuntimeLoop → RuntimeLoop
unfolding note_stability
check_stability m l =
    if every 50 l.traces.total_count
    then with_state (record l { stability_score = some m.stability })
        (note_stability m.stability l.orchestrator.state)
    else l

-- The governance status of a checkpoint, by the last score.
unfoldable pub governance_status : List Float → String
unfolding half three_tenths seven_tenths
governance_status [] = ""
governance_status (s ∷ []) =
    if leb_float seven_tenths s
    then "CRITICAL"
    else if leb_float half s
    then "ELEVATED"
    else if leb_float three_tenths s
    then "MONITORING"
    else "NOMINAL"
governance_status (s ∷ r ∷ rest) = governance_status (r ∷ rest)

unfoldable pub captured : Parts → Moment → RuntimeLoop → Captured
captured parts m l = record {
  all_traces = all_traces l.traces;
  governance = m.governance_scores;
  confidence = m.confidence_scores;
  gradient = m.confidence_gradient;
  stability = m.stability_scores;
  state_fields = snapshot parts.round l.orchestrator.state;
  depth = l.queue.stats.depth;
  events_processed = l.orchestrator.state.total_events_processed;
  version = parts.schema_version;
  fingerprint = parts.schema_fingerprint;
}

unfoldable pub save_checkpoint : Parts → Moment → RuntimeLoop → RuntimeLoop
unfolding captured capture save governance_status
save_checkpoint parts m l = record l {
  checkpoints =
      (save parts.codec l.checkpoints m.writes (capture (captured parts m l) m.now m.snapshot_id)
        (health_text l.orchestrator.state.health_status) (governance_status m.governance_scores)).0;
  last_checkpoint_cycle = l.traces.total_count;
}

unfoldable pub checkpoint : Parts → Moment → RuntimeLoop → RuntimeLoop
unfolding save_checkpoint
checkpoint parts m l =
    if (every 100 l.traces.total_count && l.checkpoints.enabled) && not l.recovering
    then save_checkpoint parts m l
    else l

-- The steps behind the append.
unfoldable pub settle : Parts → Moment → ExecutionTrace → RuntimeLoop → RuntimeLoop
unfolding note_execution check_coherence rebuild_graph check_stability checkpoint
settle parts m t l = checkpoint parts m (
    check_stability m (
      rebuild_graph
        (check_coherence parts t (with_state l (note_execution m t l.orchestrator.state)))))

-- `none` is an IndexError of the append.
unfoldable pub finalize_cycle : Parts → Moment → RuntimeLoop → ExecutionTrace → Option RuntimeLoop
unfolding settle
finalize_cycle parts m l t = elim (append parts.digest parts.show l.traces t) [
  | none ↦ none
  | some window ↦ some (settle parts m t (record l { traces = window }))
]
