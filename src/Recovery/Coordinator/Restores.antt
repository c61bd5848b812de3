-- ===== src/Recovery/Coordinator/Restores.antt =====
-- recovery/recovery_coordinator.py: what a recovery restores from a checkpoint that it can read.
use stocky_cognitive_runtime.Prelude.{
  ◌<◌, ◌≡◌, refl, sym, ap, ◌∙◌, String, Bool, true, false, Option, none, some, List, [], ◌∷◌, ◌++◌,
  append-nil, append_assoc,
}
use mathlib.Core.Path.{subst}
use stocky_cognitive_runtime.Prelude.Raise.{Result, ok, err}
use stocky_cognitive_runtime.Data.Float.{Float}
use stocky_cognitive_runtime.Data.Trace.{ExecutionTrace}
use stocky_cognitive_runtime.TraceWindow.{TraceWindow, clear}
use stocky_cognitive_runtime.TraceWindow.History.{Keeps, append-Keeps, new-Keeps}
use stocky_cognitive_runtime.Runtime.Health.{
  RuntimeState, LoopStatus, stopped, running, paused, degraded_status, HealthStatus, healthy,
  degraded, critical, loop_text, health_text, text_or_null, snapshot,
}
use stocky_cognitive_runtime.Data.Json.{field, end}
use stocky_cognitive_runtime.Recovery.Crash.{CrashIndicator, detect}
use stocky_cognitive_runtime.Recovery.Snapshot.{RuntimeSnapshot}
use stocky_cognitive_runtime.Recovery.Resume.{
  loop_status, health_status, set_attr, restore_state, append_each,
}
use stocky_cognitive_runtime.Recovery.Coordinator.{
  Latest, Checkpoints, Target, RecoveryReport, Services, apply_snapshot, restored, loaded,
  identified, located, recover, checked, validated, noted,
}

-- The fields of the state that its snapshot has, as a checkpoint has them: the average is rounded.
abbrev pub resumed : (Float → Float) → RuntimeState → RuntimeState → RuntimeState
resumed round saved s = record s {
  status = saved.status;
  uptime = saved.uptime;
  queue_depth = saved.queue_depth;
  total_events_processed = saved.total_events_processed;
  active_sessions = saved.active_sessions;
  health_status = saved.health_status;
  consecutive_failures = saved.consecutive_failures;
  drift_detected = saved.drift_detected;
  average_cycle_ms = round saved.average_cycle_ms;
  last_error = saved.last_error;
}

loop_status-loop_text :
    (status otherwise : LoopStatus) → loop_status (loop_text status) otherwise ≡ status
loop_status-loop_text stopped otherwise = refl
loop_status-loop_text running otherwise = refl
loop_status-loop_text paused otherwise = refl
loop_status-loop_text degraded_status otherwise = refl

health_status-health_text :
    (health otherwise : HealthStatus) → health_status (health_text health) otherwise ≡ health
health_status-health_text healthy otherwise = refl
health_status-health_text degraded otherwise = refl
health_status-health_text critical otherwise = refl

restore_error :
    (error : Option String) (saved s : RuntimeState)
    → saved.last_error ≡ error
    → restore_state (field "last_error" (text_or_null error) end) s
      ≡ record s { last_error = error }
unfolding restore_state set_attr
restore_error none saved s h = refl
restore_error (some x) saved s h = refl

pub restore_state-snapshot :
    (round : Float → Float) (saved s : RuntimeState)
    → restore_state (snapshot round saved) s ≡ resumed round saved s
unfolding restore_state set_attr
restore_state-snapshot round saved s = restore_error saved.last_error saved _ refl ∙ (λ i.
    record (resumed round saved s) {
      status = loop_status-loop_text saved.status s.status i;
      health_status = health_status-health_text saved.health_status s.health_status i;
    })

append_each-Keeps :
    (digest : String → String) (show : Float → String) (history : List ExecutionTrace)
    (w : TraceWindow) (ts : List ExecutionTrace)
    → Keeps history w
    → Keeps (history ++ ts) (append_each digest show w ts).0
unfolding append_each
append_each-Keeps digest show history w [] h = rw append-nil h
append_each-Keeps digest show history w (t ∷ ts) h =
    let (w1, e, h1) = append-Keeps digest show w history t h in
    let ih = append_each-Keeps digest show (history ++ t ∷ []) w1 ts h1 in
    rw (e, append_each) (rw append_assoc at ih)

module _ (services : Services) where
  restored_target :
      (i : CrashIndicator) (s : RuntimeSnapshot) (a : Target × Bool) (r : RecoveryReport)
      → (restored services i s a r).0 ≡ a.0
  unfolding restored checked
  restored_target i s (t, true) r = refl
  restored_target i s (t, false) r = refl

  loaded_target :
      (i : CrashIndicator) (a : Result String (Option RuntimeSnapshot)) (s : RuntimeSnapshot)
      (t : Target) (r : RecoveryReport)
      → a ≡ ok (some s)
      → (loaded services i a t r).0 ≡ (apply_snapshot services t s).0
  unfolding loaded
  loaded_target i a s t r e =
      ap (λ x. (loaded services i x t r).0) e
      ∙ restored_target i s (apply_snapshot services t s) (validated services s r)

  identified_target :
      (i : CrashIndicator) (c : Checkpoints) (l : Latest) (a : Result String String) (id : String)
      (s : RuntimeSnapshot) (t : Target) (r : RecoveryReport)
      → a ≡ ok id
      → c.load_latest ≡ ok (some s)
      → (identified services i c l a t r).0 ≡ (apply_snapshot services t s).0
  unfolding identified
  identified_target i c l (ok name) id s t r e loads = loaded_target i c.load_latest s t _ loads
  identified_target i c l (err error) id s t r e loads = cc

  located_target :
      (i : CrashIndicator) (c : Checkpoints) (l : Latest) (id : String) (s : RuntimeSnapshot)
      (t : Target) (r : RecoveryReport)
      → c.latest ≡ some l
      → l.checkpoint_id ≡ ok id
      → c.load_latest ≡ ok (some s)
      → (located services i c c.latest t r).0 ≡ (apply_snapshot services t s).0
  unfolding located
  located_target i c l id s t r latest names loads =
      ap (λ o. (located services i c o t r).0) latest
      ∙ identified_target i c l l.checkpoint_id id s t r names loads

  apply_snapshot-Keeps :
      (t : Target) (s : RuntimeSnapshot) (first : ExecutionTrace) (rest : List ExecutionTrace)
      → 0 < t.traces.max_active
      → 0 < t.traces.max_archived
      → s.traces ≡ first ∷ rest
      → Keeps s.traces (apply_snapshot services t s).0.traces
        × ((apply_snapshot services t s).0.state ≡ restore_state s.state t.state)
  unfolding apply_snapshot
  apply_snapshot-Keeps t s first rest active archived e =
      let kept =
        append_each-Keeps services.digest services.show [] (clear t.traces) s.traces
          (new-Keeps t.traces.max_active t.traces.max_archived active archived) in
      rw e (rw e at kept, refl)

  -- A recovery whose checkpoint manager names its latest checkpoint and loads a snapshot of it, with
  -- traces and with the fields of a saved state, leaves a window that keeps exactly the snapshot's
  -- traces, and the saved fields in the loop's state. The snapshot need not be valid.
  pub recover_restores :
      (c : Checkpoints) (t : Target) (l : Latest) (id : String) (s : RuntimeSnapshot)
      (first : ExecutionTrace) (rest : List ExecutionTrace) (round : Float → Float)
      (saved : RuntimeState)
      → 0 < t.traces.max_active
      → 0 < t.traces.max_archived
      → c.latest ≡ some l
      → l.checkpoint_id ≡ ok id
      → c.load_latest ≡ ok (some s)
      → s.traces ≡ first ∷ rest
      → s.state ≡ snapshot round saved
      → Keeps s.traces (recover services c t).0.traces
        × ((recover services c t).0.state ≡ resumed round saved t.state)
  unfolding recover
  recover_restores c t l id s first rest round saved active archived latest names loads e fields =
      let i =
        detect services.number_at_end services.texts.show t.state t.traces.active t.processed in
      let same = located_target i c l id s t (noted services i) latest names loads in
      let (kept, state) = apply_snapshot-Keeps t s first rest active archived e in
      (
        subst (λ (x : Target). Keeps s.traces x.traces) (sym same) kept,
        ap (λ (x : Target). x.state) same
            ∙ state
            ∙ ap (λ f. restore_state f t.state) fields
            ∙ restore_state-snapshot round saved t.state,
      )
