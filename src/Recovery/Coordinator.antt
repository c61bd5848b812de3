-- ===== src/Recovery/Coordinator.antt =====
-- recovery/recovery_coordinator.py: `recover`, over the state and the traces of a loop.
--
-- The coordinator is handed a checkpoint manager and reads four things of it: the record `Checkpoints`.
-- The contract check of the loop (step 6) is the parameter `contract`, the texts of its violations. The
-- score histories, the clock and the observer are left aside.
pub mod Restores
pub mod Startup
use Prim.Native.String.{◌++◌ as concat}
use stocky_cognitive_runtime.Prelude.{
  ℕ, ◌+◌, ◌-◌, ◌==◌, String, Bool, true, false, not, ◌&&◌, Option, none, some, List, [], ◌∷◌, ◌++◌,
  length, ltb, str_eq, if◌then◌else◌,
}
use stocky_cognitive_runtime.Prelude.Int.{pos}
use stocky_cognitive_runtime.Prelude.Raise.{Result, ok, err}
use stocky_cognitive_runtime.Data.Float.{Float}
use stocky_cognitive_runtime.Data.Json.{Json, null, bool, int, real, str, Fields, end, field}
use stocky_cognitive_runtime.Data.Trace.{ExecutionTrace}
use stocky_cognitive_runtime.Causal.{CausalGraph}
use stocky_cognitive_runtime.TraceWindow.{TraceWindow, append, clear, all_traces}
use stocky_cognitive_runtime.Runtime.Health.{
  RuntimeState, LoopStatus, stopped, running, paused, degraded_status, HealthStatus, healthy,
  degraded, critical,
}
use stocky_cognitive_runtime.Recovery.Snapshot.{RuntimeSnapshot}
use stocky_cognitive_runtime.Recovery.Crash.{CrashIndicator, detect}
use stocky_cognitive_runtime.Recovery.Resume.{restore_state, append_each}
use stocky_cognitive_runtime.Recovery.Guard.{Texts, validate_snapshot}
use stocky_cognitive_runtime.Recovery.Replay.{Divergence, validate}

-- A checkpoint that is the latest one, and what is read of it: its `checkpoint_id` may raise.
pub record Latest : Type 0 where
  pub checkpoint_id : Result String String
  pub cycle_count : ℕ

pub record Checkpoints : Type 0 where
  pub latest : Option Latest
  pub checkpoint_count : ℕ
  pub load_latest : Result String (Option RuntimeSnapshot)

-- What the recovery reads and writes of a loop.
pub record Target : Type 0 where
  pub state : RuntimeState
  pub traces : TraceWindow
  pub processed : ℕ

-- `_recovery_in_progress` is true only within the call. The identifiers of the orphans and the times
-- are left out.
pub record RecoveryReport : Type 0 where
  pub success : Bool
  pub crash_recovery : Bool
  pub restored_cycles : ℕ
  pub skipped_cycles : ℕ
  pub replay_valid : Bool
  pub replay_divergences : List Divergence
  pub corruption_detected : Bool
  pub corruption_details : List String
  pub orphan_events_found : ℕ
  pub checkpoint_restored : Option String
  pub checkpoint_count : ℕ
  pub latest_checkpoint_cycle : ℕ
  pub contract_violations : ℕ

abbrev pub new_report : RecoveryReport
new_report = record {
  success = false;
  crash_recovery = false;
  restored_cycles = 0;
  skipped_cycles = 0;
  replay_valid = true;
  replay_divergences = [];
  corruption_detected = false;
  corruption_details = [];
  orphan_events_found = 0;
  checkpoint_restored = none;
  checkpoint_count = 0;
  latest_checkpoint_cycle = 0;
  contract_violations = 0;
}

-- The libraries behind the coordinator.
pub record Services : Type 0 where
  pub number_at_end : String → Option ℕ
  pub texts : Texts
  pub digest : String → String
  pub keys : CausalGraph → String
  pub show : Float → String
  pub contract : Target → List String

abbrev is_empty_list : List ExecutionTrace → Bool
is_empty_list [] = true
is_empty_list (t ∷ ts) = false

module _ (services : Services) where
  -- `_apply_snapshot`, with whether it returns.
  unfoldable pub apply_snapshot : Target → RuntimeSnapshot → Target × Bool
  unfolding restore_state append_each
  apply_snapshot t s =
      let restored = record t { state = restore_state s.state t.state } in
      let appended = append_each services.digest services.show (clear t.traces) s.traces in
      if is_empty_list s.traces
      then (restored, true)
      else (record restored { traces = appended.0 }, appended.1)

  abbrev pub is_nil : List String → Bool
  is_nil [] = true
  is_nil (v ∷ vs) = false

  abbrev pub fail : String → RecoveryReport → RecoveryReport
  fail error r = record r {
    corruption_detected = true;
    corruption_details = r.corruption_details ++ concat "recovery_error: " error ∷ [];
  }

  -- Step 6.
  unfoldable pub check_contract : Target → RecoveryReport → RecoveryReport
  check_contract t r =
      let violations = services.contract t in
      if is_nil violations then r else record r {
        corruption_detected = true;
        corruption_details = r.corruption_details ++ violations;
      }

  -- Step 5: the window, if it has traces, is compared with the snapshot, or else with what it holds.
  unfoldable pub check_replay : Option RuntimeSnapshot → Target → RecoveryReport → RecoveryReport
  unfolding validate
  check_replay snapshot t r =
      let original : List ExecutionTrace = elim snapshot [
        | none ↦ all_traces t.traces
        | some s ↦ s.traces
      ] in
      let v = validate services.digest services.keys original t.traces.active in
      if t.traces.total_count == 0
      then r
      else record r { replay_valid = v.valid; replay_divergences = v.divergences }

  unfoldable pub checked :
      Option RuntimeSnapshot → Target → RecoveryReport → Target × RecoveryReport
  unfolding check_replay check_contract
  checked snapshot t r = (t, check_contract t (check_replay snapshot t r))

  -- Step 3, and steps 4 to 6 behind it: a snapshot that is not valid is restored all the same.
  unfoldable pub validated : RuntimeSnapshot → RecoveryReport → RecoveryReport
  unfolding validate_snapshot
  validated s r =
      let v = validate_snapshot services.texts s in
      if v.valid then r else record r {
        corruption_detected = true;
        corruption_details = r.corruption_details ++ v.contract_violations;
        contract_violations = r.contract_violations + length v.contract_violations;
      }

  unfoldable pub restored :
      CrashIndicator → RuntimeSnapshot → Target × Bool → RecoveryReport → Target × RecoveryReport
  unfolding checked
  restored i s (t, true) r = checked (some s) t (record r {
    restored_cycles = s.trace_count;
    skipped_cycles = i.expected_trace_count - s.trace_count;
  })
  restored i s (t, false) r = (t, fail "pop from an empty deque" r)

  unfoldable pub loaded :
      CrashIndicator
      → Result String (Option RuntimeSnapshot)
      → Target
      → RecoveryReport
      → Target × RecoveryReport
  unfolding validated restored apply_snapshot checked
  loaded i (err error) t r = (t, fail error r)
  loaded i (ok none) t r = checked none t (record r { skipped_cycles = i.expected_trace_count })
  loaded i (ok (some s)) t r = restored i s (apply_snapshot t s) (validated s r)

  unfoldable pub identified :
      CrashIndicator
      → Checkpoints
      → Latest
      → Result String String
      → Target
      → RecoveryReport
      → Target × RecoveryReport
  unfolding loaded
  identified i c l (err error) t r = (t, fail error r)
  identified i c l (ok id) t r = loaded i c.load_latest t (record r {
    checkpoint_restored = some id;
    checkpoint_count = c.checkpoint_count;
    latest_checkpoint_cycle = l.cycle_count;
  })

  -- Step 2.
  unfoldable pub located :
      CrashIndicator
      → Checkpoints
      → Option Latest
      → Target
      → RecoveryReport
      → Target × RecoveryReport
  unfolding identified loaded
  located i c none t r = loaded i (ok none) t r
  located i c (some l) t r = identified i c l l.checkpoint_id t r

  -- Step 1.
  unfoldable pub noted : CrashIndicator → RecoveryReport
  noted i = record new_report {
    orphan_events_found = i.orphan_traces;
    corruption_detected = i.unclean_shutdown;
    corruption_details = if i.unclean_shutdown then i.details ∷ [] else [];
    crash_recovery = i.unclean_shutdown;
  }

  -- The `finally`.
  abbrev pub closed : RecoveryReport → RecoveryReport
  closed r = record r {
    success = (not r.corruption_detected && r.replay_valid) && (r.contract_violations == 0);
  }

  unfoldable pub recover : Checkpoints → Target → Target × RecoveryReport
  unfolding detect noted located
  recover c t =
      let i =
        detect services.number_at_end services.texts.show t.state t.traces.active t.processed in
      let done = located i c c.latest t (noted i) in (done.0, closed done.1)
