-- ===== src/Tests/Recoveries.antt =====
-- Tests of the delta checkpoints.
use stocky_cognitive_runtime.Prelude.{
  ◌≡◌, false, refl, ◌++◌, String, true, Option, none, some, List, [], ◌∷◌, length, arith, str_eq,
  if◌then◌else◌,
}
use stocky_cognitive_runtime.Prelude.Raise.{ok}
use stocky_cognitive_runtime.Data.Float.{Float, zero_float, one}
use stocky_cognitive_runtime.Data.Json.{Json, str, obj, end, field, get_field, Codec}
use stocky_cognitive_runtime.Data.Trace.{ExecutionTrace}
use stocky_cognitive_runtime.Recovery.Snapshot.{RuntimeSnapshot}
use stocky_cognitive_runtime.Recovery.Snapshot.Text.{
  to_dict, from_dict, trace_dict, trace_of, from_json, to_json,
}
use stocky_cognitive_runtime.Recovery.Delta.{
  DeltaCheckpointManager, new_manager, base_meta, latest_base, deltas_of, save_base, save_delta,
  save, is_due, reopen, prune_old_bases, read_file,
}
use stocky_cognitive_runtime.Recovery.Delta.Load.{is_sequential, apply_all, load_base, load_latest}
use stocky_cognitive_runtime.Recovery.Delta.RoundTrip.{
  Restores, IsSavedRun, first, next, IsSaved, load_latest-Restores,
}
use stocky_cognitive_runtime.Recovery.Delta.Repeats.{
  governance_scores_repeat, traces_repeat_after_reopen,
}
use stocky_cognitive_runtime.TraceWindow.{new_window}
use stocky_cognitive_runtime.TraceWindow.History.{Keeps}
use stocky_cognitive_runtime.Runtime.Health.{new_state, snapshot}
use stocky_cognitive_runtime.Recovery.Guard.{frozen_schema_version}
use stocky_cognitive_runtime.Recovery.Coordinator.{Checkpoints, Target, Services, recover}
use stocky_cognitive_runtime.Recovery.Coordinator.Restores.{resumed, recover_restores}
use stocky_cognitive_runtime.Recovery.Coordinator.Startup.{delta_checkpoints, recover_unchanged}
use stocky_cognitive_runtime.Tests.Samples.{trace}

abbrev snap : String → List ExecutionTrace → List Float → RuntimeSnapshot
snap id traces scores = record {
  snapshot_id = id;
  created_at = 5;
  state = field "status" (str "running") end;
  trace_count = length traces;
  traces = traces;
  governance_scores = scores;
  confidence_scores = [];
  confidence_gradient = "HIGH";
  stability_scores = [];
  queue_depth = 1;
  total_events_processed = 2;
  schema_version = "1.0.0";
  schema_fingerprint = "f";
  cycle_count = length traces;
  recovery_mode_enabled = true;
}

abbrev snap_0 : RuntimeSnapshot
snap_0 = snap "cp_0" (trace "a" ∷ []) (zero_float ∷ [])

abbrev snap_1 : RuntimeSnapshot
snap_1 = snap "cp_1" (trace "a" ∷ trace "b" ∷ []) (zero_float ∷ one ∷ [])

abbrev snap_2 : RuntimeSnapshot
snap_2 = snap "cp_2" (trace "a" ∷ trace "b" ∷ []) (zero_float ∷ one ∷ zero_float ∷ [])

-- A `json` module that writes the identifier of a snapshot for its dictionary.
abbrev name_of : Option Json → String
name_of (some (str id)) = id
name_of _ = ""

abbrev write_name : Json → String
write_name (obj d) = name_of (get_field d "snapshot_id")
write_name _ = ""

abbrev read_name : String → Json
read_name name = if str_eq name "cp_0" then obj (to_dict snap_0) else obj (to_dict snap_1)

abbrev codec : Codec
codec = record { dumps = write_name; loads = read_name }

abbrev manager : DeltaCheckpointManager
manager = new_manager "checkpoints" 500 3

abbrev saved_0 : DeltaCheckpointManager
saved_0 = (save codec manager true snap_0 "healthy" "NOMINAL").0

saved_0-IsSavedRun : IsSavedRun codec saved_0 snap_0
unfolding get_field to_dict
saved_0-IsSavedRun =
    first "checkpoints" 500 3 snap_0 "healthy" "NOMINAL" (omega arith)
      (record { counted = refl; dict = (refl, tt); reads_back = refl; fresh = tt })

saved_1-IsSavedRun : IsSavedRun codec (save codec saved_0 true snap_1 "healthy" "NOMINAL").0 snap_1
unfolding save save_base is_due latest_base prune_old_bases get_field to_dict
saved_1-IsSavedRun =
    next saved_0-IsSavedRun snap_1 (trace "b" ∷ []) "healthy" "NOMINAL" refl
      (record { counted = refl; dict = (refl, tt); reads_back = refl; fresh = (refl, tt) })

load_latest-Restores_example :
    (r : RuntimeSnapshot) × (load_latest codec
        (save codec saved_0 true snap_1 "healthy" "NOMINAL").0
      ≡ ok (some r))
    × Restores r snap_1
load_latest-Restores_example = load_latest-Restores codec saved_1-IsSavedRun

based : DeltaCheckpointManager
unfolding save_base
based = (save_base codec manager true snap_0 "healthy" "NOMINAL").0

based-IsSaved : IsSaved codec based snap_0
unfolding based save_base load_base deltas_of is_sequential apply_all latest_base prune_old_bases
    read_file get_field to_dict from_dict trace_dict trace_of from_json to_json
based-IsSaved = record {
  on = refl;
  some_base = omega arith;
  meta = base_meta "checkpoints" snap_0 "healthy" "NOMINAL";
  latest = refl;
  base = snap_0;
  loads = refl;
  sequential = refl;
  saved = refl;
  restores = record {
    traces = refl;
    trace_count = refl;
    created_at = refl;
    cycle_count = refl;
    queue_depth = refl;
    events = refl;
    state = λ key v h. h;
  };
}

governance_scores_repeat_example :
    (r : RuntimeSnapshot) × (load_latest codec
        (save_delta codec
          (save_delta codec based true snap_1
            (some (base_meta "checkpoints" snap_0 "healthy" "NOMINAL"))).0
          true
          snap_2
          (some (base_meta "checkpoints" snap_0 "healthy" "NOMINAL"))).0
      ≡ ok (some r))
    × (r.governance_scores ≡ ((zero_float ∷ []) ++ (one ∷ [])) ++ ((one ∷ []) ++ (zero_float ∷ [])))
unfolding based-IsSaved
governance_scores_repeat_example =
    governance_scores_repeat codec based snap_0 snap_1 snap_2 based-IsSaved (one ∷ [])
      (zero_float ∷ []) refl refl refl refl

traces_repeat_after_reopen_example :
    (r : RuntimeSnapshot) × (load_latest codec
        (save_delta codec
          (reopen based)
          true
          snap_1
          (some (base_meta "checkpoints" snap_0 "healthy" "NOMINAL"))).0
      ≡ ok (some r))
    × (r.traces ≡ (trace "a" ∷ []) ++ ((trace "a" ∷ []) ++ (trace "b" ∷ [])))
unfolding based-IsSaved
traces_repeat_after_reopen_example =
    traces_repeat_after_reopen codec based snap_0 snap_1 based-IsSaved (trace "b" ∷ []) refl

abbrev services : Services
services = record {
  number_at_end = λ text. none;
  texts = record { parse = λ text. some frozen_schema_version; show = λ n. "n"; fingerprint = "f" };
  digest = λ text. text;
  keys = λ g. "";
  show = λ x. "0.0";
  contract = λ t. [];
}

abbrev target : Target
target = record { state = new_state; traces = new_window 10 10; processed = 0 }

abbrev same_float : Float → Float
same_float x = x

-- A snapshot of a new state with one trace.
abbrev snap_state : RuntimeSnapshot
snap_state = record (snap "cp_s" (trace "a" ∷ []) []) { state = snapshot same_float new_state }

abbrev readable : Checkpoints
readable = record {
  latest = some (record { checkpoint_id = ok "cp_s"; cycle_count = 1 });
  checkpoint_count = 1;
  load_latest = ok (some snap_state);
}

recover_restores_example :
    Keeps (trace "a" ∷ []) (recover services readable target).0.traces
    × ((recover services readable target).0.state ≡ resumed same_float new_state new_state)
recover_restores_example =
    recover_restores services readable target
      (record { checkpoint_id = ok "cp_s"; cycle_count = 1 }) "cp_s" snap_state (trace "a") []
      same_float new_state (omega arith) (omega arith) refl refl refl refl refl

recover_unchanged_example :
    ((recover services (delta_checkpoints codec saved_0) target).0 ≡ target)
    × ((recover services (delta_checkpoints codec saved_0) target).1.success ≡ false)
unfolding save save_base is_due latest_base prune_old_bases
recover_unchanged_example =
    recover_unchanged services codec saved_0 target
      (base_meta "checkpoints" snap_0 "healthy" "NOMINAL") refl
