-- ===== src/Recovery/Snapshot.antt =====
-- recovery/runtime_snapshot.py: the snapshot that a checkpoint writes.
--
-- A trace is kept as it is, where the code keeps `asdict(trace)`.
pub mod Text
pub mod ReadBack
use stocky_cognitive_runtime.Prelude.{
  ℕ, String, Bool, false, Option, none, some, List, length, str_eq, if◌then◌else◌,
}
use stocky_cognitive_runtime.Data.Float.{Float}
use stocky_cognitive_runtime.Data.Json.{Json, Fields, end, field}
use stocky_cognitive_runtime.Data.Trace.{ExecutionTrace}

pub record RuntimeSnapshot : Type 0 where
  pub snapshot_id : String
  pub created_at : ℕ
  pub state : Fields
  pub trace_count : ℕ
  pub traces : List ExecutionTrace
  pub governance_scores : List Float
  pub confidence_scores : List Float
  pub confidence_gradient : String
  pub stability_scores : List Float
  pub queue_depth : ℕ
  pub total_events_processed : ℕ
  pub schema_version : String
  pub schema_fingerprint : String
  pub cycle_count : ℕ
  pub recovery_mode_enabled : Bool

-- What `capture` reads of the loop and of its parts.
pub record Captured : Type 0 where
  pub all_traces : List ExecutionTrace
  pub governance : List Float
  pub confidence : List Float
  pub gradient : Option String
  pub stability : List Float
  pub state_fields : Fields
  pub depth : ℕ
  pub events_processed : ℕ
  pub version : String
  pub fingerprint : String

abbrev gradient_or_high : Option String → String
gradient_or_high none = "HIGH"
gradient_or_high (some g) = g

-- `capture`, at a reading of the clock and with the identifier made of it.
unfoldable pub capture : Captured → ℕ → String → RuntimeSnapshot
capture c now id = record {
  snapshot_id = id;
  created_at = now;
  state = c.state_fields;
  trace_count = length c.all_traces;
  traces = c.all_traces;
  governance_scores = c.governance;
  confidence_scores = c.confidence;
  confidence_gradient = gradient_or_high c.gradient;
  stability_scores = c.stability;
  queue_depth = c.depth;
  total_events_processed = c.events_processed;
  schema_version = c.version;
  schema_fingerprint = c.fingerprint;
  cycle_count = length c.all_traces;
  recovery_mode_enabled = false;
}

-- `d[key] = v`, and `d.update(e)`.
unfoldable pub set_field : String → Json → Fields → Fields
set_field key v end = field key v end
set_field key v (field k w rest) =
    let kept = set_field key v rest in if str_eq k key then field k v rest else field k w kept

unfoldable pub update_fields : Fields → Fields → Fields
unfolding set_field
update_fields fields end = fields
update_fields fields (field k v rest) = update_fields (set_field k v fields) rest
