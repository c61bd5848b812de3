-- ===== src/Recovery/Delta.antt =====
-- recovery/delta_checkpoint.py: full base snapshots, and delta segments between them.
--
-- A file is an entry of `files`, the last one written first; the `json` module is a parameter. Whether
-- a write succeeds is an argument of a call; the metadata file is left aside, since it is read only
-- when a manager is made.
pub mod Load
pub mod Chain
pub mod RoundTrip
pub mod Repeats
use Prim.Native.String.{◌++◌ as concat}
use stocky_cognitive_runtime.Prelude.{
  ℕ, suc, ◌+◌, ◌==◌, String, Bool, true, false, not, Option, none, some, List, [], ◌∷◌, ◌++◌,
  length, drop, keep, leb, ltb, str_eq, if◌then◌else◌,
}
use stocky_cognitive_runtime.Prelude.Raise.{Result, ok, err}
use stocky_cognitive_runtime.Data.Float.{Float}
use stocky_cognitive_runtime.Data.Json.{Fields, Codec}
use stocky_cognitive_runtime.Data.Trace.{ExecutionTrace}
use stocky_cognitive_runtime.Queue.{order_by}
use stocky_cognitive_runtime.Recovery.Snapshot.{RuntimeSnapshot, update_fields}
use stocky_cognitive_runtime.Recovery.Snapshot.Text.{to_json}

pub record DeltaSegment : Type 0 where
  pub delta_id : String
  pub base_id : String
  pub sequence_no : ℕ
  pub created_at : ℕ
  pub cycle_count : ℕ
  pub base_cycle_count : ℕ
  pub trace_offset : ℕ
  pub new_traces : List ExecutionTrace
  pub new_governance_scores : List Float
  pub new_confidence_scores : List Float
  pub new_stability_scores : List Float
  pub state : Fields
  pub queue_depth : ℕ
  pub total_events_processed : ℕ

pub record CheckpointBaseMeta : Type 0 where
  pub base_id : String
  pub created_at : ℕ
  pub cycle_count : ℕ
  pub trace_count : ℕ
  pub schema_version : String
  pub file_path : String
  pub health_status : String
  pub governance_status : String
  pub governance_score_count : ℕ
  pub confidence_score_count : ℕ
  pub stability_score_count : ℕ

pub record DeltaCheckpointManager : Type 0 where
  pub enabled : Bool
  pub base_interval : ℕ
  pub max_bases : ℕ
  pub dir : String
  pub bases : List CheckpointBaseMeta
  pub deltas : List (String × List DeltaSegment)
  pub last_saved_trace_count : ℕ
  pub files : List (String × String)

-- A manager over a directory with no metadata in it.
abbrev pub new_manager : String → ℕ → ℕ → DeltaCheckpointManager
new_manager dir base_interval max_bases = record {
  enabled = true;
  base_interval = base_interval;
  max_bases = max_bases;
  dir = dir;
  bases = [];
  deltas = [];
  last_saved_trace_count = 0;
  files = [];
}

unfoldable pub read_file : String → List (String × String) → Option String
read_file path [] = none
read_file path ((p, text) ∷ files) =
    let rest = read_file path files in if str_eq p path then some text else rest

unfoldable pub remove_file : String → List (String × String) → List (String × String)
remove_file path files = keep (λ f. not (str_eq f.0 path)) files

-- `self._bases[-1] if self._bases else None`
unfoldable pub latest_base : List CheckpointBaseMeta → Option CheckpointBaseMeta
latest_base [] = none
latest_base (b ∷ []) = some b
latest_base (b ∷ c ∷ rest) = latest_base (c ∷ rest)

-- `self._deltas.get(base_id, [])`
unfoldable pub deltas_of : String → List (String × List DeltaSegment) → List DeltaSegment
deltas_of id [] = []
deltas_of id ((i, ds) ∷ rest) = let found = deltas_of id rest in if str_eq i id then ds else found

-- `base.cycle_count` cycles ago, or more than the interval; the difference may be negative.
unfoldable pub is_due : DeltaCheckpointManager → ℕ → Option CheckpointBaseMeta → Bool
is_due m cycle none = true
is_due m cycle (some b) = leb (b.cycle_count + m.base_interval) cycle

abbrev pub base_path : String → String → String
base_path dir id = concat dir (concat "/base_" (concat id ".json"))

-- `_prune_old_bases`. The deltas were cleared before, so it finds none to remove.
unfoldable pub prune_old_bases :
    ℕ
    → List CheckpointBaseMeta
    → List (String × String)
    → List CheckpointBaseMeta × List (String × String)
unfolding remove_file
prune_old_bases max [] files = ([], files)
prune_old_bases max (b ∷ rest) files =
    let pruned = prune_old_bases max rest (remove_file b.file_path files) in
    if ltb max (suc (length rest)) then pruned else (b ∷ rest, files)

abbrev pub base_meta : String → RuntimeSnapshot → String → String → CheckpointBaseMeta
base_meta dir s health governance = record {
  base_id = s.snapshot_id;
  created_at = s.created_at;
  cycle_count = s.cycle_count;
  trace_count = s.trace_count;
  schema_version = s.schema_version;
  file_path = base_path dir s.snapshot_id;
  health_status = health;
  governance_status = governance;
  governance_score_count = length s.governance_scores;
  confidence_score_count = length s.confidence_scores;
  stability_score_count = length s.stability_scores;
}

abbrev pub make_delta :
    DeltaCheckpointManager → CheckpointBaseMeta → List DeltaSegment → RuntimeSnapshot → DeltaSegment
make_delta m base deltas s = record {
  delta_id = concat "delta_" s.snapshot_id;
  base_id = base.base_id;
  sequence_no = length deltas + 1;
  created_at = s.created_at;
  cycle_count = s.cycle_count;
  base_cycle_count = base.cycle_count;
  trace_offset = m.last_saved_trace_count;
  new_traces = drop m.last_saved_trace_count s.traces;
  new_governance_scores = drop base.governance_score_count s.governance_scores;
  new_confidence_scores = drop base.confidence_score_count s.confidence_scores;
  new_stability_scores = drop base.stability_score_count s.stability_scores;
  state = s.state;
  queue_depth = s.queue_depth;
  total_events_processed = s.total_events_processed;
}

module _ (codec : Codec) where
  -- `_save_base`, with whether the write succeeds.
  unfoldable pub save_base :
      DeltaCheckpointManager
      → Bool
      → RuntimeSnapshot
      → String
      → String
      → DeltaCheckpointManager × String
  unfolding prune_old_bases
  save_base m writes s health governance =
      let meta = base_meta m.dir s health governance in
      let pruned =
        prune_old_bases m.max_bases (m.bases ++ meta ∷ [])
          ((meta.file_path, to_json codec s) ∷ m.files) in
      if not writes then (m, "") else (
        record m {
          deltas = [];
          bases = pruned.0;
          files = pruned.1;
          last_saved_trace_count = s.trace_count;
        },
        s.snapshot_id,
      )

  -- `_save_delta`, from the latest base. The segment's file is never read back.
  unfoldable pub save_delta :
      DeltaCheckpointManager
      → Bool
      → RuntimeSnapshot
      → Option CheckpointBaseMeta
      → DeltaCheckpointManager × String
  unfolding save_base deltas_of
  save_delta m writes s none = save_base m writes s "" ""
  save_delta m writes s (some base) =
      let deltas = deltas_of base.base_id m.deltas in
      let delta = make_delta m base deltas s in
      if not writes then (m, "") else (
        record m {
          deltas = (base.base_id, deltas ++ delta ∷ []) ∷ m.deltas;
          last_saved_trace_count = s.trace_count;
        },
        delta.delta_id,
      )

  unfoldable pub save :
      DeltaCheckpointManager
      → Bool
      → RuntimeSnapshot
      → String
      → String
      → DeltaCheckpointManager × Option String
  unfolding save_base save_delta is_due latest_base
  save m writes s health governance =
      let saved =
        if is_due m s.cycle_count (latest_base m.bases)
        then save_base m writes s health governance
        else save_delta m writes s (latest_base m.bases) in
      if not m.enabled then (m, none) else (saved.0, some saved.1)

-- A new manager over the directory of one whose metadata is written: `__init__` and `_read_metadata`
-- do not restore the count of the saved traces.
abbrev pub reopen : DeltaCheckpointManager → DeltaCheckpointManager
reopen m = record m { enabled = true; last_saved_trace_count = 0 }

unfoldable pub remove_bases :
    List CheckpointBaseMeta → List (String × String) → List (String × String)
unfolding remove_file
remove_bases [] files = files
remove_bases (b ∷ rest) files = remove_bases rest (remove_file b.file_path files)

-- `clear`
unfoldable pub clear : DeltaCheckpointManager → DeltaCheckpointManager
unfolding remove_bases
clear m = record m { bases = []; deltas = []; files = remove_bases m.bases m.files }
