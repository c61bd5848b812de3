-- ===== src/TraceWindow.antt =====
-- cognitive_runtime/runtime/trace_window.py: bounded storage of traces with an archive.
--
-- An archived trace is kept as a dictionary of all its fields (`asdict`), which is read back field
-- by field: the model keeps the trace. SHA-256 is the parameter `digest`, from the text that is
-- hashed to the hexadecimal digits; `show` is the text of a float. `none` is an IndexError.
pub mod Archive
pub mod History
pub mod Access
pub mod Reads
pub mod Slices
pub mod Integrity
use Prim.Native.String.{◌++◌ as concat}
use stocky_cognitive_runtime.Prelude.{
  ℕ, zero, suc, ◌+◌, ◌-◌, ◌/◌, min, String, Bool, true, false, not, Option, none, some, List, [],
  ◌∷◌, ◌++◌, ltb, leb, if◌then◌else◌, length, get_elem?, take, drop, any, str_eq, arith,
}
use stocky_cognitive_runtime.Prelude.Int.{ℤ, pos, negsuc, sub_ℕ}
use stocky_cognitive_runtime.Data.Float.{Float}
use stocky_cognitive_runtime.Data.Trace.{ExecutionTrace}

pub record CompressedSegment : Type 0 where
  pub start_cycle : ℕ
  pub end_cycle : ℕ
  pub count : ℕ
  pub traces : List ExecutionTrace
  pub integrity_hash : String

pub record TraceWindow : Type 0 where
  pub max_active : ℕ
  pub max_archived : ℕ
  pub active : List ExecutionTrace
  pub archived : List CompressedSegment
  pub total_count : ℕ
  pub archived_total : ℕ
  pub replay_cursor : ℕ
  pub integrity_hash : String

abbrev pub segment_size : ℕ
segment_size = 1000

abbrev pub new_window : ℕ → ℕ → TraceWindow
new_window max_active max_archived = record {
  max_active = max_active;
  max_archived = max_archived;
  active = [];
  archived = [];
  total_count = 0;
  archived_total = 0;
  replay_cursor = 0;
  integrity_hash = "";
}

abbrev fresh_segment : ℕ → ExecutionTrace → CompressedSegment
fresh_segment cycle t = record {
  start_cycle = cycle;
  end_cycle = cycle;
  count = 1;
  traces = t ∷ [];
  integrity_hash = "";
}

abbrev extended : CompressedSegment → ExecutionTrace → CompressedSegment
extended s t = record s { count = s.count + 1; traces = s.traces ++ t ∷ [] }

-- The rest of the list behind its first segment, with the last segment extended.
extend_last : CompressedSegment → List CompressedSegment → ExecutionTrace → List CompressedSegment
extend_last s [] t = extended s t ∷ []
extend_last s (r ∷ rest) t = s ∷ extend_last r rest t

-- `_build_segment`: the segment that it writes is the last one of the list it returns.
pub build_segment : ℕ → List CompressedSegment → ExecutionTrace → List CompressedSegment
unfolding extend_last
build_segment cycle [] t = fresh_segment cycle t ∷ []
build_segment cycle (s ∷ rest) t = extend_last s rest t

-- `_prune_archived`
unfoldable pub prune_archived : ℕ → List CompressedSegment → List CompressedSegment
prune_archived max [] = []
prune_archived max (s ∷ rest) =
    let fewer = prune_archived max rest in if ltb max (length (s ∷ rest)) then fewer else s ∷ rest

pub archived_traces : List CompressedSegment → List ExecutionTrace
archived_traces [] = []
archived_traces (s ∷ rest) = s.traces ++ archived_traces rest

pub all_traces : TraceWindow → List ExecutionTrace
unfolding archived_traces
all_traces w = archived_traces w.archived ++ w.active

module _ (digest : String → String) (show : Float → String) where
  -- The text of a trace that is hashed.
  unfoldable pub line : ExecutionTrace → String
  line t = concat t.event_id (concat "|" (concat t.final_status (concat "|" (show t.risk_score))))

  pub lines : List ExecutionTrace → String
  unfolding line
  lines [] = ""
  lines (t ∷ ts) = concat (line t) (lines ts)

  finalized : CompressedSegment → CompressedSegment
  unfolding lines
  finalized s =
      if ltb s.count segment_size then s else record s { integrity_hash = digest (lines s.traces) }

  -- `_finalize_segment`, on the last segment.
  pub finalize_last : List CompressedSegment → List CompressedSegment
  unfolding finalized
  finalize_last [] = []
  finalize_last (s ∷ []) = finalized s ∷ []
  finalize_last (s ∷ r ∷ rest) = s ∷ finalize_last (r ∷ rest)

  -- `_archive`
  pub archive : TraceWindow → ExecutionTrace → TraceWindow
  unfolding build_segment finalize_last
  archive w t = record w {
    archived = finalize_last (build_segment w.archived_total w.archived t);
    archived_total = w.archived_total + 1;
  }

  -- The loop of `append`, over the active traces: `popleft` of an empty deque raises.
  unfoldable pub make_room : TraceWindow → List ExecutionTrace → Option TraceWindow
  unfolding archive
  make_room w [] = if leb w.max_active 0 then none else some (record w { active = [] })
  make_room w (t ∷ rest) =
      let more = make_room (archive w t) rest in
      if leb w.max_active (length (t ∷ rest)) then more else some (record w { active = t ∷ rest })

  unfoldable pub rolling_hash : String → ExecutionTrace → String
  unfolding line
  rolling_hash current t = digest (concat current (line t))

  unfoldable pub admit : ExecutionTrace → TraceWindow → TraceWindow
  unfolding rolling_hash prune_archived
  admit t w = record w {
    active = w.active ++ t ∷ [];
    integrity_hash = rolling_hash w.integrity_hash t;
    archived = prune_archived w.max_archived w.archived;
  }

  unfoldable pub append : TraceWindow → ExecutionTrace → Option TraceWindow
  unfolding make_room admit
  append w t = elim (make_room (record w { total_count = w.total_count + 1 }) w.active) [
    | none ↦ none
    | some w' ↦ some (admit t w')
  ]

  -- The traces are hashed in one stream.
  pub verify_integrity : TraceWindow → Bool
  unfolding lines all_traces
  verify_integrity w = str_eq (digest (lines (all_traces w))) w.integrity_hash

abbrev pub clear : TraceWindow → TraceWindow
clear w = record w {
  active = [];
  archived = [];
  total_count = 0;
  archived_total = 0;
  replay_cursor = 0;
  integrity_hash = "";
}
