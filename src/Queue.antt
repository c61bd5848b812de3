-- ===== src/Queue.antt =====
-- cognitive_runtime/substrate/event_queue.py: the persistent event queue over SQLite.
--
-- The database file is the record `Db`; it outlives the connection. A call that raises returns the
-- error and leaves database and statistics as they were: the one statement of the queue that can
-- raise within a call, an INSERT that repeats a primary key, comes before the call's other writes.
-- The PRAGMA lines, indices and commits have no part in the model: each call is one transaction.
-- The `json` module is the parameter `codec`; clock readings and fresh UUIDs are arguments.
mod Rows
pub mod Events
pub mod DeadLetter
pub mod Ordered
pub mod Calls
pub mod Invariant
pub mod Preserved
pub mod Fifo
pub mod Retries
pub mod Kept
pub use Rows.{
  Status, pending, processing, done, dead, same_status, EventRow, DeadRow, DecisionRow, ResultRow,
  Db, empty_db, find_event, find_dead, with_status, by_sequence, newest_first,
}
unfoldable pub use Rows.{
  find, update, insert_by, order_by, max_sequence, take_oldest, delete_oldest,
}
use stocky_cognitive_runtime.Prelude.{
  ℕ, zero, suc, ◌+◌, ◌-◌, String, Bool, true, false, not, ◌&&◌, Option, none, some, List, [], ◌∷◌,
  ◌++◌, map, str_eq, ltb, leb, if◌then◌else◌, length, keep,
}
use stocky_cognitive_runtime.Prelude.Raise.{Result, ok, err, ◌>>=◌}
use stocky_cognitive_runtime.Data.Json.{
  Json, null, str, obj, Fields, end, field, truthy, get_field, Codec,
}
use stocky_cognitive_runtime.Data.Contract.{
  HostEvent, PolicyDecision, ExecutionResult, DeadLetterEvent, ResultStatus, success, failed,
  skipped, queued,
}

pub record QueueStats : Type 0 where
  pub total_events : ℕ
  pub processed : ℕ
  pub failures : ℕ
  pub dead_lettered : ℕ
  pub depth : ℕ
  pub last_event_id : String
  pub last_event_at : Option ℕ

-- `connected` is `_conn is not None`.
pub record EventQueue : Type 0 where
  pub db : Db
  pub max_retries : ℕ
  pub connected : Bool
  pub stats : QueueStats
  pub closed : Bool

-- `not_connected` is the AttributeError of a call on `None`, `unbindable` the error of sqlite3 for a
-- value that it cannot store as text, `not_a_dict` the AttributeError of `get` on a JSON value.
pub data QueueError : Type 0 where
  not_connected integrity_error unbindable not_a_dict : QueueError

abbrev pub Answer : Type 0 → Type 0
Answer A = Result QueueError (A × EventQueue)

abbrev pub max_dead_letter : ℕ
max_dead_letter = 1000

abbrev pub new_stats : QueueStats
new_stats = record {
  total_events = 0;
  processed = 0;
  failures = 0;
  dead_lettered = 0;
  depth = 0;
  last_event_id = "";
  last_event_at = none;
}

-- `EventQueue(db_path, max_retries)`, over what the file holds.
abbrev pub new_queue : Db → ℕ → EventQueue
new_queue db max_retries = record {
  db = db;
  max_retries = max_retries;
  connected = false;
  stats = new_stats;
  closed = false;
}

-- `count_by_status`, at one status (a status with no row counts 0).
pub count_by_status : List EventRow → Status → ℕ
count_by_status rows s = length (with_status s rows)

unfoldable pub refresh_stats : EventQueue → EventQueue
unfolding count_by_status
refresh_stats q = record q {
  stats = record q.stats {
    processed = count_by_status q.db.events done;
    failures = count_by_status q.db.events pending;
    depth = count_by_status q.db.events pending;
    dead_lettered = length q.db.dead_letter;
  };
}

unfoldable pub open_queue : EventQueue → EventQueue
unfolding refresh_stats
open_queue q = refresh_stats (record q { connected = true })

unfoldable pub close_queue : EventQueue → EventQueue
close_queue q = if q.connected then record q { connected = false; closed = true } else q

unfoldable pub next_sequence : List EventRow → ℕ
unfolding max_sequence
next_sequence rows = max_sequence rows + 1

abbrev pub is_some {ℓ} : {A : Type ℓ} → Option A → Bool
is_some none = false
is_some (some a) = true

unfoldable pub queue_depth : EventQueue → ℕ
unfolding count_by_status
queue_depth q = if not q.connected then 0 else count_by_status q.db.events pending
