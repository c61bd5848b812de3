-- ===== src/Queue/Events.antt =====
-- substrate/event_queue.py: the life of an event, `push`, `pop` and `ack`.
use stocky_cognitive_runtime.Prelude.{
  ℕ, ◌+◌, String, not, Option, none, some, List, [], ◌∷◌, ◌++◌, if◌then◌else◌,
}
use stocky_cognitive_runtime.Prelude.Raise.{ok, err}
use stocky_cognitive_runtime.Data.Json.{Json, null, str, obj, end, field, truthy, Codec}
use stocky_cognitive_runtime.Data.Contract.{
  HostEvent, ExecutionResult, ResultStatus, success, failed, skipped, queued,
}
use stocky_cognitive_runtime.Queue.{
  pending, processing, done, EventRow, ResultRow, find_event, with_status, by_sequence, find,
  update, order_by, EventQueue, Answer, not_connected, integrity_error, next_sequence, is_some,
}

abbrev pub status_text : ResultStatus → String
status_text success = "SUCCESS"
status_text failed = "FAILED"
status_text skipped = "SKIPPED"
status_text queued = "QUEUED"

abbrev or_null : Option Json → Json
or_null none = null
or_null (some j) = j

abbrev text_or_null : Option String → Json
text_or_null none = null
text_or_null (some s) = str s

abbrev pub start : ℕ → EventRow → EventRow
start now r = record r { status = processing; started_at = some now }

abbrev pub finish : ℕ → String → EventRow → EventRow
finish now text r = record r { status = done; finished_at = some now; result = some text }

module _ (codec : Codec) where
  unfoldable pub new_row : HostEvent → ℕ → ℕ → EventRow
  new_row e now seq = record {
    event_id = e.event_id;
    session_id = e.session_id;
    event_type = e.source;
    payload = codec.dumps e.payload;
    status = pending;
    retry_count = 0;
    created_at = now;
    started_at = none;
    finished_at = none;
    result = none;
    error = none;
    sequence_no = seq;
  }

  unfoldable pub push : EventQueue → HostEvent → ℕ → Answer HostEvent
  unfolding new_row next_sequence find
  push q e now =
      if not q.connected
      then err not_connected
      else if is_some (find_event e.event_id q.db.events)
      then err integrity_error
      else ok (
        e,
        record q {
          db = record q.db {
            events = q.db.events ++ new_row e now (next_sequence q.db.events) ∷ [];
          };
          stats = record q.stats {
            total_events = q.stats.total_events + 1;
            last_event_id = e.event_id;
            last_event_at = some now;
          };
        },
      )

  -- The event that a row is read back as.
  unfoldable pub event_of : EventRow → HostEvent
  event_of r = record {
    event_id = r.event_id;
    session_id = r.session_id;
    timestamp = r.created_at;
    source = r.event_type;
    payload = codec.loads r.payload;
  }

  -- The row of `LIMIT 1`, if there is one, is marked and returned.
  unfoldable pub pop_first : EventQueue → ℕ → List EventRow → Option HostEvent × EventQueue
  unfolding update event_of
  pop_first q now [] = (none, q)
  pop_first q now (r ∷ rs) = (
    some (event_of r),
    record q { db = record q.db { events = update r.event_id (start now) q.db.events } },
  )

  unfoldable pub pop : EventQueue → ℕ → Answer (Option HostEvent)
  unfolding pop_first order_by
  pop q now =
      if not q.connected
      then err not_connected
      else ok (pop_first q now (order_by by_sequence (with_status pending q.db.events)))

  unfoldable pub result_text : ExecutionResult → String
  result_text r = codec.dumps (
      obj (
        field "status" (str (status_text r.status))
          (field "output" (or_null r.output) (field "error" (text_or_null r.error) end))))

  stored_output : Option Json → Option String
  stored_output none = none
  stored_output (some j) = if truthy j then some (codec.dumps j) else none

  -- `_insert_result`: INSERT OR IGNORE.
  unfoldable pub insert_result : ExecutionResult → List ResultRow → List ResultRow
  unfolding find stored_output
  insert_result r rows =
      if is_some (find (λ (row : ResultRow). row.execution_id) r.execution_id rows)
      then rows
      else rows
        ++ (record {
          execution_id = r.execution_id;
          proposal_id = r.proposal_id;
          session_id = r.session_id;
          status = r.status;
          output = stored_output r.output;
          error = r.error;
          started_at = r.started_at;
          finished_at = r.finished_at;
        })
          ∷ []

  unfoldable pub ack : EventQueue → String → ExecutionResult → ℕ → Answer Unit
  unfolding update insert_result result_text
  ack q event_id r now =
      if not q.connected
      then err not_connected
      else ok (
        tt,
        record q {
          db = record q.db {
            events = update event_id (finish now (result_text r)) q.db.events;
            results = insert_result r q.db.results;
          };
          stats = record q.stats { processed = q.stats.processed + 1 };
        },
      )
