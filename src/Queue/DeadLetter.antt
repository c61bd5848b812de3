-- ===== src/Queue/DeadLetter.antt =====
-- substrate/event_queue.py: `nack`, the dead letter table and its replay, and the reading calls.
use stocky_cognitive_runtime.Prelude.{
  ℕ, ◌+◌, ◌-◌, String, not, ◌&&◌, Option, none, some, List, [], ◌∷◌, ◌++◌, map, str_eq, ltb, leb,
  if◌then◌else◌, length, keep,
}
use stocky_cognitive_runtime.Prelude.Raise.{Result, ok, err, ◌>>=◌}
use stocky_cognitive_runtime.Data.Json.{Json, str, obj, get_field, Codec}
use stocky_cognitive_runtime.Data.Contract.{HostEvent, PolicyDecision, DeadLetterEvent}
use stocky_cognitive_runtime.Queue.{
  pending, dead, EventRow, DeadRow, DecisionRow, find_event, find_dead, by_sequence, newest_first,
  find, update, order_by, delete_oldest, EventQueue, Answer, QueueError, not_connected,
  integrity_error, unbindable, not_a_dict, max_dead_letter, is_some,
}
use stocky_cognitive_runtime.Queue.Events.{push, event_of}

-- `_prune_dead_letter`
unfoldable pub prune_dead_letter : List DeadRow → List DeadRow
unfolding delete_oldest
prune_dead_letter rows =
    if ltb max_dead_letter (length rows)
    then delete_oldest (length rows - max_dead_letter) rows
    else rows

-- The INSERT OR IGNORE of `_move_to_dlq`.
unfoldable pub insert_dead : DeadRow → List DeadRow → List DeadRow
unfolding find
insert_dead row rows = if is_some (find_dead row.event_id rows) then rows else rows ++ row ∷ []

-- `_move_to_dlq`
unfoldable pub move_to_dlq : DeadRow → List DeadRow → List DeadRow
unfolding prune_dead_letter insert_dead
move_to_dlq row rows = prune_dead_letter (insert_dead row rows)

abbrev pub dead_row : String → String → String → ℕ → ℕ → DeadRow
dead_row event_id payload reason count now = record {
  event_id = event_id;
  original_event = payload;
  failure_reason = reason;
  retry_count = count;
  created_at = now;
}

abbrev pub bury : String → ℕ → EventRow → EventRow
bury error retries r = record r { status = dead; error = some error; retry_count = retries }

abbrev pub again : ℕ → EventRow → EventRow
again retries r = record r { status = pending; retry_count = retries }

-- The two branches of `nack` on the row that it found.
unfoldable pub nack_row : EventQueue → String → String → ℕ → EventRow → EventQueue
unfolding move_to_dlq update
nack_row q event_id error now row =
    let retries = row.retry_count + 1 in
    if leb q.max_retries retries
    then record q {
      db = record q.db {
        events = update event_id (bury error retries) q.db.events;
        dead_letter =
            move_to_dlq (dead_row event_id row.payload error retries now) q.db.dead_letter;
      };
      stats = record q.stats { dead_lettered = q.stats.dead_lettered + 1 };
    }
    else record q {
      db = record q.db { events = update event_id (again retries) q.db.events };
      stats = record q.stats { failures = q.stats.failures + 1 };
    }

unfoldable pub nack_found : EventQueue → String → String → ℕ → Option EventRow → EventQueue
unfolding nack_row
nack_found q event_id error now none = q
nack_found q event_id error now (some row) = nack_row q event_id error now row

-- The code ignores the argument `proposal`.
unfoldable pub nack : EventQueue → String → String → ℕ → Answer Unit
unfolding nack_found find
nack q event_id error now =
    if not q.connected
    then err not_connected
    else ok (tt, nack_found q event_id error now (find_event event_id q.db.events))

unfoldable pub decision_row : PolicyDecision → ℕ → DecisionRow
decision_row d now = record {
  decision_id = d.decision_id;
  proposal_id = d.proposal_id;
  session_id = d.session_id;
  verdict = d.verdict;
  reason = d.reason;
  risk_level = d.risk_level;
  rule_triggered = d.rule_triggered;
  confidence = d.confidence;
  created_at = now;
}

abbrev pub find_decision : String → List DecisionRow → Option DecisionRow
find_decision = find (λ row. row.decision_id)

-- `record_decision`: a plain INSERT.
unfoldable pub record_decision : EventQueue → PolicyDecision → ℕ → Answer Unit
unfolding find decision_row
record_decision q d now =
    if not q.connected
    then err not_connected
    else if is_some (find_decision d.decision_id q.db.decisions)
    then err integrity_error
    else ok (
      tt,
      record q { db = record q.db { decisions = q.db.decisions ++ decision_row d now ∷ [] } },
    )

unfoldable pub delete_dead : String → EventQueue → EventQueue
delete_dead event_id q = record q {
  db = record q.db { dead_letter = keep (λ r. not (str_eq r.event_id event_id)) q.db.dead_letter };
}

abbrev pub replay_event : String → ℕ → Json → String → HostEvent
replay_event fresh_id created payload session_id = record {
  event_id = fresh_id;
  session_id = session_id;
  timestamp = created;
  source = "replay";
  payload = payload;
}

unfoldable pub drop_replayed : String → HostEvent × EventQueue → Answer (Option HostEvent)
unfolding delete_dead
drop_replayed event_id (e, q) = ok (some e, delete_dead event_id q)

module _ (codec : Codec) where
  unfoldable pub dead_event_of : DeadRow → DeadLetterEvent
  dead_event_of r = record {
    event_id = r.event_id;
    original_event = codec.loads r.original_event;
    failure_reason = r.failure_reason;
    retry_count = r.retry_count;
  }

  unfoldable pub dead_letter_events : EventQueue → Result QueueError (List DeadLetterEvent)
  unfolding dead_event_of order_by
  dead_letter_events q =
      if not q.connected
      then err not_connected
      else ok (map dead_event_of (order_by newest_first q.db.dead_letter))

  -- `get_by_session`, which `replay` calls.
  unfoldable pub get_by_session : EventQueue → String → Result QueueError (List HostEvent)
  unfolding order_by
  get_by_session q session_id =
      if not q.connected
      then err not_connected
      else ok (
          map (event_of codec)
            (order_by by_sequence (keep (λ r. str_eq r.session_id session_id) q.db.events)))

  unfoldable pub get_by_range : EventQueue → ℕ → ℕ → Result QueueError (List HostEvent)
  unfolding order_by
  get_by_range q start_seq end_seq =
      if not q.connected
      then err not_connected
      else ok (
          map (event_of codec) (
            order_by by_sequence
              (keep (λ r. leb start_seq r.sequence_no && leb r.sequence_no end_seq) q.db.events)))

  -- What sqlite3 stores for a value in a TEXT column that holds no null, `none` if it refuses it.
  module _ (bind : Json → Option String) where
    unfoldable pub session_text : Option Json → Result QueueError String
    session_text none = ok ""
    session_text (some (str s)) = ok s
    session_text (some j) = elim (bind j) [ none ↦ err unbindable | some s ↦ ok s ]

    -- `payload.get("session_id", "")`
    unfoldable pub session_of : Json → Result QueueError String
    unfolding session_text get_field
    session_of (obj fields) = session_text (get_field fields "session_id")
    session_of _ = err not_a_dict

    unfoldable pub push_replayed :
        EventQueue → String → String → ℕ → ℕ → Json → String → Answer (Option HostEvent)
    unfolding push drop_replayed
    push_replayed q event_id fresh_id created now payload session_id =
        push codec q (replay_event fresh_id created payload session_id) now
        >>= drop_replayed event_id

    -- The row that was found is pushed as a new event and deleted; `created` and `now` are the
    -- readings for the new event and for `push`.
    unfoldable pub replay_row :
        EventQueue → String → String → ℕ → ℕ → DeadRow → Answer (Option HostEvent)
    unfolding session_of push_replayed
    replay_row q event_id fresh_id created now row =
        let payload = codec.loads row.original_event in
        session_of payload >>= push_replayed q event_id fresh_id created now payload

    unfoldable pub replay_found :
        EventQueue → String → String → ℕ → ℕ → Option DeadRow → Answer (Option HostEvent)
    unfolding replay_row
    replay_found q event_id fresh_id created now none = ok (none, q)
    replay_found q event_id fresh_id created now (some row) =
        replay_row q event_id fresh_id created now row

    unfoldable pub replay_dead_letter :
        EventQueue → String → String → ℕ → ℕ → Answer (Option HostEvent)
    unfolding replay_found find
    replay_dead_letter q event_id fresh_id created now =
        if not q.connected
        then err not_connected
        else replay_found q event_id fresh_id created now (find_dead event_id q.db.dead_letter)
