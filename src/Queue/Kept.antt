-- ===== src/Queue/Kept.antt =====
-- substrate/event_queue.py: an event of the table and what it carries, over any calls.
use stocky_cognitive_runtime.Prelude.{
  ℕ, ◌+◌, ◌≡◌, refl, ◌∙◌, inl, inr, String, not, Option, none, some, List, [], ◌∷◌, ◌++◌, arith,
  leb, str_eq, Bool-cases,
}
use stocky_cognitive_runtime.Data.Json.{Json, Codec}
use stocky_cognitive_runtime.Data.Contract.{HostEvent, ExecutionResult, PolicyDecision}
use stocky_cognitive_runtime.Queue.{
  EventRow, DeadRow, find_event, update, find, EventQueue, open_queue, close_queue, not_connected,
  integrity_error, is_some, with_status, pending, order_by, by_sequence,
}
use stocky_cognitive_runtime.Queue.Events.{push, pop, pop_first, result_text, ack, start, finish}
use stocky_cognitive_runtime.Queue.DeadLetter.{
  bury, again, nack_row, nack_found, nack, find_decision, record_decision, delete_dead,
  replay_event, drop_replayed, push_replayed, session_of, replay_row, replay_found,
  replay_dead_letter,
}
use stocky_cognitive_runtime.Queue.Ordered.{find-update, KeepsKey}
use stocky_cognitive_runtime.Queue.Preserved.{
  start-KeepsKey, finish-KeepsKey, bury-KeepsKey, again-KeepsKey,
}
use stocky_cognitive_runtime.Queue.Calls.{
  Call, opens, closes, pushes, pops, acks, nacks, decides, replays, after, after_guard, after_bind,
  after_result, step, run,
}

-- What an event carries, and its place in the order.
pub record Carries (r s : EventRow) : Type 0 where
  pub id : s.event_id ≡ r.event_id
  pub session : s.session_id ≡ r.session_id
  pub kind : s.event_type ≡ r.event_type
  pub load : s.payload ≡ r.payload
  pub created : s.created_at ≡ r.created_at
  pub place : s.sequence_no ≡ r.sequence_no

pub record Holds (id : String) (r : EventRow) (q : EventQueue) : Type 0 where
  pub row : EventRow
  pub found : find_event id q.db.events ≡ some row
  pub same : Carries r row

find-append_some :
    (id : String) (rows : List EventRow) (r x : EventRow)
    → find_event id rows ≡ some r
    → find_event id (rows ++ x ∷ []) ≡ some r
unfolding find
find-append_some id [] r x e = cc
find-append_some id (s ∷ rows) r x e = ground (arith, find-append_some id rows r x)

abbrev with_events : EventQueue → List EventRow → EventQueue
with_events q rows = record q { db = record q.db { events = rows } }

Carries-start : (now : ℕ) (s : EventRow) → Carries s (start now s)
Carries-start now s = record {
  id = refl;
  session = refl;
  kind = refl;
  load = refl;
  created = refl;
  place = refl;
}

Carries-finish : (now : ℕ) (text : String) (s : EventRow) → Carries s (finish now text s)
Carries-finish now text s = record {
  id = refl;
  session = refl;
  kind = refl;
  load = refl;
  created = refl;
  place = refl;
}

Carries-bury : (error : String) (n : ℕ) (s : EventRow) → Carries s (bury error n s)
Carries-bury error n s = record {
  id = refl;
  session = refl;
  kind = refl;
  load = refl;
  created = refl;
  place = refl;
}

Carries-again : (n : ℕ) (s : EventRow) → Carries s (again n s)
Carries-again n s = record {
  id = refl;
  session = refl;
  kind = refl;
  load = refl;
  created = refl;
  place = refl;
}

module _ (id : String) (r : EventRow) where
  -- Holding depends on the events table only.
  Holds-of_events : (q q' : EventQueue) → q'.db.events ≡ q.db.events → Holds id r q → Holds id r q'
  Holds-of_events q q' e h = record { row = h.row; found = rw e h.found; same = h.same }

  Holds-update :
      (q q' : EventQueue) (j : String) (set : EventRow → EventRow)
      → KeepsKey set
      → ((s : EventRow) → Carries s (set s))
      → q'.db.events ≡ update j set q.db.events
      → Holds id r q
      → Holds id r q'
  Holds-update q q' j set k carries e h = elim (Bool-cases (str_eq j id)) [
    | inl written ↦ record {
      row = set h.row;
      found = rw (e, find-update j id set q.db.events k, written, h.found) refl;
      same = record {
        id = (carries h.row).id ∙ h.same.id;
        session = (carries h.row).session ∙ h.same.session;
        kind = (carries h.row).kind ∙ h.same.kind;
        load = (carries h.row).load ∙ h.same.load;
        created = (carries h.row).created ∙ h.same.created;
        place = (carries h.row).place ∙ h.same.place;
      };
    }
    | inr other ↦ record {
      row = h.row;
      found = rw (e, find-update j id set q.db.events k, other) h.found;
      same = h.same;
    }
  ]

  module _ (codec : Codec) where
    push-Holds :
        (q : EventQueue) (e : HostEvent) (now : ℕ)
        → Holds id r q
        → Holds id r (after q (push codec q e now))
    unfolding push
    push-Holds q e now h = after_guard (Holds id r) (not q.connected) q not_connected _ h λ on.
        after_guard (Holds id r) (is_some (find_event e.event_id q.db.events)) q integrity_error _ h
          λ new. record {
            row = h.row;
            found = find-append_some id q.db.events h.row _ h.found;
            same = h.same;
          }

    pop_first-Holds :
        (q : EventQueue) (now : ℕ) (rows : List EventRow)
        → Holds id r q
        → Holds id r (pop_first codec q now rows).1
    unfolding pop_first
    pop_first-Holds q now [] h = h
    pop_first-Holds q now (x ∷ rows) h =
        Holds-update q _ x.event_id (start now) (start-KeepsKey now) (Carries-start now) refl h

    pop-Holds : (q : EventQueue) (now : ℕ) → Holds id r q → Holds id r (after q (pop codec q now))
    unfolding pop
    pop-Holds q now h =
        after_guard (Holds id r) (not q.connected) q not_connected _ h
          λ on. pop_first-Holds q now (order_by by_sequence (with_status pending q.db.events)) h

    ack-Holds :
        (q : EventQueue) (j : String) (x : ExecutionResult) (now : ℕ)
        → Holds id r q
        → Holds id r (after q (ack codec q j x now))
    unfolding ack
    ack-Holds q j x now h = after_guard (Holds id r) (not q.connected) q not_connected _ h λ on.
        Holds-update q _ j _ (finish-KeepsKey now (result_text codec x)) (Carries-finish now _) refl
          h

  nack_row-Holds :
      (q : EventQueue) (j error : String) (now : ℕ) (row : EventRow)
      → Holds id r q
      → Holds id r (nack_row q j error now row)
  unfolding nack_row
  nack_row-Holds q j error now row h = elim (Bool-cases (leb q.max_retries (row.retry_count + 1))) [
    | inl spent ↦ simp spent (
        Holds-update q _ j _ (bury-KeepsKey error (row.retry_count + 1)) (Carries-bury error _) refl
          h)
    | inr left ↦
        simp left
          (Holds-update q _ j _ (again-KeepsKey (row.retry_count + 1)) (Carries-again _) refl h)
  ]

  nack_found-Holds :
      (q : EventQueue) (j error : String) (now : ℕ) (found : Option EventRow)
      → Holds id r q
      → Holds id r (nack_found q j error now found)
  unfolding nack_found
  nack_found-Holds q j error now none h = h
  nack_found-Holds q j error now (some row) h = nack_row-Holds q j error now row h

  nack-Holds :
      (q : EventQueue) (j error : String) (now : ℕ)
      → Holds id r q
      → Holds id r (after q (nack q j error now))
  unfolding nack
  nack-Holds q j error now h =
      after_guard (Holds id r) (not q.connected) q not_connected _ h
        λ on. nack_found-Holds q j error now (find_event j q.db.events) h

  decide-Holds :
      (q : EventQueue) (d : PolicyDecision) (now : ℕ)
      → Holds id r q
      → Holds id r (after q (record_decision q d now))
  unfolding record_decision
  decide-Holds q d now h = after_guard (Holds id r) (not q.connected) q not_connected _ h λ on.
      after_guard {A = Unit} (Holds id r) (is_some (find_decision d.decision_id q.db.decisions)) q
        integrity_error _ h λ new. Holds-of_events q _ refl h

  module _ (codec : Codec) (bind : Json → Option String) where
    push_replayed-Holds :
        (q : EventQueue) (j fresh : String) (created now : ℕ) (payload : Json)
        → Holds id r q
        → (session_id : String)
        → Holds id r (after q (push_replayed codec bind q j fresh created now payload session_id))
    unfolding push_replayed drop_replayed delete_dead
    push_replayed-Holds q j fresh created now payload h session_id =
        let e = replay_event fresh created payload session_id in
        after_bind (Holds id r) q (push codec q e now) (drop_replayed j) h
          (push-Holds codec q e now h) λ e' q' h'. Holds-of_events q' _ refl h'

    replay_found-Holds :
        (q : EventQueue) (j fresh : String) (created now : ℕ) (found : Option DeadRow)
        → Holds id r q
        → Holds id r (after q (replay_found codec bind q j fresh created now found))
    unfolding replay_found replay_row
    replay_found-Holds q j fresh created now none h = h
    replay_found-Holds q j fresh created now (some row) h =
        let payload = codec.loads row.original_event in
        after_result (Holds id r) q (session_of codec bind payload)
          (push_replayed codec bind q j fresh created now payload) h
          (push_replayed-Holds q j fresh created now payload h)

    replay-Holds :
        (q : EventQueue) (j fresh : String) (created now : ℕ)
        → Holds id r q
        → Holds id r (after q (replay_dead_letter codec bind q j fresh created now))
    unfolding replay_dead_letter
    replay-Holds q j fresh created now h =
        after_guard (Holds id r) (not q.connected) q not_connected _ h
          λ on. replay_found-Holds q j fresh created now _ h

    step-Holds : (q : EventQueue) (c : Call) → Holds id r q → Holds id r (step codec bind q c)
    unfolding step open_queue close_queue
    step-Holds q opens h = Holds-of_events q _ refl h
    step-Holds q closes h = elim (Bool-cases q.connected) [
      | inl on ↦ simp on (Holds-of_events q _ refl h)
      | inr off ↦ simp off h
    ]
    step-Holds q (pushes e now) h = push-Holds codec q e now h
    step-Holds q (pops now) h = pop-Holds codec q now h
    step-Holds q (acks j x now) h = ack-Holds codec q j x now h
    step-Holds q (nacks j error now) h = nack-Holds q j error now h
    step-Holds q (decides d now) h = decide-Holds q d now h
    step-Holds q (replays j fresh created now) h = replay-Holds q j fresh created now h

    -- An event that the table holds is held after any calls, raising or not, with the same session,
    -- type, payload, time of creation and sequence number.
    pub run-Holds :
        (q : EventQueue) (calls : List Call) → Holds id r q → Holds id r (run codec bind q calls)
    unfolding run
    run-Holds q [] h = h
    run-Holds q (c ∷ calls) h = run-Holds (step codec bind q c) calls (step-Holds q c h)
