-- ===== src/Queue/Preserved.antt =====
-- substrate/event_queue.py: the invariant of the queue's tables, call by call.
use stocky_cognitive_runtime.Prelude.{
  ℕ, ◌+◌, ◌<◌, ◌≡◌, inl, inr, refl, String, false, not, sym, Option, none, some, List, [], ◌∷◌,
  ◌++◌, arith, All-append, leb, Bool-cases,
}
use stocky_cognitive_runtime.Data.Json.{Json, Codec}
use stocky_cognitive_runtime.Data.Contract.{HostEvent, PolicyDecision, ExecutionResult}
use stocky_cognitive_runtime.Queue.{
  pending, EventRow, DeadRow, DecisionRow, find_event, with_status, EventQueue, not_connected,
  integrity_error, open_queue, close_queue, next_sequence, is_some, empty_db, new_queue,
}
use stocky_cognitive_runtime.Queue.Events.{new_row, push, pop, pop_first, ack, start, finish}
use stocky_cognitive_runtime.Queue.DeadLetter.{
  bury, again, nack_row, nack_found, nack, record_decision, decision_row, find_decision, dead_row,
  replay_found, replay_event, drop_replayed, push_replayed, session_of, replay_dead_letter,
  replay_row, delete_dead,
}
use stocky_cognitive_runtime.Queue.Ordered.{
  KeepsKey, IsOrdered-update, IsOrdered-append, All-update, All-update_found, All-find,
  find-with_status, order_by-keep,
}
use stocky_cognitive_runtime.Queue.Calls.{
  Call, opens, closes, pushes, pops, acks, nacks, decides, replays, after, after_guard, after_bind,
  after_result, step, run,
}
use stocky_cognitive_runtime.Queue.Invariant.{
  IsInBudget, IsWellFormed, move_to_dlq_bounded, delete_dead_bounded,
}

pub start-KeepsKey : (now : ℕ) → KeepsKey (start now)
start-KeepsKey now = record { id = λ r. refl; sequence = λ r. refl }

pub finish-KeepsKey : (now : ℕ) (text : String) → KeepsKey (finish now text)
finish-KeepsKey now text = record { id = λ r. refl; sequence = λ r. refl }

pub bury-KeepsKey : (error : String) (n : ℕ) → KeepsKey (bury error n)
bury-KeepsKey error n = record { id = λ r. refl; sequence = λ r. refl }

pub again-KeepsKey : (n : ℕ) → KeepsKey (again n)
again-KeepsKey n = record { id = λ r. refl; sequence = λ r. refl }

is_some-none {ℓ} : {A : Type ℓ} (o : Option A) → is_some o ≡ false → o ≡ none
is_some-none none h = refl
is_some-none (some a) h = cc

module _ (codec : Codec) where
  push-IsWellFormed :
      (q : EventQueue) (e : HostEvent) (now : ℕ)
      → IsWellFormed q
      → IsWellFormed (after q (push codec q e now))
  unfolding push new_row next_sequence
  push-IsWellFormed q e now h = after_guard IsWellFormed (not q.connected) q not_connected _ h λ on.
      after_guard IsWellFormed (is_some (find_event e.event_id q.db.events)) q integrity_error _ h
        λ new. record {
          some_retry = h.some_retry;
          ordered =
              IsOrdered-append 0 q.db.events (new_row codec e now (next_sequence q.db.events))
                h.ordered (omega arith) (omega arith) (is_some-none _ new);
          in_budget =
              All-append (IsInBudget q.max_retries) q.db.events _ h.in_budget (
                record { waiting = λ _. h.some_retry; running = λ bad. cc; spent = λ bad. cc },
                tt,
              );
          dead_bounded = h.dead_bounded;
        }

  pop_first-IsWellFormed :
      (q : EventQueue) (now : ℕ) (rows : List EventRow)
      → with_status pending q.db.events ≡ rows
      → IsWellFormed q
      → IsWellFormed (pop_first codec q now rows).1
  unfolding pop_first
  pop_first-IsWellFormed q now [] e h = h
  pop_first-IsWellFormed q now (r ∷ rest) e h =
      let (found, waits) = find-with_status 0 q.db.events r rest h.ordered e in
      let fits = All-find (IsInBudget q.max_retries) r.event_id q.db.events r found h.in_budget in
      record {
        some_retry = h.some_retry;
        ordered =
            IsOrdered-update 0 r.event_id (start now) q.db.events (start-KeepsKey now) h.ordered;
        in_budget =
            All-update_found (IsInBudget q.max_retries) 0 r.event_id (start now) q.db.events r
              h.ordered found
              (record { waiting = λ bad. cc; running = λ _. fits.waiting waits; spent = λ bad. cc })
              h.in_budget;
        dead_bounded = h.dead_bounded;
      }

  pop-IsWellFormed :
      (q : EventQueue) (now : ℕ) → IsWellFormed q → IsWellFormed (after q (pop codec q now))
  unfolding pop
  pop-IsWellFormed q now h =
      after_guard IsWellFormed (not q.connected) q not_connected _ h
        λ on. pop_first-IsWellFormed q now _ (sym (order_by-keep 0 _ q.db.events h.ordered)) h

  ack-IsWellFormed :
      (q : EventQueue) (id : String) (r : ExecutionResult) (now : ℕ)
      → IsWellFormed q
      → IsWellFormed (after q (ack codec q id r now))
  unfolding ack
  ack-IsWellFormed q id r now h =
      after_guard IsWellFormed (not q.connected) q not_connected _ h λ on. record {
        some_retry = h.some_retry;
        ordered = IsOrdered-update 0 id _ q.db.events (finish-KeepsKey now _) h.ordered;
        in_budget =
            All-update (IsInBudget q.max_retries) id _ q.db.events
              (λ row b. record { waiting = λ bad. cc; running = λ bad. cc; spent = λ bad. cc })
              h.in_budget;
        dead_bounded = h.dead_bounded;
      }

nack_row-IsWellFormed :
    (q : EventQueue) (id error : String) (now : ℕ) (row : EventRow)
    → find_event id q.db.events ≡ some row
    → IsWellFormed q
    → IsWellFormed (nack_row q id error now row)
unfolding nack_row
nack_row-IsWellFormed q id error now row found h =
    elim (Bool-cases (leb q.max_retries (row.retry_count + 1))) [
      | inl spent ↦ simp spent (record {
        some_retry = h.some_retry;
        ordered = IsOrdered-update 0 id _ q.db.events (bury-KeepsKey error _) h.ordered;
        in_budget =
            All-update_found (IsInBudget q.max_retries) 0 id _ q.db.events row h.ordered found
              (record { waiting = λ bad. cc; running = λ bad. cc; spent = λ _. ground arith })
              h.in_budget;
        dead_bounded =
            move_to_dlq_bounded (dead_row id row.payload error (row.retry_count + 1) now)
              q.db.dead_letter;
      })
      | inr left ↦ simp left (record {
        some_retry = h.some_retry;
        ordered = IsOrdered-update 0 id _ q.db.events (again-KeepsKey _) h.ordered;
        in_budget =
            All-update_found (IsInBudget q.max_retries) 0 id _ q.db.events row h.ordered found
              (record { waiting = λ _. ground arith; running = λ bad. cc; spent = λ bad. cc })
              h.in_budget;
        dead_bounded = h.dead_bounded;
      })
    ]

nack_found-IsWellFormed :
    (q : EventQueue) (id error : String) (now : ℕ) (found : Option EventRow)
    → find_event id q.db.events ≡ found
    → IsWellFormed q
    → IsWellFormed (nack_found q id error now found)
unfolding nack_found
nack_found-IsWellFormed q id error now none e h = h
nack_found-IsWellFormed q id error now (some row) e h = nack_row-IsWellFormed q id error now row e h

nack-IsWellFormed :
    (q : EventQueue) (id error : String) (now : ℕ)
    → IsWellFormed q
    → IsWellFormed (after q (nack q id error now))
unfolding nack
nack-IsWellFormed q id error now h =
    after_guard IsWellFormed (not q.connected) q not_connected _ h
      λ on. nack_found-IsWellFormed q id error now _ refl h

with_decisions :
    (q : EventQueue) (rows : List DecisionRow)
    → IsWellFormed q
    → IsWellFormed (record q { db = record q.db { decisions = rows } })
with_decisions q rows h = record {
  some_retry = h.some_retry;
  ordered = h.ordered;
  in_budget = h.in_budget;
  dead_bounded = h.dead_bounded;
}

without_dead : (id : String) (q : EventQueue) → IsWellFormed q → IsWellFormed (delete_dead id q)
unfolding delete_dead
without_dead id q h = record {
  some_retry = h.some_retry;
  ordered = h.ordered;
  in_budget = h.in_budget;
  dead_bounded = delete_dead_bounded id q h.dead_bounded;
}

decide-IsWellFormed :
    (q : EventQueue) (d : PolicyDecision) (now : ℕ)
    → IsWellFormed q
    → IsWellFormed (after q (record_decision q d now))
unfolding record_decision
decide-IsWellFormed q d now h = after_guard IsWellFormed (not q.connected) q not_connected _ h λ on.
    after_guard {A = Unit} IsWellFormed (is_some (find_decision d.decision_id q.db.decisions)) q
      integrity_error _ h λ new. with_decisions q (q.db.decisions ++ decision_row d now ∷ []) h

module _ (codec : Codec) (bind : Json → Option String) where
  push_replayed-IsWellFormed :
      (q : EventQueue) (id fresh : String) (created now : ℕ) (payload : Json)
      → IsWellFormed q
      → (session_id : String)
      → IsWellFormed (after q (push_replayed codec bind q id fresh created now payload session_id))
  unfolding push_replayed drop_replayed
  push_replayed-IsWellFormed q id fresh created now payload h session_id =
      let e = replay_event fresh created payload session_id in
      after_bind IsWellFormed q (push codec q e now) (drop_replayed id) h
        (push-IsWellFormed codec q e now h) λ e' q'. without_dead id q'

  replay_row-IsWellFormed :
      (q : EventQueue) (id fresh : String) (created now : ℕ) (row : DeadRow)
      → IsWellFormed q
      → IsWellFormed (after q (replay_row codec bind q id fresh created now row))
  unfolding replay_row
  replay_row-IsWellFormed q id fresh created now row h =
      let payload = codec.loads row.original_event in
      after_result IsWellFormed q (session_of codec bind payload)
        (push_replayed codec bind q id fresh created now payload) h
        (push_replayed-IsWellFormed q id fresh created now payload h)

  replay_found-IsWellFormed :
      (q : EventQueue) (id fresh : String) (created now : ℕ) (found : Option DeadRow)
      → IsWellFormed q
      → IsWellFormed (after q (replay_found codec bind q id fresh created now found))
  unfolding replay_found
  replay_found-IsWellFormed q id fresh created now none h = h
  replay_found-IsWellFormed q id fresh created now (some row) h =
      replay_row-IsWellFormed q id fresh created now row h

  replay-IsWellFormed :
      (q : EventQueue) (id fresh : String) (created now : ℕ)
      → IsWellFormed q
      → IsWellFormed (after q (replay_dead_letter codec bind q id fresh created now))
  unfolding replay_dead_letter
  replay-IsWellFormed q id fresh created now h =
      after_guard IsWellFormed (not q.connected) q not_connected _ h
        λ on. replay_found-IsWellFormed q id fresh created now _ h

  pub step-IsWellFormed :
      (q : EventQueue) (c : Call) → IsWellFormed q → IsWellFormed (step codec bind q c)
  unfolding step open_queue close_queue
  step-IsWellFormed q opens h = record {
    some_retry = h.some_retry;
    ordered = h.ordered;
    in_budget = h.in_budget;
    dead_bounded = h.dead_bounded;
  }
  step-IsWellFormed q closes h = elim (Bool-cases q.connected) [
    | inl on ↦ simp on (record {
      some_retry = h.some_retry;
      ordered = h.ordered;
      in_budget = h.in_budget;
      dead_bounded = h.dead_bounded;
    })
    | inr off ↦ simp off h
  ]
  step-IsWellFormed q (pushes e now) h = push-IsWellFormed codec q e now h
  step-IsWellFormed q (pops now) h = pop-IsWellFormed codec q now h
  step-IsWellFormed q (acks id r now) h = ack-IsWellFormed codec q id r now h
  step-IsWellFormed q (nacks id error now) h = nack-IsWellFormed q id error now h
  step-IsWellFormed q (decides d now) h = decide-IsWellFormed q d now h
  step-IsWellFormed q (replays id fresh created now) h =
      replay-IsWellFormed q id fresh created now h

  -- Whatever calls are made, raising or not, a well-formed queue stays well-formed: sequence numbers
  -- grow along the table and no event id repeats, a pending or processing event has retries left
  -- and a dead one has none, and the dead letter table holds at most 1000 rows.
  pub run-IsWellFormed :
      (q : EventQueue) (calls : List Call) → IsWellFormed q → IsWellFormed (run codec bind q calls)
  unfolding run
  run-IsWellFormed q [] h = h
  run-IsWellFormed q (c ∷ calls) h =
      run-IsWellFormed (step codec bind q c) calls (step-IsWellFormed q c h)

-- An empty database is well-formed at any positive number of retries.
pub new-IsWellFormed : (max : ℕ) → 0 < max → IsWellFormed (new_queue empty_db max)
new-IsWellFormed max h = record {
  some_retry = h;
  ordered = tt;
  in_budget = tt;
  dead_bounded = omega arith;
}
