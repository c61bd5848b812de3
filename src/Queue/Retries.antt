-- ===== src/Queue/Retries.antt =====
-- substrate/event_queue.py: the retries of an event, from its first failure to the dead letters.
use native.Mathlib.Nat.{add-zero}
use stocky_cognitive_runtime.Prelude.{
  ℕ, ◌+◌, ◌≡◌, ◌∙◌, String, true, some, List, [], ◌∷◌, arith, length, leb, eq_refl, if◌then◌else◌,
}
use mathlib.Core.Path.{subst}
use stocky_cognitive_runtime.Queue.{pending, dead, EventRow, find_event, EventQueue}
use stocky_cognitive_runtime.Queue.DeadLetter.{nack, nack_found, nack_row, bury, again}
use stocky_cognitive_runtime.Queue.Calls.{after}
use stocky_cognitive_runtime.Queue.Ordered.{find-update}
use stocky_cognitive_runtime.Queue.Preserved.{bury-KeepsKey, again-KeepsKey}

-- The failures of one event, each with its error and time.
pub fails : EventQueue → String → List (String × ℕ) → EventQueue
fails q id [] = q
fails q id ((error, now) ∷ rest) = fails (after q (nack q id error now)) id rest

-- A row after so many failures in all: dead once they reach the limit, and pending before.
pub record HasFailed (max : ℕ) (q : EventQueue) (id : String) (failures : ℕ) : Type 0 where
  pub limit : q.max_retries ≡ max
  pub row : EventRow
  pub found : find_event id q.db.events ≡ some row
  pub counted : row.retry_count ≡ failures
  pub state : row.status ≡ (if leb max failures then dead else pending)

-- What `nack` reads of a queue that it does not write.
record Same (q q' : EventQueue) : Type 0 where
  max : q'.max_retries ≡ q.max_retries
  connection : q'.connected ≡ q.connected

module _ (q : EventQueue) (id error : String) (now : ℕ) (row : EventRow) (on : q.connected ≡ true)
    (found : find_event id q.db.events ≡ some row) where
  pub nack_lem : after q (nack q id error now) ≡ nack_row q id error now row
  unfolding nack nack_found
  nack_lem = simp (on, found)

  nack_row-Same : Same q (nack_row q id error now row)
  unfolding nack_row
  nack_row-Same = ground arith

  next_row : EventRow
  next_row =
      if leb q.max_retries (row.retry_count + 1)
      then bury error (row.retry_count + 1) row
      else again (row.retry_count + 1) row

  find-nack_row : find_event id (nack_row q id error now row).db.events ≡ some next_row
  unfolding nack_row next_row
  find-nack_row = ground (
    arith,
    find-update id id (bury error (row.retry_count + 1)) q.db.events (bury-KeepsKey error _),
    find-update id id (again (row.retry_count + 1)) q.db.events (again-KeepsKey _),
    eq_refl id,
  )

  pub nack_row-HasFailed :
      HasFailed q.max_retries (nack_row q id error now row) id (row.retry_count + 1)
  unfolding nack_row next_row
  nack_row-HasFailed = record {
    limit = nack_row-Same.max;
    row = next_row;
    found = find-nack_row;
    counted = ground arith;
    state = ground arith;
  }

fails_from :
    (max : ℕ) (q : EventQueue) (id : String) (n : ℕ) (failures : List (String × ℕ))
    → q.connected ≡ true
    → HasFailed max q id n
    → HasFailed max (fails q id failures) id (n + length failures)
unfolding fails
fails_from max q id n [] on h = rw add-zero h
fails_from max q id n ((error, now) ∷ rest) on h =
    let q' = nack_row q id error now h.row in
    rw (nack_lem q id error now h.row on h.found) (
      subst (HasFailed max (fails q' id rest) id) (omega (arith, h.counted)) (
        fails_from max q' id (h.row.retry_count + 1) rest
          ((nack_row-Same q id error now h.row on h.found).connection ∙ on)
          (subst (λ m. HasFailed m q' id (h.row.retry_count + 1)) h.limit
            (nack_row-HasFailed q id error now h.row on h.found))))

-- After one failure or more of an event of the table, its row counts all its failures, and is dead
-- if they reach the queue's limit and pending again if they do not.
pub fails-HasFailed :
    (q : EventQueue) (id error : String) (now : ℕ) (rest : List (String × ℕ)) (row : EventRow)
    → q.connected ≡ true
    → find_event id q.db.events ≡ some row
    → HasFailed q.max_retries
        (fails q id ((error, now) ∷ rest))
        id
        (row.retry_count + 1 + length rest)
unfolding fails
fails-HasFailed q id error now rest row on found = rw (nack_lem q id error now row on found) (
    fails_from q.max_retries (nack_row q id error now row) id (row.retry_count + 1) rest
      ((nack_row-Same q id error now row on found).connection ∙ on)
      (nack_row-HasFailed q id error now row on found))
