-- ===== src/Substrate/Settles.antt =====
-- substrate/substrate_loop.py: what a turn of the loop makes of the event that it pops.
use mathlib.Core.Path.{subst}
use stocky_cognitive_runtime.Prelude.{
  ℕ, ◌+◌, ◌≡◌, refl, sym, ap, ◌∙◌, ◌⊎◌, inl, inr, String, true, false, Option, none, some, List,
  ◌∷◌, arith, eq_refl,
}
use stocky_cognitive_runtime.Prelude.Raise.{Result, ok, err}
use stocky_cognitive_runtime.Data.Contract.{
  HostEvent, ExecutionProposal, Verdict, allow, block, defer, review, PolicyDecision,
  ExecutionResult,
}
use stocky_cognitive_runtime.Queue.{
  pending, done, EventRow, with_status, find_event, update, EventQueue, Answer,
}
use stocky_cognitive_runtime.Queue.Events.{ack, finish, result_text, start, event_of, pop_first}
use stocky_cognitive_runtime.Queue.DeadLetter.{nack, record_decision}
use stocky_cognitive_runtime.Queue.Calls.{after}
use stocky_cognitive_runtime.Queue.Ordered.{find-update}
use stocky_cognitive_runtime.Queue.Invariant.{IsWellFormed}
use stocky_cognitive_runtime.Queue.Preserved.{finish-KeepsKey}
use stocky_cognitive_runtime.Queue.Retries.{HasFailed, nack_lem, nack_row-HasFailed}
use stocky_cognitive_runtime.Substrate.{
  Stages, Turn, settled, blocked, block_reason, execute, act, recorded, decided, proposed,
  process_event, noted, caught, popped, turn,
}
use stocky_cognitive_runtime.Substrate.Potential.{IsRunning, IsHeld}
use stocky_cognitive_runtime.Substrate.Drains.{
  held-IsRunning, nack_ok, ack_ok, HeldAnswer, record_decision-HeldAnswer, held,
}
use stocky_cognitive_runtime.Substrate.Liveness.{pop_rows, marked, marked-IsRunning}

-- The event of a row is done, with the result of its worker.
pub record IsDone (q : EventQueue) (id : String) : Type 0 where
  pub row : EventRow
  pub found : find_event id q.db.events ≡ some row
  pub state : row.status ≡ done

-- What a turn makes of a row with so many failures: its event is done where the worker was called,
-- and has failed once more otherwise.
abbrev pub IsSettled : ℕ → String → ℕ → Turn → Type 0
IsSettled max id failures t =
    ((t.called ≡ true) × IsDone t.queue id)
    ⊎ ((t.called ≡ false) × HasFailed max t.queue id (failures + 1))

module _ (stages : Stages) (q : EventQueue) (e : HostEvent) (r : EventRow)
    (run : IsRunning q e.event_id r) (now : ℕ) where
  -- What the processing leaves: a settled event, or an exception before the worker.
  abbrev Answers : Turn → Type 0
  Answers t =
      ((t.raised ≡ none) × IsSettled q.max_retries e.event_id r.retry_count t)
      ⊎ ((error : String) × (t.raised ≡ some error) × (t.called ≡ false) × IsHeld q t.queue)

  nack-HasFailed :
      (q' q'' : EventQueue) (error : String)
      → IsHeld q q'
      → nack q' e.event_id error now ≡ ok (tt, q'')
      → HasFailed q.max_retries q'' e.event_id (r.retry_count + 1)
  nack-HasFailed q' q'' error h answered =
      let run' = held-IsRunning q q' e.event_id r run h in
      let failed : HasFailed q'.max_retries q'' e.event_id (r.retry_count + 1) =
        subst (λ x. HasFailed q'.max_retries x e.event_id (r.retry_count + 1))
          (sym (nack_lem q' e.event_id error now r run'.on run'.found) ∙ ap (after q') answered)
          (nack_row-HasFailed q' e.event_id error now r run'.on run'.found) in
      subst (λ m. HasFailed m q'' e.event_id (r.retry_count + 1)) h.max failed

  ack-IsDone :
      (q' q'' : EventQueue) (text : String)
      → IsHeld q q'
      → q''.db.events ≡ update e.event_id (finish now text) q'.db.events
      → IsDone q'' e.event_id
  ack-IsDone q' q'' text h events =
      let run' = held-IsRunning q q' e.event_id r run h in
      record {
        row = finish now text r;
        found =
            ap (find_event e.event_id) events
            ∙ ground (
              arith,
              find-update e.event_id e.event_id (finish now text) q'.db.events
                  (finish-KeepsKey now text),
              eq_refl e.event_id,
              run'.found,
            );
        state = refl;
      }

  blocked-Answers :
      (q' : EventQueue) (d : PolicyDecision) → IsHeld q q' → Answers (blocked stages q' e d now)
  unfolding blocked settled
  blocked-Answers q' d h =
      let answered = nack_ok q' e.event_id (block_reason d) now (h.on ∙ run.on) in
      subst (λ a. Answers (settled stages q' d.verdict false a)) (sym answered)
        (inl (refl, inr (refl, nack-HasFailed q' _ (block_reason d) h answered)))

  ack-Answers :
      (q' : EventQueue) (v : Verdict) (result : ExecutionResult)
      → IsHeld q q'
      → Answers (settled stages q' v true (ack stages.codec q' e.event_id result now))
  unfolding settled
  ack-Answers q' v result h =
      let (q'', done_by, on, max, events) =
        ack_ok stages q' e.event_id result now (h.on ∙ run.on) in
      subst (λ a. Answers (settled stages q' v true a)) (sym done_by)
        (inl (refl, inl (refl, ack-IsDone q' q'' (result_text stages.codec result) h events)))

  act-Answers :
      (v : Verdict) (q' : EventQueue) (p : ExecutionProposal) (d : PolicyDecision)
      → IsHeld q q'
      → Answers (act stages v q' e p d now)
  unfolding act
  act-Answers allow q' p d h =
      ack-Answers q' d.verdict
        (record (execute stages p d now) { correlation_id = stages.correlation e }) h
  act-Answers block q' p d h = blocked-Answers q' d h
  act-Answers defer q' p d h = blocked-Answers q' d h
  act-Answers review q' p d h = blocked-Answers q' d h

  recorded-Answers :
      (p : ExecutionProposal) (d : PolicyDecision) (a : Answer Unit)
      → HeldAnswer stages q e r run now a
      → Answers (recorded stages q e p d now a)
  unfolding recorded
  recorded-Answers p d (ok (_, q')) h = act-Answers d.verdict q' p d h
  recorded-Answers p d (err error) h =
      inr (stages.error_text error, refl, refl, held stages q e r run now)

  decided-Answers :
      (p : ExecutionProposal) (a : Result String PolicyDecision)
      → Answers (decided stages q e p now a)
  unfolding decided
  decided-Answers p (ok d) =
      let d' = record d { correlation_id = stages.correlation e } in
      recorded-Answers p d' (record_decision q d' now)
        (record_decision-HeldAnswer stages q e r run now d')
  decided-Answers p (err error) = inr (error, refl, refl, held stages q e r run now)

  proposed-Answers : (a : Result String ExecutionProposal) → Answers (proposed stages q e now a)
  unfolding proposed
  proposed-Answers (ok p) = decided-Answers _ _
  proposed-Answers (err error) = inr (error, refl, refl, held stages q e r run now)

  caught-IsSettled :
      (t : Turn) (raised : Option String)
      → t.raised ≡ raised
      → Answers t
      → IsSettled q.max_retries e.event_id r.retry_count (caught stages e now t raised)
  unfolding caught noted
  caught-IsSettled t none same (inl h) = h.1
  caught-IsSettled t none same (inr (error, raises, idle, h)) = cc
  caught-IsSettled t (some x) same (inl h) = cc
  caught-IsSettled t (some x) same (inr (error, raises, idle, h)) =
      let answered = nack_ok t.queue e.event_id x now (h.on ∙ run.on) in
      subst (λ a. IsSettled q.max_retries e.event_id r.retry_count (noted stages t a))
        (sym answered) (inr (idle, nack-HasFailed t.queue _ x h answered))

  processed-IsSettled :
      let t = process_event stages q e now in
      IsSettled q.max_retries e.event_id r.retry_count (caught stages e now t t.raised)
  unfolding process_event
  processed-IsSettled =
      caught-IsSettled (process_event stages q e now) _ refl (proposed-Answers (stages.p3 e))

-- A turn of the loop over a connected, well-formed queue settles the first waiting event, whatever
-- P3, P4 and the worker return or raise: its row is done where the worker was called, and otherwise
-- counts one failure more and is dead at the limit and pending again before.
pub turn-IsSettled :
    (stages : Stages) (q : EventQueue) (now : ℕ) (r : EventRow) (rest : List EventRow)
    → IsWellFormed q
    → q.connected ≡ true
    → with_status pending q.db.events ≡ r ∷ rest
    → IsSettled q.max_retries r.event_id r.retry_count (turn stages q now)
unfolding turn popped pop_first event_of
turn-IsSettled stages q now r rest h on e =
    subst (λ a. IsSettled q.max_retries r.event_id r.retry_count (popped stages q now a))
      (sym (pop_rows stages q h on now (r ∷ rest) e))
      (processed-IsSettled stages (marked stages q h on now r rest e) (event_of stages.codec r)
        (start now r) (marked-IsRunning stages q h on now r rest e) now)
