-- ===== src/Substrate/Drains.antt =====
-- substrate/substrate_loop.py: turns of the loop until no event waits.
use mathlib.Core.Path.{subst}
use stocky_cognitive_runtime.Prelude.{
  ℕ, ◌+◌, ◌-◌, ◌<◌, ◌≡◌, refl, sym, ◌∙◌, ◌⊎◌, inl, inr, String, true, false, not, Option, none,
  some, arith, if_cases,
}
use stocky_cognitive_runtime.Prelude.Raise.{Result, ok, err}
use stocky_cognitive_runtime.Data.Contract.{
  HostEvent, ExecutionProposal, Verdict, allow, block, defer, review, PolicyDecision,
  ExecutionResult,
}
use stocky_cognitive_runtime.Queue.{EventRow, find_event, update, EventQueue, Answer, is_some}
use stocky_cognitive_runtime.Queue.Events.{ack, finish, result_text}
use stocky_cognitive_runtime.Queue.DeadLetter.{nack, nack_found, record_decision, find_decision}
use stocky_cognitive_runtime.Substrate.{
  Stages, Turn, settled, blocked, block_reason, execute, act, recorded, decided, proposed,
  process_event, noted, caught,
}
use stocky_cognitive_runtime.Substrate.Potential.{
  potential, IsRunning, IsHeld, IsBelow, finish_below, nack_found-IsBelow,
}

pub held-IsRunning :
    (q q' : EventQueue) (id : String) (r : EventRow)
    → IsRunning q id r
    → IsHeld q q'
    → IsRunning q' id r
held-IsRunning q q' id r run h = record {
  on = h.on ∙ run.on;
  ordered = rw h.events run.ordered;
  found = rw h.events run.found;
  idle = rw h.max run.idle;
  left = rw h.max run.left;
}

pub nack_ok :
    (q : EventQueue) (id error : String) (now : ℕ)
    → q.connected ≡ true
    → nack q id error now ≡ ok (tt, nack_found q id error now (find_event id q.db.events))
unfolding nack
nack_ok q id error now on = simp on refl

pub ack_ok :
    (stages : Stages) (q : EventQueue) (id : String) (result : ExecutionResult) (now : ℕ)
    → q.connected ≡ true
    → (q' : EventQueue) × (ack stages.codec q id result now ≡ ok (tt, q'))
      × (q'.connected ≡ q.connected)
      × (q'.max_retries ≡ q.max_retries)
      × (q'.db.events ≡ update id (finish now (result_text stages.codec result)) q.db.events)
unfolding ack
ack_ok stages q id result now on =
    if_cases
      (λ (a : Answer Unit).
        (q' : EventQueue) × (a ≡ ok (tt, q'))
        × (q'.connected ≡ q.connected)
        × (q'.max_retries ≡ q.max_retries)
        × (q'.db.events ≡ update id (finish now (result_text stages.codec result)) q.db.events))
      (not q.connected) _ _ (λ off. absurd (ground (arith, on, off)))
      (λ h. (_, refl, refl, refl, refl))

module _ (stages : Stages) (q : EventQueue) (e : HostEvent) (r : EventRow)
    (run : IsRunning q e.event_id r) (now : ℕ) where
  abbrev bound : ℕ
  bound = potential q.max_retries q.db.events + (q.max_retries - r.retry_count)

  -- What the processing leaves: the event answered, or an exception with the event still in work.
  abbrev Progress : Turn → Type 0
  Progress t =
      ((t.raised ≡ none) × IsBelow q.max_retries bound t.queue)
      ⊎ ((error : String) × (t.raised ≡ some error) × IsHeld q t.queue)

  IsBelow-held :
      (q' x : EventQueue)
      → IsHeld q q'
      → IsBelow q'.max_retries
          (potential q'.max_retries q'.db.events + (q'.max_retries - r.retry_count))
          x
      → IsBelow q.max_retries bound x
  IsBelow-held q' x h below =
      subst
        (λ rows.
          IsBelow q.max_retries (potential q.max_retries rows + (q.max_retries - r.retry_count)) x)
        h.events
        (subst (λ m. IsBelow m (potential m q'.db.events + (m - r.retry_count)) x) h.max below)

  nack-IsBelow :
      (q' : EventQueue) (error : String)
      → IsHeld q q'
      → IsBelow q.max_retries bound
          (nack_found q' e.event_id error now (find_event e.event_id q'.db.events))
  nack-IsBelow q' error h =
      IsBelow-held q' _ h
        (nack_found-IsBelow q' e.event_id r (held-IsRunning q q' e.event_id r run h) error now)

  ack-IsBelow :
      (q' q'' : EventQueue) (text : String)
      → IsHeld q q'
      → q''.connected ≡ q'.connected
      → q''.max_retries ≡ q'.max_retries
      → q''.db.events ≡ update e.event_id (finish now text) q'.db.events
      → IsBelow q.max_retries bound q''
  ack-IsBelow q' q'' text h on max events =
      let run' = held-IsRunning q q' e.event_id r run h in
      IsBelow-held q' q'' h (record {
        on = on ∙ run'.on;
        max_retries = max;
        below =
            subst
              (λ rows.
                potential q'.max_retries rows
                < potential q'.max_retries q'.db.events + (q'.max_retries - r.retry_count))
              (sym events) (finish_below q' e.event_id r run' now text);
      })

  blocked-Progress :
      (q' : EventQueue) (d : PolicyDecision) → IsHeld q q' → Progress (blocked stages q' e d now)
  unfolding blocked settled
  blocked-Progress q' d h =
      subst (λ a. Progress (settled stages q' d.verdict false a))
        (sym (nack_ok q' e.event_id (block_reason d) now (h.on ∙ run.on)))
        (inl (refl, nack-IsBelow q' (block_reason d) h))

  ack-Progress :
      (q' : EventQueue) (v : Verdict) (result : ExecutionResult)
      → IsHeld q q'
      → Progress (settled stages q' v true (ack stages.codec q' e.event_id result now))
  unfolding settled
  ack-Progress q' v result h =
      let (q'', done, on, max, events) = ack_ok stages q' e.event_id result now (h.on ∙ run.on) in
      subst (λ a. Progress (settled stages q' v true a)) (sym done)
        (inl (refl, ack-IsBelow q' q'' (result_text stages.codec result) h on max events))

  act-Progress :
      (v : Verdict) (q' : EventQueue) (p : ExecutionProposal) (d : PolicyDecision)
      → IsHeld q q'
      → Progress (act stages v q' e p d now)
  unfolding act
  act-Progress allow q' p d h =
      ack-Progress q' d.verdict
        (record (execute stages p d now) { correlation_id = stages.correlation e }) h
  act-Progress block q' p d h = blocked-Progress q' d h
  act-Progress defer q' p d h = blocked-Progress q' d h
  act-Progress review q' p d h = blocked-Progress q' d h

  abbrev pub HeldAnswer : Answer Unit → Type 0
  HeldAnswer (ok (_, q')) = IsHeld q q'
  HeldAnswer (err error) = Unit

  pub record_decision-HeldAnswer : (d : PolicyDecision) → HeldAnswer (record_decision q d now)
  unfolding record_decision
  record_decision-HeldAnswer d =
      if_cases HeldAnswer (not q.connected) _ _ (λ off. tt)
        (λ on.
          if_cases HeldAnswer (is_some (find_decision d.decision_id q.db.decisions)) _ _
            (λ known. tt) (λ new. record { on = refl; max = refl; events = refl }))

  pub held : IsHeld q q
  held = record { on = refl; max = refl; events = refl }

  recorded-Progress :
      (p : ExecutionProposal) (d : PolicyDecision) (a : Answer Unit)
      → HeldAnswer a
      → Progress (recorded stages q e p d now a)
  unfolding recorded
  recorded-Progress p d (ok (_, q')) h = act-Progress d.verdict q' p d h
  recorded-Progress p d (err error) h = inr (stages.error_text error, refl, held)

  decided-Progress :
      (p : ExecutionProposal) (a : Result String PolicyDecision)
      → Progress (decided stages q e p now a)
  unfolding decided
  decided-Progress p (ok d) =
      let d' = record d { correlation_id = stages.correlation e } in
      recorded-Progress p d' (record_decision q d' now) (record_decision-HeldAnswer d')
  decided-Progress p (err error) = inr (error, refl, held)

  proposed-Progress : (a : Result String ExecutionProposal) → Progress (proposed stages q e now a)
  unfolding proposed
  proposed-Progress (ok p) = decided-Progress _ _
  proposed-Progress (err error) = inr (error, refl, held)

  caught-IsBelow :
      (t : Turn) (raised : Option String)
      → t.raised ≡ raised
      → Progress t
      → IsBelow q.max_retries bound (caught stages e now t raised).queue
  unfolding caught noted
  caught-IsBelow t none same (inl h) = h.1
  caught-IsBelow t none same (inr (error, raises, h)) = cc
  caught-IsBelow t (some x) same (inl h) = cc
  caught-IsBelow t (some x) same (inr (error, raises, h)) =
      subst (λ a. IsBelow q.max_retries bound (noted stages t a).queue)
        (sym (nack_ok t.queue e.event_id x now (h.on ∙ run.on))) (nack-IsBelow t.queue x h)

  pub processed-IsBelow :
      IsBelow q.max_retries bound
        (let t = process_event stages q e now in (caught stages e now t t.raised).queue)
  unfolding process_event
  processed-IsBelow =
      caught-IsBelow (process_event stages q e now) _ refl (proposed-Progress (stages.p3 e))
