-- ===== src/Substrate/Turns.antt =====
-- substrate/substrate_loop.py: the queue's invariant over one turn of the loop.
use stocky_cognitive_runtime.Prelude.{ℕ, String, Bool, true, false, Option, none, some}
use stocky_cognitive_runtime.Prelude.Raise.{Result, ok, err}
use stocky_cognitive_runtime.Data.Json.{Json}
use stocky_cognitive_runtime.Data.Contract.{
  HostEvent, ExecutionProposal, Verdict, allow, block, defer, review, PolicyDecision,
}
use stocky_cognitive_runtime.Queue.{EventQueue, Answer}
use stocky_cognitive_runtime.Queue.Events.{pop, ack}
use stocky_cognitive_runtime.Queue.DeadLetter.{nack, record_decision}
use stocky_cognitive_runtime.Queue.Calls.{pops, acks, nacks, decides, step, after}
use stocky_cognitive_runtime.Queue.Invariant.{IsWellFormed}
use stocky_cognitive_runtime.Queue.Preserved.{step-IsWellFormed}
use stocky_cognitive_runtime.Substrate.{
  Stages, Turn, settled, blocked, act, recorded, decided, proposed, process_event, noted, caught,
  popped, turn, block_reason, execute,
}

module _ (stages : Stages) (bind : Json → Option String) where
  settled-after :
      (q : EventQueue) (v : Verdict) (called : Bool) (a : Answer Unit)
      → IsWellFormed (after q a)
      → IsWellFormed (settled stages q v called a).queue
  unfolding settled
  settled-after q v called (ok (_, q')) h = h
  settled-after q v called (err e) h = h

  blocked-IsWellFormed :
      (q : EventQueue) (e : HostEvent) (d : PolicyDecision) (now : ℕ)
      → IsWellFormed q
      → IsWellFormed (blocked stages q e d now).queue
  unfolding blocked step
  blocked-IsWellFormed q e d now h =
      settled-after q d.verdict false (nack q e.event_id (block_reason d) now)
        (step-IsWellFormed stages.codec bind q (nacks e.event_id (block_reason d) now) h)

  act-IsWellFormed :
      (v : Verdict) (q : EventQueue) (e : HostEvent) (p : ExecutionProposal) (d : PolicyDecision)
      (now : ℕ)
      → IsWellFormed q
      → IsWellFormed (act stages v q e p d now).queue
  unfolding act step
  act-IsWellFormed allow q e p d now h =
      let result = record (execute stages p d now) { correlation_id = stages.correlation e } in
      settled-after q d.verdict true (ack stages.codec q e.event_id result now)
        (step-IsWellFormed stages.codec bind q (acks e.event_id result now) h)
  act-IsWellFormed block q e p d now h = blocked-IsWellFormed q e d now h
  act-IsWellFormed defer q e p d now h = blocked-IsWellFormed q e d now h
  act-IsWellFormed review q e p d now h = blocked-IsWellFormed q e d now h

  recorded-IsWellFormed :
      (q : EventQueue) (e : HostEvent) (p : ExecutionProposal) (d : PolicyDecision) (now : ℕ)
      (a : Answer Unit)
      → IsWellFormed q
      → IsWellFormed (after q a)
      → IsWellFormed (recorded stages q e p d now a).queue
  unfolding recorded
  recorded-IsWellFormed q e p d now (err x) h k = h
  recorded-IsWellFormed q e p d now (ok (_, q')) h k = act-IsWellFormed d.verdict q' e p d now k

  decided-IsWellFormed :
      (q : EventQueue) (e : HostEvent) (p : ExecutionProposal) (now : ℕ)
      (r : Result String PolicyDecision)
      → IsWellFormed q
      → IsWellFormed (decided stages q e p now r).queue
  unfolding decided step
  decided-IsWellFormed q e p now (err x) h = h
  decided-IsWellFormed q e p now (ok d) h =
      let d' = record d { correlation_id = stages.correlation e } in
      recorded-IsWellFormed q e p d' now (record_decision q d' now) h
        (step-IsWellFormed stages.codec bind q (decides d' now) h)

  proposed-IsWellFormed :
      (q : EventQueue) (e : HostEvent) (now : ℕ) (r : Result String ExecutionProposal)
      → IsWellFormed q
      → IsWellFormed (proposed stages q e now r).queue
  unfolding proposed
  proposed-IsWellFormed q e now (err x) h = h
  proposed-IsWellFormed q e now (ok p) h = decided-IsWellFormed q e _ now _ h

  noted-IsWellFormed :
      (t : Turn) (a : Answer Unit)
      → IsWellFormed t.queue
      → IsWellFormed (after t.queue a)
      → IsWellFormed (noted stages t a).queue
  unfolding noted
  noted-IsWellFormed t (ok (_, q')) h k = k
  noted-IsWellFormed t (err x) h k = h

  caught-IsWellFormed :
      (e : HostEvent) (now : ℕ) (t : Turn) (raised : Option String)
      → IsWellFormed t.queue
      → IsWellFormed (caught stages e now t raised).queue
  unfolding caught step
  caught-IsWellFormed e now t none h = h
  caught-IsWellFormed e now t (some error) h =
      noted-IsWellFormed t (nack t.queue e.event_id error now) h
        (step-IsWellFormed stages.codec bind t.queue (nacks e.event_id error now) h)

  popped-IsWellFormed :
      (q : EventQueue) (now : ℕ) (a : Answer (Option HostEvent))
      → IsWellFormed q
      → IsWellFormed (after q a)
      → IsWellFormed (popped stages q now a).queue
  unfolding popped process_event
  popped-IsWellFormed q now (err x) h k = h
  popped-IsWellFormed q now (ok (none, q')) h k = k
  popped-IsWellFormed q now (ok (some e, q')) h k =
      caught-IsWellFormed e now (process_event stages q' e now) _
        (proposed-IsWellFormed q' e now (stages.p3 e) k)

  -- A turn of the loop, whatever its stages return or raise, leaves a well-formed queue well-formed.
  pub turn-IsWellFormed :
      (q : EventQueue) (now : ℕ) → IsWellFormed q → IsWellFormed (turn stages q now).queue
  unfolding turn step
  turn-IsWellFormed q now h =
      popped-IsWellFormed q now (pop stages.codec q now) h
        (step-IsWellFormed stages.codec bind q (pops now) h)
