-- ===== src/Queue/Calls.antt =====
-- substrate/event_queue.py: any sequence of the calls that change a queue. A call that raises
-- leaves the queue as it was.
use stocky_cognitive_runtime.Prelude.{
  ℕ, ◌≡◌, refl, String, Bool, true, false, Option, List, [], ◌∷◌, if◌then◌else◌,
}
use stocky_cognitive_runtime.Prelude.Raise.{Result, ok, err, ◌>>=◌}
use stocky_cognitive_runtime.Data.Json.{Json, Codec}
use stocky_cognitive_runtime.Data.Contract.{HostEvent, PolicyDecision, ExecutionResult}
use stocky_cognitive_runtime.Queue.{EventQueue, QueueError, Answer, open_queue, close_queue}
use stocky_cognitive_runtime.Queue.Events.{push, pop, ack}
use stocky_cognitive_runtime.Queue.DeadLetter.{nack, record_decision, replay_dead_letter}

pub data Call : Type 0 where
  opens closes : Call
  pushes : HostEvent → ℕ → Call
  pops : ℕ → Call
  acks : String → ExecutionResult → ℕ → Call
  nacks : String → String → ℕ → Call
  decides : PolicyDecision → ℕ → Call
  replays : String → String → ℕ → ℕ → Call

abbrev pub after : {A : Type 0} → EventQueue → Answer A → EventQueue
after q (ok (a, q')) = q'
after q (err e) = q

-- A call behind a test that may raise keeps what its other branch keeps.
pub after_guard :
    {A : Type 0} (P : EventQueue → Type 0) (b : Bool) (q : EventQueue) (e : QueueError)
    (r : Answer A)
    → P q
    → (b ≡ false → P (after q r))
    → P (after q (if b then err e else r))
after_guard P true q e r h keeps = h
after_guard P false q e r h keeps = keeps refl

pub after_bind :
    {A B : Type 0} (P : EventQueue → Type 0) (q : EventQueue) (m : Answer A)
    (f : A × EventQueue → Answer B)
    → P q
    → P (after q m)
    → ((a : A) (q' : EventQueue) → P q' → P (after q (f (a, q'))))
    → P (after q (m >>= f))
after_bind P q (ok (a, q')) f h done keeps = keeps a q' done
after_bind P q (err e) f h done keeps = h

pub after_result :
    {A B : Type 0} (P : EventQueue → Type 0) (q : EventQueue) (m : Result QueueError A)
    (f : A → Answer B)
    → P q
    → ((a : A) → P (after q (f a)))
    → P (after q (m >>= f))
after_result P q (ok a) f h keeps = keeps a
after_result P q (err e) f h keeps = h

module _ (codec : Codec) (bind : Json → Option String) where
  unfoldable pub step : EventQueue → Call → EventQueue
  step q opens = open_queue q
  step q closes = close_queue q
  step q (pushes e now) = after q (push codec q e now)
  step q (pops now) = after q (pop codec q now)
  step q (acks id r now) = after q (ack codec q id r now)
  step q (nacks id error now) = after q (nack q id error now)
  step q (decides d now) = after q (record_decision q d now)
  step q (replays id fresh created now) =
      after q (replay_dead_letter codec bind q id fresh created now)

  unfoldable pub run : EventQueue → List Call → EventQueue
  run q [] = q
  run q (c ∷ cs) = run (step q c) cs
