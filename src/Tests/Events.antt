-- ===== src/Tests/Events.antt =====
-- Tests of the event queue and of the loop over it.
use stocky_cognitive_runtime.Prelude.{
  ℕ, ◌+◌, ◌≡◌, ◌⊎◌, refl, String, true, Option, none, some, List, [], ◌∷◌, ◌++◌, arith, length,
}
use stocky_cognitive_runtime.Prelude.Raise.{ok, err}
use stocky_cognitive_runtime.Data.Json.{Json, null}
use stocky_cognitive_runtime.Data.Contract.{HostEvent}
use stocky_cognitive_runtime.Queue.{
  EventQueue, empty_db, new_queue, open_queue, find_event, find, with_status, pending,
}
use stocky_cognitive_runtime.Queue.Events.{push, pop, new_row}
use stocky_cognitive_runtime.Queue.Calls.{Call, opens, pushes, pops, acks, nacks, after, step, run}
use stocky_cognitive_runtime.Queue.Invariant.{IsWellFormed}
use stocky_cognitive_runtime.Queue.Preserved.{run-IsWellFormed, new-IsWellFormed}
use stocky_cognitive_runtime.Queue.Fifo.{waiting, stamped, waiting-push, waiting-pop}
use stocky_cognitive_runtime.Queue.Retries.{fails, HasFailed, fails-HasFailed}
use stocky_cognitive_runtime.Queue.Kept.{Holds, run-Holds}
use stocky_cognitive_runtime.Substrate.{Stages, turn, process_event, turns}
use stocky_cognitive_runtime.Substrate.Gate.{IsApproved, process_event-IsApproved}
use stocky_cognitive_runtime.Substrate.Potential.{potential}
use stocky_cognitive_runtime.Substrate.Settles.{IsSettled, turn-IsSettled}
use stocky_cognitive_runtime.Substrate.Liveness.{turns_drain}
use stocky_cognitive_runtime.Tests.Samples.{null_codec, event, proposal, allowing, result}

abbrev no_bind : Json → Option String
no_bind j = none

abbrev two_calls : List Call
two_calls = opens ∷ pushes (event "a") 5 ∷ pushes (event "b") 6 ∷ []

abbrev fresh : EventQueue
fresh = new_queue empty_db 3

abbrev one_push : List Call
one_push = opens ∷ pushes (event "a") 5 ∷ []

one_row : EventQueue
unfolding run
one_row = run null_codec no_bind fresh one_push

one_row-IsWellFormed : IsWellFormed one_row
unfolding one_row
one_row-IsWellFormed =
    run-IsWellFormed null_codec no_bind fresh one_push (new-IsWellFormed 3 (omega arith))

one_row_on : one_row.connected ≡ true
unfolding one_row run step open_queue push
one_row_on = refl

one_row_found : find_event "a" one_row.db.events ≡ some (new_row null_codec (event "a") 5 1)
unfolding one_row run step open_queue push find
one_row_found = refl

run-IsWellFormed_example : IsWellFormed (run null_codec no_bind fresh two_calls)
run-IsWellFormed_example =
    run-IsWellFormed null_codec no_bind fresh two_calls (new-IsWellFormed 3 (omega arith))

waiting-pop_example :
    ((waiting null_codec one_row ≡ []) × (pop null_codec one_row 9 ≡ ok (none, one_row)))
    ⊎ ((e : HostEvent) × (q : EventQueue) × (waiting null_codec one_row ≡ e ∷ waiting null_codec q)
        × (pop null_codec one_row 9 ≡ ok (some e, q)))
waiting-pop_example = waiting-pop null_codec one_row 9 one_row-IsWellFormed one_row_on

pushed : EventQueue
unfolding push
pushed = after one_row (push null_codec one_row (event "b") 7)

pushed_returns : push null_codec one_row (event "b") 7 ≡ ok (event "b", pushed)
unfolding pushed push one_row run step open_queue
pushed_returns = refl

waiting-push_example :
    (waiting null_codec pushed
      ≡ waiting null_codec one_row ++ stamped null_codec (event "b") 7 ∷ [])
    × (event "b" ≡ event "b")
waiting-push_example =
    waiting-push null_codec one_row pushed (event "b") (event "b") 7 refl pushed_returns

abbrev two_failures : List (String × ℕ)
two_failures = ("again", 11) ∷ ("and again", 12) ∷ []

fails-HasFailed_example :
    HasFailed one_row.max_retries
      (fails one_row "a" (("first", 10) ∷ two_failures))
      "a"
      ((new_row null_codec (event "a") 5 1).retry_count + 1 + length two_failures)
fails-HasFailed_example =
    fails-HasFailed one_row "a" "first" 10 two_failures (new_row null_codec (event "a") 5 1)
      one_row_on one_row_found

one_row-Holds : Holds "a" (new_row null_codec (event "a") 5 1) one_row
one_row-Holds = record {
  row = new_row null_codec (event "a") 5 1;
  found = one_row_found;
  same = record {
    id = refl;
    session = refl;
    kind = refl;
    load = refl;
    created = refl;
    place = refl;
  };
}

abbrev a_life : List Call
a_life = pops 8 ∷ nacks "a" "failed" 9 ∷ pops 10 ∷ acks "a" result 11 ∷ []

run-Holds_example :
    Holds "a" (new_row null_codec (event "a") 5 1) (run null_codec no_bind one_row a_life)
run-Holds_example =
    run-Holds "a" (new_row null_codec (event "a") 5 1) null_codec no_bind one_row a_life
      one_row-Holds

abbrev stages : Stages
stages = record {
  codec = null_codec;
  p3 = λ e. ok (proposal ("filesystem.read" ∷ []));
  p4 = λ p. ok allowing;
  worker = λ p d. ok null;
  correlation = λ e. "c";
  error_text = λ e. "error";
}

process_event_called : (process_event stages one_row (event "a") 9).called ≡ true
unfolding process_event one_row run step open_queue push
process_event_called = refl

process_event-IsApproved_example : IsApproved stages one_row (event "a") 9
process_event-IsApproved_example =
    process_event-IsApproved stages one_row (event "a") 9 process_event_called

-- The worker raises in the first turn and returns in the second.
abbrev failing : Stages
failing = record stages { worker = λ p d. err "broken" }

abbrev three_turns : List (Stages × ℕ)
three_turns = (failing, 7) ∷ (stages, 8) ∷ (stages, 9) ∷ []

turns_drain_example : with_status pending (turns one_row three_turns).db.events ≡ []
unfolding one_row run step open_queue push potential
turns_drain_example =
    turns_drain no_bind one_row three_turns one_row-IsWellFormed one_row_on (omega arith)

one_row_waits : with_status pending one_row.db.events ≡ new_row null_codec (event "a") 5 1 ∷ []
unfolding one_row run step open_queue push
one_row_waits = refl

turn-IsSettled_example : IsSettled one_row.max_retries "a" 0 (turn failing one_row 9)
unfolding new_row
turn-IsSettled_example =
    turn-IsSettled failing one_row 9 (new_row null_codec (event "a") 5 1) [] one_row-IsWellFormed
      one_row_on one_row_waits
