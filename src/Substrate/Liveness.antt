-- ===== src/Substrate/Liveness.antt =====
-- substrate/substrate_loop.py: how many turns of the loop it takes until no event waits.
use mathlib.Core.Path.{subst}
use stocky_cognitive_runtime.Prelude.{
  ℕ, ◌+◌, ◌-◌, ◌≤◌, ◌≡◌, refl, sym, ap, ◌∙◌, String, true, not, Option, some, List, [], ◌∷◌, arith,
  length, if_cases, eq_refl,
}
use stocky_cognitive_runtime.Prelude.Raise.{ok}
use stocky_cognitive_runtime.Data.Json.{Json}
use stocky_cognitive_runtime.Data.Contract.{HostEvent}
use stocky_cognitive_runtime.Queue.{pending, EventRow, with_status, update, EventQueue, Answer}
use stocky_cognitive_runtime.Queue.Events.{pop, pop_first, start, event_of}
use stocky_cognitive_runtime.Queue.Ordered.{
  order_by-keep, find-with_status, find-update, IsOrdered-update, All-find,
}
use stocky_cognitive_runtime.Queue.Invariant.{IsInBudget, IsWellFormed}
use stocky_cognitive_runtime.Queue.Preserved.{start-KeepsKey}
use stocky_cognitive_runtime.Substrate.{Stages, popped, turn, turns}
use stocky_cognitive_runtime.Substrate.Turns.{turn-IsWellFormed}
use stocky_cognitive_runtime.Substrate.Potential.{
  potential, potential-update, potential_zero, IsRunning, IsBelow,
}
use stocky_cognitive_runtime.Substrate.Drains.{processed-IsBelow}

module _ (stages : Stages) (q : EventQueue) (h : IsWellFormed q) (on : q.connected ≡ true)
    (now : ℕ) where
  pub pop_rows :
      (rows : List EventRow)
      → with_status pending q.db.events ≡ rows
      → pop stages.codec q now ≡ ok (pop_first stages.codec q now rows)
  unfolding pop
  pop_rows rows e =
      if_cases (λ (a : Answer (Option HostEvent)). a ≡ ok (pop_first stages.codec q now rows))
        (not q.connected) _ _ (λ off. absurd (ground (arith, on, off)))
        (λ go.
          ap (λ rs. ok (pop_first stages.codec q now rs))
            (order_by-keep 0 _ q.db.events h.ordered ∙ e))

  turn_idle : with_status pending q.db.events ≡ [] → (turn stages q now).queue ≡ q
  unfolding turn popped pop_first
  turn_idle e = ap (λ a. (popped stages q now a).queue) (pop_rows [] e)

  module _ (r : EventRow) (rest : List EventRow)
      (e : with_status pending q.db.events ≡ r ∷ rest) where
    abbrev pub marked : EventQueue
    marked = record q { db = record q.db { events = update r.event_id (start now) q.db.events } }

    pub marked-IsRunning : IsRunning marked r.event_id (start now r)
    marked-IsRunning =
        let (found, waits) = find-with_status 0 q.db.events r rest h.ordered e in
        record {
          on = on;
          ordered =
              IsOrdered-update 0 r.event_id (start now) q.db.events (start-KeepsKey now) h.ordered;
          found = ground (
            arith,
            find-update r.event_id r.event_id (start now) q.db.events (start-KeepsKey now),
            eq_refl r.event_id,
            found,
          );
          idle = refl;
          left =
              (All-find (IsInBudget q.max_retries) r.event_id q.db.events r found
                  h.in_budget).waiting
                waits;
        }

    marked_lem :
        potential q.max_retries marked.db.events + (q.max_retries - r.retry_count)
        ≡ potential q.max_retries q.db.events
    marked_lem =
        let (found, waits) = find-with_status 0 q.db.events r rest h.ordered e in
        let moved =
          potential-update q.max_retries 0 r.event_id (start now) q.db.events r h.ordered found in
        ground (arith, moved, waits)

    turn-IsBelow :
        IsBelow q.max_retries (potential q.max_retries q.db.events) (turn stages q now).queue
    unfolding turn popped pop_first event_of
    turn-IsBelow =
        subst
          (λ a.
            IsBelow q.max_retries (potential q.max_retries q.db.events)
              (popped stages q now a).queue)
          (sym (pop_rows (r ∷ rest) e))
          (subst
            (λ n.
              IsBelow q.max_retries n
                (popped stages q now (ok (some (event_of stages.codec r), marked))).queue)
            marked_lem
            (processed-IsBelow stages marked (event_of stages.codec r) (start now r)
              marked-IsRunning now))

module _ (bind : Json → Option String) where
  turns_idle :
      (q : EventQueue) (ms : List (Stages × ℕ))
      → IsWellFormed q
      → q.connected ≡ true
      → with_status pending q.db.events ≡ []
      → turns q ms ≡ q
  unfolding turns
  turns_idle q [] h on e = refl
  turns_idle q ((stages, now) ∷ ms) h on e =
      ap (λ x. turns x ms) (turn_idle stages q h on now e) ∙ turns_idle q ms h on e

  turns_from :
      (q : EventQueue) (stages : Stages) (now : ℕ) (ms : List (Stages × ℕ)) (rows : List EventRow)
      → with_status pending q.db.events ≡ rows
      → IsWellFormed q
      → q.connected ≡ true
      → ((q' : EventQueue)
          → IsBelow q.max_retries (potential q.max_retries q.db.events) q'
          → IsWellFormed q'
          → with_status pending (turns q' ms).db.events ≡ [])
      → with_status pending (turns q ((stages, now) ∷ ms)).db.events ≡ []
  unfolding turns
  turns_from q stages now ms [] e h on more =
      ap (λ (x : EventQueue). with_status pending x.db.events)
        (turns_idle q ((stages, now) ∷ ms) h on e)
      ∙ e
  turns_from q stages now ms (r ∷ rest) e h on more =
      more (turn stages q now).queue (turn-IsBelow stages q h on now r rest e)
        (turn-IsWellFormed stages bind q now h)

  -- On a connected, well-formed queue that gets no other calls, no event waits after as many turns of
  -- the loop as the waiting events have failures left, whatever P3, P4 and the worker return or raise
  -- in each of them.
  pub turns_drain :
      (q : EventQueue) (ms : List (Stages × ℕ))
      → IsWellFormed q
      → q.connected ≡ true
      → potential q.max_retries q.db.events ≤ length ms
      → with_status pending (turns q ms).db.events ≡ []
  unfolding turns
  turns_drain q [] h on enough = potential_zero q.max_retries q.db.events h.in_budget (omega arith)
  turns_drain q ((stages, now) ∷ ms) h on enough =
      turns_from q stages now ms _ refl h on (λ q' below h'. turns_drain q' ms h' below.on (
        subst (λ m. potential m q'.db.events ≤ length ms) (sym below.max_retries)
          (let low = below.below in omega arith)))
