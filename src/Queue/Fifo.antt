-- ===== src/Queue/Fifo.antt =====
-- substrate/event_queue.py: the abstract view of the queue as the list of the events that wait, and
-- `push` and `pop` on that view.
use mathlib.Core.List.{map-append}
use stocky_cognitive_runtime.Prelude.{
  ℕ, ◌≡◌, refl, sym, ap, ◌∙◌, ◌⊎◌, inl, inr, true, not, Option, none, some, List, [], ◌∷◌, ◌++◌,
  map, arith, if◌then◌else◌,
}
use stocky_cognitive_runtime.Prelude.Raise.{ok, err}
use stocky_cognitive_runtime.Data.Json.{Codec}
use stocky_cognitive_runtime.Data.Contract.{HostEvent}
use stocky_cognitive_runtime.Queue.{
  pending, EventRow, with_status, by_sequence, order_by, EventQueue, same_status, not_connected,
  next_sequence,
}
use stocky_cognitive_runtime.Queue.Events.{new_row, push, pop, pop_first, event_of, start}
use stocky_cognitive_runtime.Queue.Ordered.{with_status-append, with_status-update, order_by-keep}
use stocky_cognitive_runtime.Queue.Invariant.{IsWellFormed}

module _ (codec : Codec) where
  abbrev pub waiting : EventQueue → List HostEvent
  waiting q = map (event_of codec) (with_status pending q.db.events)

  -- The event that a push adds to the view: its time is replaced by the time of the push.
  abbrev pub stamped : HostEvent → ℕ → HostEvent
  stamped e now = record e { timestamp = now }

  event_of-new_row :
      (e : HostEvent) (now seq : ℕ)
      → codec.loads (codec.dumps e.payload) ≡ e.payload
      → event_of codec (new_row codec e now seq) ≡ stamped e now
  unfolding event_of new_row
  event_of-new_row e now seq read_back = λ i. record {
    event_id = e.event_id;
    session_id = e.session_id;
    timestamp = now;
    source = e.source;
    payload = read_back i;
  }

  new_row_waits :
      (e : HostEvent) (now seq : ℕ)
      → (if same_status (new_row codec e now seq).status pending
          then new_row codec e now seq ∷ []
          else [])
        ≡ new_row codec e now seq ∷ []
  unfolding new_row
  new_row_waits e now seq = refl

  push_ok :
      (q q' : EventQueue) (e e' : HostEvent) (now : ℕ)
      → push codec q e now ≡ ok (e', q')
      → (q'.db.events ≡ q.db.events ++ new_row codec e now (next_sequence q.db.events) ∷ [])
        × (e' ≡ e)
  unfolding push
  push_ok q q' e e' now h = ground arith

  -- A push that returns has put the event, stamped with the time of the push, behind all that wait,
  -- if the `json` module reads back what it wrote of the event's payload.
  pub waiting-push :
      (q q' : EventQueue) (e e' : HostEvent) (now : ℕ)
      → codec.loads (codec.dumps e.payload) ≡ e.payload
      → push codec q e now ≡ ok (e', q')
      → (waiting q' ≡ waiting q ++ stamped e now ∷ []) × (e' ≡ e)
  waiting-push q q' e e' now read_back h =
      let (rows, same) = push_ok q q' e e' now h in
      let row : EventRow = new_row codec e now (next_sequence q.db.events) in
      (
        ap (λ rs. map (event_of codec) (with_status pending rs)) rows
            ∙ ap (map (event_of codec)) (with_status-append pending q.db.events row)
            ∙ ap (λ rs. map (event_of codec) (with_status pending q.db.events ++ rs))
                (new_row_waits e now (next_sequence q.db.events))
            ∙ map-append (event_of codec) (with_status pending q.db.events) (row ∷ [])
            ∙ ap (λ ev. waiting q ++ ev ∷ [])
                (event_of-new_row e now (next_sequence q.db.events) read_back),
        same,
      )

  pop_first-waiting :
      (q : EventQueue) (now : ℕ) (rows : List EventRow)
      → with_status pending q.db.events ≡ rows
      → IsWellFormed q
      → ((waiting q ≡ []) × (pop_first codec q now rows ≡ (none, q)))
        ⊎ ((e : HostEvent) × (q' : EventQueue) × (waiting q ≡ e ∷ waiting q')
            × (pop_first codec q now rows ≡ (some e, q')))
  unfolding pop_first
  pop_first-waiting q now [] e h = inl (rw e refl, refl)
  pop_first-waiting q now (r ∷ rest) e h = inr (
    event_of codec r,
    (pop_first codec q now (r ∷ rest)).1,
    ap (map (event_of codec)) e
        ∙ ap (λ rs. event_of codec r ∷ map (event_of codec) rs)
            (sym (with_status-update 0 (start now) q.db.events r rest (λ s. refl) h.ordered e)),
    refl,
  )

  -- On a connected, well-formed queue `pop` returns: nothing, and the queue as it was, if no event
  -- waits; else the first of the waiting events, which leaves the others waiting in their order.
  pub waiting-pop :
      (q : EventQueue) (now : ℕ)
      → IsWellFormed q
      → q.connected ≡ true
      → ((waiting q ≡ []) × (pop codec q now ≡ ok (none, q)))
        ⊎ ((e : HostEvent) × (q' : EventQueue) × (waiting q ≡ e ∷ waiting q')
            × (pop codec q now ≡ ok (some e, q')))
  unfolding pop
  waiting-pop q now h on =
      elim (pop_first-waiting q now _ (sym (order_by-keep 0 _ q.db.events h.ordered)) h) [
        | inl (none_waits, r) ↦ inl (none_waits, answers (none, q) r)
        | inr (e, q', w, r) ↦ inr (e, q', w, answers (some e, q') r)
      ]
    where
      answers :
          (a : Option HostEvent × EventQueue)
          → pop_first codec q now (order_by by_sequence (with_status pending q.db.events)) ≡ a
          → (if not q.connected
              then err not_connected
              else ok
                  (pop_first codec q now (order_by by_sequence (with_status pending q.db.events))))
            ≡ ok a
      answers a r = simp on (ap ok r)
