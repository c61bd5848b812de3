-- ===== src/Substrate/Potential.antt =====
-- substrate/event_queue.py: the retries that the waiting events have left, over `pop`, `ack` and
-- `nack`.
use stocky_cognitive_runtime.Prelude.{
  ℕ, ◌+◌, ◌-◌, ◌<◌, ◌≡◌, refl, sym, inl, inr, String, true, none, some, List, [], ◌∷◌, arith, All,
  str_eq, eq_iff, Bool-cases, if◌then◌else◌, if_cases, leb,
}
use mathlib.Core.Path.{subst}
use stocky_cognitive_runtime.Queue.{
  Status, pending, processing, done, dead, EventRow, same_status, with_status, find_event, find,
  update, EventQueue,
}
use stocky_cognitive_runtime.Queue.Events.{finish}
use stocky_cognitive_runtime.Queue.DeadLetter.{nack_found, nack_row, bury, again}
use stocky_cognitive_runtime.Queue.Ordered.{IsOrdered, update_absent}
use stocky_cognitive_runtime.Queue.Invariant.{IsInBudget}

-- The failures that a waiting row can still have.
abbrev pub weight : ℕ → EventRow → ℕ
weight max r = if same_status r.status pending then max - r.retry_count else 0

unfoldable pub potential : ℕ → List EventRow → ℕ
potential max [] = 0
potential max (r ∷ rs) = weight max r + potential max rs

-- An UPDATE by the key of a row changes the sum by what it changes of that row.
pub potential-update :
    (max b : ℕ) (id : String) (set : EventRow → EventRow) (rows : List EventRow) (r : EventRow)
    → IsOrdered b rows
    → find_event id rows ≡ some r
    → potential max (update id set rows) + weight max r ≡ potential max rows + weight max (set r)
unfolding potential update find
potential-update max b id set [] r h e = cc
potential-update max b id set (x ∷ rows) r h e = elim (Bool-cases (str_eq x.event_id id)) [
  | inl same ↦
      let found : x ≡ r = ground (arith, same, e) in
      let id_free : find_event id rows ≡ none =
        subst (λ j. find_event j rows ≡ none) ((eq_iff x.event_id id).0 same) h.1 in
      rw (same, update_absent id set rows id_free, found) (omega arith)
  | inr other ↦
      let ih = potential-update max x.sequence_no id set rows r h.2 (ground (arith, other, e)) in
      rw other (omega (arith, ih))
]

same_status-pending : (s : Status) → same_status s pending ≡ true → s ≡ pending
same_status-pending pending h = refl
same_status-pending processing h = ground (arith, h)
same_status-pending done h = ground (arith, h)
same_status-pending dead h = ground (arith, h)

pub potential_zero :
    (max : ℕ) (rows : List EventRow)
    → All (IsInBudget max) rows
    → potential max rows ≡ 0
    → with_status pending rows ≡ []
unfolding potential
potential_zero max [] h e = refl
potential_zero max (r ∷ rows) h e = elim (Bool-cases (same_status r.status pending)) [
  | inl waits ↦ absurd (
      let left = h.0.waiting (same_status-pending r.status waits) in ground (arith, waits, e, left))
  | inr idle ↦ rw idle (potential_zero max rows h.1 (ground (arith, idle, e)))
]

-- An event in work: its row, and the queue at the start of its turn.
pub record IsRunning (q : EventQueue) (id : String) (r : EventRow) : Type 0 where
  pub on : q.connected ≡ true
  pub ordered : IsOrdered 0 q.db.events
  pub found : find_event id q.db.events ≡ some r
  pub idle : weight q.max_retries r ≡ 0
  pub left : r.retry_count < q.max_retries

-- A queue from which the decision of the event was at most recorded.
pub record IsHeld (q q' : EventQueue) : Type 0 where
  pub on : q'.connected ≡ q.connected
  pub max : q'.max_retries ≡ q.max_retries
  pub events : q'.db.events ≡ q.db.events

-- A queue whose events wait with fewer failures left than a bound.
pub record IsBelow (max bound : ℕ) (q : EventQueue) : Type 0 where
  pub on : q.connected ≡ true
  pub max_retries : q.max_retries ≡ max
  pub below : potential max q.db.events < bound

module _ (q : EventQueue) (id : String) (r : EventRow) (run : IsRunning q id r) where
  abbrev bound : ℕ
  bound = potential q.max_retries q.db.events + (q.max_retries - r.retry_count)

  pub finish_below :
      (now : ℕ) (text : String)
      → potential q.max_retries (update id (finish now text) q.db.events) < bound
  finish_below now text =
      let h =
        potential-update q.max_retries 0 id (finish now text) q.db.events r run.ordered run.found in
      omega (arith, h, run.idle, run.left)

  bury_below :
      (error : String) (n : ℕ)
      → potential q.max_retries (update id (bury error n) q.db.events) < bound
  bury_below error n =
      let h =
        potential-update q.max_retries 0 id (bury error n) q.db.events r run.ordered run.found in
      omega (arith, h, run.idle, run.left)

  again_below : potential q.max_retries (update id (again (r.retry_count + 1)) q.db.events) < bound
  again_below =
      let h =
        potential-update q.max_retries 0 id (again (r.retry_count + 1)) q.db.events r run.ordered
          run.found in
      omega (arith, h, run.idle, run.left)

  nack_row-IsBelow :
      (error : String) (now : ℕ) → IsBelow q.max_retries bound (nack_row q id error now r)
  unfolding nack_row
  nack_row-IsBelow error now =
      if_cases (IsBelow q.max_retries bound) (leb q.max_retries (r.retry_count + 1)) _ _
        (λ spent. record { on = run.on; max_retries = refl; below = bury_below error _ })
        (λ more. record { on = run.on; max_retries = refl; below = again_below })

  pub nack_found-IsBelow :
      (error : String) (now : ℕ)
      → IsBelow q.max_retries bound (nack_found q id error now (find_event id q.db.events))
  unfolding nack_found
  nack_found-IsBelow error now =
      subst (λ o. IsBelow q.max_retries bound (nack_found q id error now o)) (sym run.found)
        (nack_row-IsBelow error now)
