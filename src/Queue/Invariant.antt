-- ===== src/Queue/Invariant.antt =====
-- substrate/event_queue.py: what holds of the queue's tables between two calls.
use stocky_cognitive_runtime.Prelude.{
  ℕ, zero, suc, ◌-◌, ◌≤◌, ◌<◌, ◌≡◌, refl, String, Bool, not, List, [], ◌∷◌, arith, length, keep,
  All, str_eq,
}
use stocky_cognitive_runtime.Queue.{
  pending, processing, dead, EventRow, DeadRow, take_oldest, delete_oldest, EventQueue,
  max_dead_letter,
}
use stocky_cognitive_runtime.Queue.DeadLetter.{
  prune_dead_letter, insert_dead, move_to_dlq, delete_dead,
}
use stocky_cognitive_runtime.Queue.Ordered.{IsOrdered}

-- The retries of a row: a waiting or running event has some left, a dead one has none.
pub record IsInBudget (max : ℕ) (r : EventRow) : Type 0 where
  pub waiting : r.status ≡ pending → r.retry_count < max
  pub running : r.status ≡ processing → r.retry_count < max
  pub spent : r.status ≡ dead → max ≤ r.retry_count

pub record IsWellFormed (q : EventQueue) : Type 0 where
  pub some_retry : 0 < q.max_retries
  pub ordered : IsOrdered 0 q.db.events
  pub in_budget : All (IsInBudget q.max_retries) q.db.events
  pub dead_bounded : length q.db.dead_letter ≤ max_dead_letter

length-take_oldest : (r : DeadRow) (rs : List DeadRow) → length (take_oldest r rs).1 ≡ length rs
unfolding take_oldest
length-take_oldest r [] = refl
length-take_oldest r (s ∷ rs) = ground (arith, length-take_oldest s rs)

length-delete_oldest : (n : ℕ) (rs : List DeadRow) → length (delete_oldest n rs) ≡ length rs - n
unfolding delete_oldest
length-delete_oldest zero rs = omega arith
length-delete_oldest (suc n) [] = omega arith
length-delete_oldest (suc n) (r ∷ rs) =
    omega (arith, length-delete_oldest n (take_oldest r rs).1, length-take_oldest r rs)

pub prune_dead_letter_bounded :
    (rs : List DeadRow) → length (prune_dead_letter rs) ≤ max_dead_letter
unfolding prune_dead_letter
prune_dead_letter_bounded rs = ground (arith, length-delete_oldest (length rs - max_dead_letter) rs)

length-keep : (p : DeadRow → Bool) (rs : List DeadRow) → length (keep p rs) ≤ length rs
length-keep p [] = omega arith
length-keep p (r ∷ rs) = ground (arith, length-keep p rs)

pub move_to_dlq_bounded :
    (row : DeadRow) (rows : List DeadRow) → length (move_to_dlq row rows) ≤ max_dead_letter
unfolding move_to_dlq
move_to_dlq_bounded row rows = prune_dead_letter_bounded (insert_dead row rows)

pub delete_dead_bounded :
    (id : String) (q : EventQueue)
    → length q.db.dead_letter ≤ max_dead_letter
    → length (delete_dead id q).db.dead_letter ≤ max_dead_letter
unfolding delete_dead
delete_dead_bounded id q h =
    omega (arith, length-keep (λ r. not (str_eq r.event_id id)) q.db.dead_letter)
