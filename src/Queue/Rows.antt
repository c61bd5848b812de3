-- ===== src/Queue/Rows.antt =====
-- The tables of substrate/event_queue.py as lists of rows, in the order of insertion, and the SQL
-- statements of the queue as functions of them: selection by the primary key, UPDATE, ORDER BY,
-- MAX and COUNT.
use stocky_cognitive_runtime.Prelude.{
  ℕ, zero, suc, String, Bool, true, false, Option, none, some, List, [], ◌∷◌, str_eq, ltb, leb,
  if◌then◌else◌, keep,
}
use stocky_cognitive_runtime.Data.Float.{Float}
use stocky_cognitive_runtime.Data.Contract.{Verdict, ResultStatus}

pub data Status : Type 0 where
  pending processing done dead : Status

abbrev pub same_status : Status → Status → Bool
same_status pending pending = true
same_status processing processing = true
same_status done done = true
same_status dead dead = true
same_status _ _ = false

-- `payload` and `result` are JSON texts.
pub record EventRow : Type 0 where
  pub event_id : String
  pub session_id : String
  pub event_type : String
  pub payload : String
  pub status : Status
  pub retry_count : ℕ
  pub created_at : ℕ
  pub started_at : Option ℕ
  pub finished_at : Option ℕ
  pub result : Option String
  pub error : Option String
  pub sequence_no : ℕ

pub record DeadRow : Type 0 where
  pub event_id : String
  pub original_event : String
  pub failure_reason : String
  pub retry_count : ℕ
  pub created_at : ℕ

pub record DecisionRow : Type 0 where
  pub decision_id : String
  pub proposal_id : String
  pub session_id : String
  pub verdict : Verdict
  pub reason : String
  pub risk_level : String
  pub rule_triggered : Option String
  pub confidence : Float
  pub created_at : ℕ

pub record ResultRow : Type 0 where
  pub execution_id : String
  pub proposal_id : String
  pub session_id : String
  pub status : ResultStatus
  pub output : Option String
  pub error : Option String
  pub started_at : ℕ
  pub finished_at : ℕ

pub record Db : Type 0 where
  pub events : List EventRow
  pub dead_letter : List DeadRow
  pub decisions : List DecisionRow
  pub results : List ResultRow

abbrev pub empty_db : Db
empty_db = record { events = []; dead_letter = []; decisions = []; results = [] }

-- SELECT … WHERE key = ?, on a primary key.
unfoldable pub find {ℓ} : {A : Type ℓ} → (A → String) → String → List A → Option A
find key id [] = none
find key id (r ∷ rs) = if str_eq (key r) id then some r else find key id rs

abbrev pub find_event : String → List EventRow → Option EventRow
find_event = find (λ r. r.event_id)

abbrev pub find_dead : String → List DeadRow → Option DeadRow
find_dead = find (λ r. r.event_id)

-- UPDATE events SET … WHERE event_id = ?
unfoldable pub update : String → (EventRow → EventRow) → List EventRow → List EventRow
update id set [] = []
update id set (r ∷ rs) = (if str_eq r.event_id id then set r else r) ∷ update id set rs

-- WHERE status = ?
abbrev pub with_status : Status → List EventRow → List EventRow
with_status s = keep (λ r. same_status r.status s)

-- ORDER BY: a stable insertion sort by a number.
unfoldable pub insert_by {ℓ} : {A : Type ℓ} → (A → A → Bool) → A → List A → List A
insert_by before x [] = x ∷ []
insert_by before x (y ∷ ys) =
    let rest = insert_by before x ys in if before y x then y ∷ rest else x ∷ y ∷ ys

unfoldable pub order_by {ℓ} : {A : Type ℓ} → (A → A → Bool) → List A → List A
unfolding insert_by
order_by before [] = []
order_by before (x ∷ xs) = insert_by before x (order_by before xs)

-- ORDER BY sequence_no ASC; ORDER BY created_at DESC
abbrev pub by_sequence : EventRow → EventRow → Bool
by_sequence r s = ltb r.sequence_no s.sequence_no

abbrev pub newest_first : DeadRow → DeadRow → Bool
newest_first r s = ltb s.created_at r.created_at

-- COALESCE(MAX(sequence_no), 0)
unfoldable pub max_sequence : List EventRow → ℕ
max_sequence [] = 0
max_sequence (r ∷ rs) = let m = max_sequence rs in if leb m r.sequence_no then r.sequence_no else m

-- The oldest of a row and more rows, and the others.
unfoldable pub take_oldest : DeadRow → List DeadRow → DeadRow × List DeadRow
take_oldest r [] = (r, [])
take_oldest r (s ∷ rs) =
    let (oldest, others) = take_oldest s rs in
    if leb r.created_at oldest.created_at then (r, s ∷ rs) else (oldest, r ∷ others)

-- DELETE of the given number of rows that are first by created_at.
unfoldable pub delete_oldest : ℕ → List DeadRow → List DeadRow
unfolding take_oldest
delete_oldest zero rs = rs
delete_oldest (suc n) [] = []
delete_oldest (suc n) (r ∷ rs) = delete_oldest n (take_oldest r rs).1
