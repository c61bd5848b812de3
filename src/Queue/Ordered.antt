-- ===== src/Queue/Ordered.antt =====
-- The order of the rows of the events table: laws of UPDATE, ORDER BY and COUNT over it.
use stocky_cognitive_runtime.Prelude.{
  ℕ, ◌≤◌, ◌<◌, ◌≡◌, inl, inr, refl, sym, String, Bool, false, Option, none, some, List, [], ◌∷◌,
  ◌++◌, arith, keep, All, str_eq, eq_iff, eq_refl, if◌then◌else◌, Bool-cases,
}
use mathlib.Core.Path.{subst}
use stocky_cognitive_runtime.Queue.{
  Status, pending, processing, same_status, EventRow, find_event, with_status, by_sequence, find,
  update, insert_by, order_by, max_sequence,
}

-- Sequence numbers grow, from a bound on, and no event id is repeated.
abbrev pub IsOrdered : ℕ → List EventRow → Type 0
IsOrdered b [] = Unit
IsOrdered b (r ∷ rs) =
    (b < r.sequence_no) × (find_event r.event_id rs ≡ none) × IsOrdered r.sequence_no rs

abbrev Grows : ℕ → List EventRow → Type 0
Grows b [] = Unit
Grows b (r ∷ rs) = (b < r.sequence_no) × Grows r.sequence_no rs

-- A write that keeps the key and the sequence number.
pub record KeepsKey (set : EventRow → EventRow) : Type 0 where
  pub id : (r : EventRow) → (set r).event_id ≡ r.event_id
  pub sequence : (r : EventRow) → (set r).sequence_no ≡ r.sequence_no

abbrev pub map_option : (EventRow → EventRow) → Option EventRow → Option EventRow
map_option set none = none
map_option set (some r) = some (set r)

-- The row with the key of an UPDATE is written, and every other row is found as before.
pub find-update :
    (id j : String) (set : EventRow → EventRow) (rows : List EventRow)
    → KeepsKey set
    → find_event j (update id set rows)
      ≡ (if str_eq id j then map_option set (find_event j rows) else find_event j rows)
unfolding find update
find-update id j set [] k = ground arith
find-update id j set (r ∷ rs) k = ground (
  arith,
  find-update id j set rs k,
  k.id r,
  eq_iff r.event_id id,
  eq_iff r.event_id j,
  eq_iff id j,
)

pub find-append :
    (j : String) (rows : List EventRow) (r : EventRow)
    → find_event j rows ≡ none
    → str_eq r.event_id j ≡ false
    → find_event j (rows ++ r ∷ []) ≡ none
unfolding find
find-append j [] r h ne = ground arith
find-append j (s ∷ rows) r h ne = ground (arith, find-append j rows r)

pub update_absent :
    (id : String) (set : EventRow → EventRow) (rows : List EventRow)
    → find_event id rows ≡ none
    → update id set rows ≡ rows
unfolding find update
update_absent id set [] h = refl
update_absent id set (r ∷ rows) h = ground (arith, update_absent id set rows)

pub All-update {ℓ} :
    (P : EventRow → Type ℓ) (id : String) (set : EventRow → EventRow) (rows : List EventRow)
    → ((r : EventRow) → P r → P (set r))
    → All P rows
    → All P (update id set rows)
unfolding update
All-update P id set [] keeps h = h
All-update P id set (r ∷ rows) keeps h = elim (Bool-cases (str_eq r.event_id id)) [
  | inl e ↦ rw e (keeps r h.0, All-update P id set rows keeps h.1)
  | inr e ↦ rw e (h.0, All-update P id set rows keeps h.1)
]

find_absent-update :
    (id j : String) (set : EventRow → EventRow) (rows : List EventRow)
    → KeepsKey set
    → find_event j rows ≡ none
    → find_event j (update id set rows) ≡ none
find_absent-update id j set rows k h = ground (arith, find-update id j set rows k)

pub IsOrdered-update :
    (b : ℕ) (id : String) (set : EventRow → EventRow) (rows : List EventRow)
    → KeepsKey set
    → IsOrdered b rows
    → IsOrdered b (update id set rows)
unfolding update
IsOrdered-update b id set [] k h = tt
IsOrdered-update b id set (r ∷ rows) k h = elim (Bool-cases (str_eq r.event_id id)) [
  | inl e ↦
      rw (e, k.sequence r, k.id r)
        (
          h.0,
          find_absent-update id r.event_id set rows k h.1,
          IsOrdered-update r.sequence_no id set rows k h.2,
        )
  | inr e ↦ rw e (
    h.0,
    find_absent-update id r.event_id set rows k h.1,
    IsOrdered-update r.sequence_no id set rows k h.2,
  )
]

pub IsOrdered-append :
    (b : ℕ) (rows : List EventRow) (r : EventRow)
    → IsOrdered b rows
    → b < r.sequence_no
    → max_sequence rows < r.sequence_no
    → find_event r.event_id rows ≡ none
    → IsOrdered b (rows ++ r ∷ [])
unfolding max_sequence find
IsOrdered-append b [] r h lt max new = (lt, refl, tt)
IsOrdered-append b (s ∷ rows) r h lt max new = (
  h.0,
  find-append s.event_id rows r h.1
      (ground (arith, eq_iff r.event_id s.event_id, eq_iff s.event_id r.event_id)),
  IsOrdered-append s.sequence_no rows r h.2 (ground arith) (ground arith) (ground arith),
)

Grows-weaken : (b c : ℕ) (rows : List EventRow) → b ≤ c → Grows c rows → Grows b rows
Grows-weaken b c [] le h = tt
Grows-weaken b c (r ∷ rows) le h = (omega arith, h.1)

Grows-keep :
    (b : ℕ) (p : EventRow → Bool) (rows : List EventRow) → IsOrdered b rows → Grows b (keep p rows)
Grows-keep b p [] h = tt
Grows-keep b p (r ∷ rows) h = elim (Bool-cases (p r)) [
  | inl e ↦ rw e (h.0, Grows-keep r.sequence_no p rows h.2)
  | inr e ↦ rw e (
      Grows-weaken b r.sequence_no (keep p rows) (omega arith)
        (Grows-keep r.sequence_no p rows h.2))
]

insert_by_first :
    (r : EventRow) (rows : List EventRow)
    → Grows r.sequence_no rows
    → insert_by by_sequence r rows ≡ r ∷ rows
unfolding insert_by
insert_by_first r [] h = refl
insert_by_first r (s ∷ rows) h = ground arith

order_by-Grows : (b : ℕ) (rows : List EventRow) → Grows b rows → order_by by_sequence rows ≡ rows
unfolding order_by
order_by-Grows b [] h = refl
order_by-Grows b (r ∷ rows) h =
    rw (order_by-Grows r.sequence_no rows h.1) (insert_by_first r rows h.1)

-- A selection of the rows in the table's order is ordered by sequence number already.
pub order_by-keep :
    (b : ℕ) (p : EventRow → Bool) (rows : List EventRow)
    → IsOrdered b rows
    → order_by by_sequence (keep p rows) ≡ keep p rows
order_by-keep b p rows h = order_by-Grows b (keep p rows) (Grows-keep b p rows h)

abbrev is_pending : EventRow → Bool
is_pending r = same_status r.status pending

-- To mark the first pending row as processing takes it off the pending rows, and no other.
pub with_status-update :
    (b : ℕ) (set : EventRow → EventRow) (rows : List EventRow) (r : EventRow) (rest : List EventRow)
    → ((s : EventRow) → (set s).status ≡ processing)
    → IsOrdered b rows
    → with_status pending rows ≡ r ∷ rest
    → with_status pending (update r.event_id set rows) ≡ rest
unfolding update find
with_status-update b set [] r rest marks h e = cc
with_status-update b set (x ∷ rows) r rest marks h e = elim (Bool-cases (is_pending x)) [
  | inl p ↦
      ground (arith, marks x, eq_iff x.event_id r.event_id, update_absent x.event_id set rows h.1)
  | inr np ↦ ground (arith, marks x, with_status-update x.sequence_no set rows r rest marks h.2)
]

pub with_status-append :
    (s : Status) (rows : List EventRow) (r : EventRow)
    → with_status s (rows ++ r ∷ [])
      ≡ with_status s rows ++ (if same_status r.status s then r ∷ [] else [])
with_status-append s [] r = refl
with_status-append s (x ∷ rows) r = ground (arith, with_status-append s rows r)

-- An UPDATE by the key of a row writes that row alone.
pub All-update_found {ℓ} :
    (P : EventRow → Type ℓ) (b : ℕ) (id : String) (set : EventRow → EventRow) (rows : List EventRow)
    (r : EventRow)
    → IsOrdered b rows
    → find_event id rows ≡ some r
    → P (set r)
    → All P rows
    → All P (update id set rows)
unfolding find update
All-update_found P b id set [] r h e p all = cc
All-update_found P b id set (x ∷ rows) r h e p all = elim (Bool-cases (str_eq x.event_id id)) [
  | inl same ↦
      let is_r : x ≡ r = ground arith in
      let absent : find_event id rows ≡ none = rw ((eq_iff x.event_id id).0 same) at h.1 in
      rw (same, update_absent id set rows absent) (subst (λ y. P (set y)) (sym is_r) p, all.1)
  | inr other ↦
      rw other (all.0, All-update_found P x.sequence_no id set rows r h.2 (rw other at e) p all.1)
]

pub All-find {ℓ} :
    (P : EventRow → Type ℓ) (id : String) (rows : List EventRow) (r : EventRow)
    → find_event id rows ≡ some r
    → All P rows
    → P r
unfolding find
All-find P id [] r e all = cc
All-find P id (x ∷ rows) r e all = elim (Bool-cases (str_eq x.event_id id)) [
  | inl same ↦ let is_r : x ≡ r = ground arith in subst P is_r all.0
  | inr other ↦ All-find P id rows r (rw other at e) all.1
]

-- The first of the pending rows is found by its key.
pub find-with_status :
    (b : ℕ) (rows : List EventRow) (r : EventRow) (rest : List EventRow)
    → IsOrdered b rows
    → with_status pending rows ≡ r ∷ rest
    → (find_event r.event_id rows ≡ some r) × (r.status ≡ pending)
unfolding find
find-with_status b [] r rest h e = cc
find-with_status b (x ∷ rows) r rest h e = elim (Bool-cases (is_pending x)) [
  | inl p ↦ ground (arith, eq_refl x.event_id)
  | inr np ↦
      ground (arith, find-with_status x.sequence_no rows r rest h.2, eq_iff x.event_id r.event_id)
]
