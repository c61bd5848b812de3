-- ===== src/Recovery/Delta/Chain.antt =====
-- delta_checkpoint.py: the laws of the files, the bases and the chain of segments.
use stocky_cognitive_runtime.Prelude.{
  ℕ, suc, ◌+◌, ◌<◌, ◌≡◌, refl, ap, ◌∙◌, inl, inr, String, true, false, none, some, List, [], ◌∷◌,
  ◌++◌, length, All, arith, ltb, str_eq, eq_iff, if◌then◌else◌, Bool-cases,
}
use stocky_cognitive_runtime.Data.Json.{Json, Fields, end, field, get_field}
use stocky_cognitive_runtime.Queue.{order_by, insert_by}
use stocky_cognitive_runtime.Recovery.Snapshot.{RuntimeSnapshot, set_field, update_fields}
use stocky_cognitive_runtime.Recovery.Delta.{
  DeltaSegment, CheckpointBaseMeta, read_file, remove_file, latest_base, prune_old_bases,
}
use stocky_cognitive_runtime.Recovery.Delta.Load.{by_number, is_sequential, apply_delta, apply_all}

get-set_field :
    (k j : String) (v : Json) (fields : Fields)
    → get_field (set_field k v fields) j ≡ (if str_eq k j then some v else get_field fields j)
unfolding get_field set_field
get-set_field k j v end = refl
get-set_field k j v (field i w rest) =
    ground (arith, eq_iff k j, eq_iff i k, eq_iff i j, get-set_field k j v rest)

-- A dictionary has each key once.
abbrev pub IsDict : Fields → Type 0
IsDict end = Unit
IsDict (field k v rest) = (get_field rest k ≡ none) × IsDict rest

update_fields_absent :
    (fields new : Fields) (key : String)
    → get_field new key ≡ none
    → get_field (update_fields fields new) key ≡ get_field fields key
unfolding update_fields get_field
update_fields_absent fields end key h = refl
update_fields_absent fields (field k v rest) key h = elim (Bool-cases (str_eq k key)) [
  | inl e ↦ ground (arith, e, h)
  | inr e ↦
      update_fields_absent (set_field k v fields) rest key (ground (arith, e, h))
      ∙ get-set_field k key v fields
      ∙ (rw e refl)
]

-- An updated dictionary has the new values.
pub update_fields_lem :
    (fields new : Fields) (key : String) (v : Json)
    → IsDict new
    → get_field new key ≡ some v
    → get_field (update_fields fields new) key ≡ some v
unfolding update_fields get_field
update_fields_lem fields end key v d h = ground (arith, h)
update_fields_lem fields (field k w rest) key v d h = elim (Bool-cases (str_eq k key)) [
  | inl e ↦
      update_fields_absent (set_field k w fields) rest key (ground (arith, d.0, (eq_iff k key).0 e))
      ∙ get-set_field k key w fields
      ∙ ground (arith, e, h)
  | inr e ↦ update_fields_lem (set_field k w fields) rest key v d.1 (ground (arith, e, h))
]

pub latest_base-append :
    (bs : List CheckpointBaseMeta) (b : CheckpointBaseMeta) → latest_base (bs ++ b ∷ []) ≡ some b
unfolding latest_base
latest_base-append [] b = refl
latest_base-append (c ∷ []) b = refl
latest_base-append (c ∷ d ∷ bs) b = latest_base-append (d ∷ bs) b

read-remove_file :
    (path gone : String) (files : List (String × String))
    → str_eq gone path ≡ false
    → read_file path (remove_file gone files) ≡ read_file path files
unfolding read_file remove_file
read-remove_file path gone [] ne = refl
read-remove_file path gone ((p, text) ∷ files) ne =
    ground (
      arith,
      ne,
      eq_iff p path,
      eq_iff p gone,
      eq_iff gone path,
      read-remove_file path gone files ne,
    )

-- The bases whose files are others than the one at a path.
abbrev pub Elsewhere : String → List CheckpointBaseMeta → Type 0
Elsewhere path bases = All (λ (b : CheckpointBaseMeta). str_eq b.file_path path ≡ false) bases

-- Pruning keeps the newest base, and the file at a path that no older base has.
pub prune_old_bases-append :
    (max : ℕ) (bs : List CheckpointBaseMeta) (b : CheckpointBaseMeta) (path : String)
    (files : List (String × String))
    → 0 < max
    → Elsewhere path bs
    → (latest_base (prune_old_bases max (bs ++ b ∷ []) files).0 ≡ some b)
      × (read_file path (prune_old_bases max (bs ++ b ∷ []) files).1 ≡ read_file path files)
unfolding prune_old_bases
prune_old_bases-append max [] b path files pos other =
    let stays : ltb max 1 ≡ false = ground arith in
    (rw stays (latest_base-append [] b), rw stays refl)
prune_old_bases-append max (c ∷ bs) b path files pos other =
    elim (Bool-cases (ltb max (suc (length (bs ++ b ∷ []))))) [
      | inl e ↦
          let (kept, same) =
            prune_old_bases-append max bs b path (remove_file c.file_path files) pos other.1 in
          (rw e kept, rw e (same ∙ read-remove_file path c.file_path files other.0))
      | inr e ↦ (rw e (latest_base-append (c ∷ bs) b), rw e refl)
    ]

pub is_sequential-append :
    (n : ℕ) (ds : List DeltaSegment) (d : DeltaSegment)
    → is_sequential n ds ≡ true
    → d.sequence_no ≡ n + length ds + 1
    → is_sequential n (ds ++ d ∷ []) ≡ true
unfolding is_sequential
is_sequential-append n [] d h e = ground arith
is_sequential-append n (c ∷ ds) d h e = ground (arith, is_sequential-append (n + 1) ds d)

insert_by-sequential :
    (n : ℕ) (d : DeltaSegment) (ds : List DeltaSegment)
    → d.sequence_no ≡ n
    → is_sequential n ds ≡ true
    → insert_by by_number d ds ≡ d ∷ ds
unfolding insert_by is_sequential
insert_by-sequential n d [] e h = refl
insert_by-sequential n d (c ∷ ds) e h = ground arith

-- A chain without a gap is in order.
pub order_by-sequential :
    (n : ℕ) (ds : List DeltaSegment) → is_sequential n ds ≡ true → order_by by_number ds ≡ ds
unfolding order_by is_sequential
order_by-sequential n [] h = refl
order_by-sequential n (d ∷ ds) h =
    let rest : is_sequential (n + 1) ds ≡ true = ground arith in
    ap (insert_by by_number d) (order_by-sequential (n + 1) ds rest)
    ∙ insert_by-sequential (n + 1) d ds (ground arith) rest

pub apply_all-append :
    (s : RuntimeSnapshot) (ds : List DeltaSegment) (d : DeltaSegment)
    → apply_all s (ds ++ d ∷ []) ≡ apply_delta (apply_all s ds) d
unfolding apply_all
apply_all-append s [] d = refl
apply_all-append s (c ∷ ds) d = apply_all-append (apply_delta s c) ds d
