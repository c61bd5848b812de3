-- ===== src/Recovery/Delta/RoundTrip.antt =====
-- delta_checkpoint.py: what `load_latest` restores of the snapshots that were saved.
use stocky_cognitive_runtime.Prelude.{
  ℕ, ◌<◌, ◌≡◌, refl, sym, ap, ◌∙◌, inl, inr, String, true, some, List, [], ◌∷◌, ◌++◌, length, drop,
  arith, eq_refl, Bool-cases,
}
use mathlib.Core.Path.{subst}
use stocky_cognitive_runtime.Prelude.Raise.{ok}
use stocky_cognitive_runtime.Data.Json.{Json, obj, get_field, Codec}
use stocky_cognitive_runtime.Data.Trace.{ExecutionTrace}
use stocky_cognitive_runtime.Recovery.Snapshot.{RuntimeSnapshot}
use stocky_cognitive_runtime.Recovery.Snapshot.Text.{to_dict, to_json, from_json}
use stocky_cognitive_runtime.Recovery.Snapshot.ReadBack.{from_json-to_json}
use stocky_cognitive_runtime.Recovery.Delta.{
  DeltaSegment, CheckpointBaseMeta, DeltaCheckpointManager, new_manager, base_path, base_meta,
  make_delta, read_file, latest_base, deltas_of, is_due, save_base, save_delta, save,
}
use stocky_cognitive_runtime.Recovery.Delta.Load.{
  is_sequential, apply_delta, apply_all, apply_deltas, restore, load_base, load_latest,
}
use stocky_cognitive_runtime.Recovery.Delta.Chain.{
  IsDict, update_fields_lem, Elsewhere, prune_old_bases-append, is_sequential-append,
  order_by-sequential, apply_all-append,
}

pub drop-append {ℓ} : {A : Type ℓ} (xs ys : List A) → drop (length xs) (xs ++ ys) ≡ ys
drop-append [] ys = refl
drop-append (x ∷ xs) ys = drop-append xs ys

-- The restored snapshot has what the saved one had: the traces, their count, the clocks, the queue's
-- numbers and the fields of the runtime's state.
pub record Restores (r s : RuntimeSnapshot) : Type 0 where
  pub traces : r.traces ≡ s.traces
  pub trace_count : r.trace_count ≡ s.trace_count
  pub created_at : r.created_at ≡ s.created_at
  pub cycle_count : r.cycle_count ≡ s.cycle_count
  pub queue_depth : r.queue_depth ≡ s.queue_depth
  pub events : r.total_events_processed ≡ s.total_events_processed
  pub state :
      (key : String) (v : Json) → get_field s.state key ≡ some v → get_field r.state key ≡ some v

module _ (codec : Codec) where
  -- A capture that a manager can save: it counts its traces, its state is a dictionary without a key
  -- twice, the `json` module reads back what it writes for it, and no base is stored at its path.
  pub record IsCapture (m : DeltaCheckpointManager) (s : RuntimeSnapshot) : Type 0 where
    pub counted : s.trace_count ≡ length s.traces
    pub dict : IsDict s.state
    pub reads_back : codec.loads (codec.dumps (obj (to_dict s))) ≡ obj (to_dict s)
    pub fresh : Elsewhere (base_path m.dir s.snapshot_id) m.bases

  -- The managers that a run of successful saves makes, with the snapshot that was saved last. Each
  -- snapshot has the traces of the one before and some more.
  pub data IsSavedRun : DeltaCheckpointManager → RuntimeSnapshot → Type 0 where
    first :
        (dir : String) (interval max : ℕ) (s : RuntimeSnapshot) (health governance : String)
        → 0 < max
        → IsCapture (new_manager dir interval max) s
        → IsSavedRun (save codec (new_manager dir interval max) true s health governance).0 s
    next :
        {m : DeltaCheckpointManager} {last : RuntimeSnapshot}
        → IsSavedRun m last
        → (s : RuntimeSnapshot) (more : List ExecutionTrace) (health governance : String)
        → s.traces ≡ last.traces ++ more
        → IsCapture m s
        → IsSavedRun (save codec m true s health governance).0 s

  -- The base and the chain of segments that stand for the last snapshot.
  pub record IsSaved (m : DeltaCheckpointManager) (s : RuntimeSnapshot) : Type 0 where
    pub on : m.enabled ≡ true
    pub some_base : 0 < m.max_bases
    pub meta : CheckpointBaseMeta
    pub latest : latest_base m.bases ≡ some meta
    pub base : RuntimeSnapshot
    pub loads : load_base codec m meta ≡ some base
    pub sequential : is_sequential 0 (deltas_of meta.base_id m.deltas) ≡ true
    pub saved : m.last_saved_trace_count ≡ length s.traces
    pub restores : Restores (apply_all base (deltas_of meta.base_id m.deltas)) s

  read_file_head :
      (path text : String) (files : List (String × String))
      → read_file path ((path, text) ∷ files) ≡ some text
  unfolding read_file
  read_file_head path text files = rw (eq_refl path) refl

  pub deltas_of_head :
      (id : String) (ds : List DeltaSegment) (rest : List (String × List DeltaSegment))
      → deltas_of id ((id, ds) ∷ rest) ≡ ds
  unfolding deltas_of
  deltas_of_head id ds rest = rw (eq_refl id) refl

  load_base_lem :
      (m : DeltaCheckpointManager) (meta : CheckpointBaseMeta) (text : String)
      → read_file meta.file_path m.files ≡ some text
      → load_base codec m meta ≡ from_json codec text
  unfolding load_base
  load_base_lem m meta text e = rw (e, load_base) refl

  pub save_base-IsSaved :
      (m : DeltaCheckpointManager) (s : RuntimeSnapshot) (health governance : String)
      → m.enabled ≡ true
      → 0 < m.max_bases
      → IsCapture m s
      → IsSaved (save_base codec m true s health governance).0 s
  unfolding save_base load_base deltas_of is_sequential apply_all
  save_base-IsSaved m s health governance on pos c =
      let meta = base_meta m.dir s health governance in
      let files = (meta.file_path, to_json codec s) ∷ m.files in
      let (kept, same) =
        prune_old_bases-append m.max_bases m.bases meta meta.file_path files pos c.fresh in
      record {
        on = on;
        some_base = pos;
        meta = meta;
        latest = kept;
        base = s;
        loads =
            load_base_lem (save_base codec m true s health governance).0 meta (to_json codec s)
              (same ∙ read_file_head meta.file_path (to_json codec s) m.files)
            ∙ from_json-to_json codec s c.reads_back;
        sequential = refl;
        saved = c.counted;
        restores = record {
          traces = refl;
          trace_count = refl;
          created_at = refl;
          cycle_count = refl;
          queue_depth = refl;
          events = refl;
          state = λ key v h. h;
        };
      }

  pub save_delta-IsSaved :
      (m : DeltaCheckpointManager) (last s : RuntimeSnapshot) (more : List ExecutionTrace)
      (h : IsSaved m last)
      → s.traces ≡ last.traces ++ more
      → IsCapture m s
      → IsSaved (save_delta codec m true s (some h.meta)).0 s
  unfolding save_delta load_base deltas_of apply_delta
  save_delta-IsSaved m last s more h grown c =
      let ds = deltas_of h.meta.base_id m.deltas in
      let delta = make_delta m h.meta ds s in
      let new : delta.new_traces ≡ more =
        ap (λ n. drop n s.traces) h.saved
        ∙ ap (drop (length last.traces)) grown
        ∙ drop-append last.traces more in
      let joined : (apply_all h.base ds).traces ++ delta.new_traces ≡ s.traces =
        ap (λ ts. ts ++ delta.new_traces) h.restores.traces
        ∙ ap (λ ts. last.traces ++ ts) new
        ∙ sym grown in
      let chain = deltas_of_head h.meta.base_id (ds ++ delta ∷ []) m.deltas in
      record {
        on = h.on;
        some_base = h.some_base;
        meta = h.meta;
        latest = h.latest;
        base = h.base;
        loads = h.loads;
        sequential =
            ap (is_sequential 0) chain ∙ is_sequential-append 0 ds delta h.sequential (omega arith);
        saved = c.counted;
        restores =
            subst (λ r. Restores r s)
              (sym (ap (apply_all h.base) chain ∙ apply_all-append h.base ds delta))
              (record {
                traces = joined;
                trace_count = ap length joined ∙ sym c.counted;
                created_at = refl;
                cycle_count = refl;
                queue_depth = refl;
                events = refl;
                state =
                    λ key v e. update_fields_lem (apply_all h.base ds).state s.state key v c.dict e;
              });
      }

  save-IsSaved :
      (m : DeltaCheckpointManager) (last s : RuntimeSnapshot) (more : List ExecutionTrace)
      (health governance : String)
      → IsSaved m last
      → s.traces ≡ last.traces ++ more
      → IsCapture m s
      → IsSaved (save codec m true s health governance).0 s
  unfolding save
  save-IsSaved m last s more health governance h grown c =
      elim (Bool-cases (is_due m s.cycle_count (latest_base m.bases))) [
        | inl due ↦
            subst (λ k. IsSaved k s) (rw (h.on, due) refl)
              (save_base-IsSaved m s health governance h.on h.some_base c)
        | inr early ↦
            subst (λ k. IsSaved k s) (rw (h.on, early, h.latest) refl)
              (save_delta-IsSaved m last s more h grown c)
      ]

  IsSavedRun-IsSaved :
      {m : DeltaCheckpointManager} {s : RuntimeSnapshot} → IsSavedRun m s → IsSaved m s
  unfolding save is_due latest_base
  IsSavedRun-IsSaved (first dir interval max s health governance pos c) =
      save_base-IsSaved (new_manager dir interval max) s health governance refl pos c
  IsSavedRun-IsSaved (next run s more health governance grown c) =
      save-IsSaved _ _ s more health governance (IsSavedRun-IsSaved run) grown c

  apply_deltas-sequential :
      (base : RuntimeSnapshot) (ds : List DeltaSegment)
      → is_sequential 0 ds ≡ true
      → apply_deltas base ds ≡ ok (apply_all base ds)
  unfolding apply_deltas
  apply_deltas-sequential base ds h = rw (order_by-sequential 0 ds h, h) refl

  restore-eq-apply_all :
      (base : RuntimeSnapshot) (ds : List DeltaSegment)
      → is_sequential 0 ds ≡ true
      → restore codec ds (some base) ≡ ok (some (apply_all base ds))
  unfolding restore apply_all
  restore-eq-apply_all base [] h = refl
  restore-eq-apply_all base (d ∷ ds) h = rw (apply_deltas-sequential base (d ∷ ds) h, restore) refl

  pub load_latest-eq-apply_all :
      (m : DeltaCheckpointManager) (meta : CheckpointBaseMeta) (base : RuntimeSnapshot)
      → latest_base m.bases ≡ some meta
      → load_base codec m meta ≡ some base
      → is_sequential 0 (deltas_of meta.base_id m.deltas) ≡ true
      → load_latest codec m ≡ ok (some (apply_all base (deltas_of meta.base_id m.deltas)))
  unfolding load_latest
  load_latest-eq-apply_all m meta base latest loads sequential =
      rw (latest, load_latest)
        (rw loads (restore-eq-apply_all base (deltas_of meta.base_id m.deltas) sequential))

  -- After any run of successful saves by an enabled manager that keeps one base or more, of snapshots
  -- that each extend the traces of the one before, count them, repeat no key in their state, have a
  -- dictionary that the `json` module reads back as it wrote it, and find no base at their own path,
  -- `load_latest` returns the traces, the count, the clocks, the queue numbers and the fields of the
  -- runtime state of the snapshot saved last. The score histories and what a base keeps of itself are
  -- left open.
  pub load_latest-Restores :
      {m : DeltaCheckpointManager} {s : RuntimeSnapshot}
      → IsSavedRun m s
      → (r : RuntimeSnapshot) × (load_latest codec m ≡ ok (some r)) × Restores r s
  load_latest-Restores {m} {s} run =
      let h = IsSavedRun-IsSaved run in
      let ds = deltas_of h.meta.base_id m.deltas in
      (
        apply_all h.base ds,
        load_latest-eq-apply_all m h.meta h.base h.latest h.loads h.sequential,
        h.restores,
      )
