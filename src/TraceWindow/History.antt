-- ===== src/TraceWindow/History.antt =====
-- trace_window.py: the window over any sequence of traces.
use stocky_cognitive_runtime.Prelude.{
  ℕ, ◌+◌, ◌≤◌, ◌<◌, ◌≡◌, refl, sym, ap, ◌∙◌, String, Option, none, some, List, [], ◌∷◌, ◌++◌, arith,
  length, length-append, append_assoc, append-nil,
}
use stocky_cognitive_runtime.Data.Float.{Float}
use stocky_cognitive_runtime.Data.Trace.{ExecutionTrace}
use stocky_cognitive_runtime.TraceWindow.{
  CompressedSegment, TraceWindow, new_window, prune_archived, append, admit, archived_traces,
  all_traces,
}
use stocky_cognitive_runtime.TraceWindow.Archive.{HasArchive, HasRoom, make_room-HasRoom}

-- The window holds exactly these traces, the oldest first, within its bounds.
pub record Keeps (history : List ExecutionTrace) (w : TraceWindow) : Type 0 where
  pub contents : all_traces w ≡ history
  pub total : w.total_count ≡ length history
  pub archive_kept : HasArchive w
  pub bounded : length w.active ≤ w.max_active
  pub some_active : 0 < w.max_active
  pub some_archived : 0 < w.max_archived

pub length-all_traces :
    (w : TraceWindow)
    → length (all_traces w) ≡ length (archived_traces w.archived) + length w.active
unfolding all_traces
length-all_traces w = length-append (archived_traces w.archived) w.active

pub new-Keeps :
    (max_active max_archived : ℕ)
    → 0 < max_active
    → 0 < max_archived
    → Keeps [] (new_window max_active max_archived)
unfolding all_traces
new-Keeps max_active max_archived a b = record {
  contents = refl;
  total = refl;
  archive_kept = record { counted = refl; one_segment = omega arith };
  bounded = omega arith;
  some_active = a;
  some_archived = b;
}

prune_archived_short :
    (max : ℕ) (ss : List CompressedSegment) → length ss ≤ max → prune_archived max ss ≡ ss
unfolding prune_archived
prune_archived_short max [] h = refl
prune_archived_short max (s ∷ rest) h = ground arith

module _ (digest : String → String) (show : Float → String) where
  admit-Keeps :
      (w w' : TraceWindow) (history : List ExecutionTrace) (t : ExecutionTrace)
      → Keeps history w
      → HasRoom (record w { total_count = w.total_count + 1 }) w.active w'
      → Keeps (history ++ t ∷ []) (admit digest show t w')
  unfolding admit all_traces
  admit-Keeps w w' history t h r =
      let short : prune_archived w'.max_archived w'.archived ≡ w'.archived =
        prune_archived_short w'.max_archived w'.archived
          (omega (arith, r.archive_kept.one_segment, r.same_archived, h.some_archived)) in
      record {
        contents =
            ap (λ ss. archived_traces ss ++ (w'.active ++ t ∷ [])) short
            ∙ sym (append_assoc (archived_traces w'.archived) w'.active (t ∷ []))
            ∙ ap (λ xs. xs ++ t ∷ []) (r.contents ∙ h.contents);
        total = omega (arith, r.total, h.total, length-append history (t ∷ []));
        archive_kept = record {
          counted = rw short r.archive_kept.counted;
          one_segment = rw short r.archive_kept.one_segment;
        };
        bounded = omega (arith, length-append w'.active (t ∷ []), r.room);
        some_active = omega (arith, r.same_active, h.some_active);
        some_archived = omega (arith, r.same_archived, h.some_archived);
      }

  -- An append to a window that keeps a history returns, and keeps the history with the trace behind.
  pub append-Keeps :
      (w : TraceWindow) (history : List ExecutionTrace) (t : ExecutionTrace)
      → Keeps history w
      → (w' : TraceWindow) × (append digest show w t ≡ some w') × Keeps (history ++ t ∷ []) w'
  unfolding append
  append-Keeps w history t h =
      let w0 : TraceWindow = record w { total_count = w.total_count + 1 } in
      let (w', e, r) =
        make_room-HasRoom digest show w0 w.active h.some_active
          (record { counted = h.archive_kept.counted; one_segment = h.archive_kept.one_segment }) in
      (admit digest show t w', rw (e, append) refl, admit-Keeps w w' history t h r)

  -- A sequence of appends, which ends if one raises.
  unfoldable pub append_all : TraceWindow → List ExecutionTrace → Option TraceWindow
  append_all w [] = some w
  append_all w (t ∷ ts) = elim (append digest show w t) [ none ↦ none | some w' ↦ append_all w' ts ]

  -- A window that keeps a history keeps it, with the appended traces behind, after any appends.
  pub append_all-Keeps :
      (w : TraceWindow) (history ts : List ExecutionTrace)
      → Keeps history w
      → (w' : TraceWindow) × (append_all w ts ≡ some w') × Keeps (history ++ ts) w'
  unfolding append_all
  append_all-Keeps w history [] h = (w, refl, rw append-nil h)
  append_all-Keeps w history (t ∷ ts) h =
      let (w1, e1, h1) = append-Keeps w history t h in
      let (w', e, h') = append_all-Keeps w1 (history ++ t ∷ []) ts h1 in
      (w', rw (e1, append_all) e, rw append_assoc at h')

  -- With room for one active trace and one archived segment, any sequence of appends to a new window
  -- returns; `all_traces` is then the sequence itself, the counters count it, the active traces stay
  -- within their bound, and the archive has one segment at most, however long the sequence is.
  pub append_all_new :
      (max_active max_archived : ℕ) (ts : List ExecutionTrace)
      → 0 < max_active
      → 0 < max_archived
      → (w : TraceWindow) × (append_all (new_window max_active max_archived) ts ≡ some w)
        × (all_traces w ≡ ts)
        × (w.total_count ≡ length ts)
        × (w.archived_total + length w.active ≡ length ts)
        × (length w.active ≤ w.max_active)
        × (length w.archived ≤ 1)
  append_all_new max_active max_archived ts a b =
      let (w, e, h) =
        append_all-Keeps (new_window max_active max_archived) [] ts
          (new-Keeps max_active max_archived a b) in
      (
        w,
        e,
        h.contents,
        h.total,
        omega (arith, h.archive_kept.counted, length-all_traces w, ap length h.contents),
        h.bounded,
        h.archive_kept.one_segment,
      )
