-- ===== src/TraceWindow/Archive.antt =====
-- trace_window.py: what the archive holds after a trace has moved there, and how `append` makes room.
use stocky_cognitive_runtime.Prelude.{
  ℕ, suc, ◌≤◌, ◌<◌, ◌≡◌, refl, sym, ap, ◌∙◌, String, some, List, [], ◌∷◌, ◌++◌, arith, length,
  length-append, append_assoc, append-nil, leb, Bool-cases, inl, inr,
}
use stocky_cognitive_runtime.Data.Float.{Float}
use stocky_cognitive_runtime.Data.Trace.{ExecutionTrace}
use stocky_cognitive_runtime.TraceWindow.{
  CompressedSegment, TraceWindow, extend_last, build_segment, finalized, finalize_last, archive,
  make_room, archived_traces,
}

archived_traces-extend_last :
    (s : CompressedSegment) (rest : List CompressedSegment) (t : ExecutionTrace)
    → archived_traces (extend_last s rest t) ≡ archived_traces (s ∷ rest) ++ t ∷ []
unfolding extend_last archived_traces
archived_traces-extend_last s [] t = simp append-nil
archived_traces-extend_last s (r ∷ rest) t =
    rw (archived_traces-extend_last r rest t)
      (sym (append_assoc s.traces (archived_traces (r ∷ rest)) (t ∷ [])))

archived_traces-build_segment :
    (n : ℕ) (ss : List CompressedSegment) (t : ExecutionTrace)
    → archived_traces (build_segment n ss t) ≡ archived_traces ss ++ t ∷ []
unfolding build_segment archived_traces
archived_traces-build_segment n [] t = refl
archived_traces-build_segment n (s ∷ rest) t = archived_traces-extend_last s rest t

length-build_segment :
    (n : ℕ) (ss : List CompressedSegment) (t : ExecutionTrace)
    → length ss ≤ 1
    → length (build_segment n ss t) ≤ 1
unfolding build_segment extend_last
length-build_segment n [] t h = omega arith
length-build_segment n (s ∷ []) t h = omega arith
length-build_segment n (s ∷ r ∷ rest) t h = absurd (omega arith)

-- The invariant of the archive: it counts its traces and has one segment at most.
pub record HasArchive (w : TraceWindow) : Type 0 where
  pub counted : w.archived_total ≡ length (archived_traces w.archived)
  pub one_segment : length w.archived ≤ 1

-- What making room does: no trace is lost or moved, and there is room for one more.
pub record HasRoom (w : TraceWindow) (active : List ExecutionTrace) (w' : TraceWindow)
    : Type 0 where
  pub contents : archived_traces w'.archived ++ w'.active ≡ archived_traces w.archived ++ active
  pub archive_kept : HasArchive w'
  pub room : length w'.active < w'.max_active
  pub total : w'.total_count ≡ w.total_count
  pub same_active : w'.max_active ≡ w.max_active
  pub same_archived : w'.max_archived ≡ w.max_archived
  pub same_hash : w'.integrity_hash ≡ w.integrity_hash

module _ (digest : String → String) (show : Float → String) where
  archived_traces-finalize_last :
      (ss : List CompressedSegment)
      → archived_traces (finalize_last digest show ss) ≡ archived_traces ss
  unfolding finalize_last archived_traces finalized
  archived_traces-finalize_last [] = refl
  archived_traces-finalize_last (s ∷ []) = ground arith
  archived_traces-finalize_last (s ∷ r ∷ rest) = rw (archived_traces-finalize_last (r ∷ rest))

  length-finalize_last :
      (ss : List CompressedSegment) → length (finalize_last digest show ss) ≡ length ss
  unfolding finalize_last
  length-finalize_last [] = refl
  length-finalize_last (s ∷ []) = refl
  length-finalize_last (s ∷ r ∷ rest) = ap suc (length-finalize_last (r ∷ rest))

  archived_traces-archive :
      (w : TraceWindow) (t : ExecutionTrace)
      → archived_traces (archive digest show w t).archived ≡ archived_traces w.archived ++ t ∷ []
  unfolding archive
  archived_traces-archive w t =
      archived_traces-finalize_last (build_segment w.archived_total w.archived t)
      ∙ archived_traces-build_segment w.archived_total w.archived t

  archive-HasArchive :
      (w : TraceWindow) (t : ExecutionTrace) → HasArchive w → HasArchive (archive digest show w t)
  unfolding archive
  archive-HasArchive w t h = record {
    counted = omega (
      arith,
      h.counted,
      ap length (archived_traces-archive w t),
      length-append (archived_traces w.archived) (t ∷ []),
    );
    one_segment = omega (
      arith,
      length-finalize_last (build_segment w.archived_total w.archived t),
      length-build_segment w.archived_total w.archived t h.one_segment,
    );
  }

  archive_fields :
      (w : TraceWindow) (t : ExecutionTrace)
      → ((archive digest show w t).total_count ≡ w.total_count)
        × ((archive digest show w t).max_active ≡ w.max_active)
        × ((archive digest show w t).max_archived ≡ w.max_archived)
        × ((archive digest show w t).integrity_hash ≡ w.integrity_hash)
  unfolding archive
  archive_fields w t = (refl, refl, refl, refl)

  pub make_room-HasRoom :
      (w : TraceWindow) (active : List ExecutionTrace)
      → 0 < w.max_active
      → HasArchive w
      → (w' : TraceWindow) × (make_room digest show w active ≡ some w') × HasRoom w active w'
  unfolding make_room
  make_room-HasRoom w [] pos h = (
    record w { active = [] },
    ground arith,
    record {
      contents = refl;
      archive_kept = record { counted = h.counted; one_segment = h.one_segment };
      room = pos;
      total = refl;
      same_active = refl;
      same_archived = refl;
      same_hash = refl;
    },
  )
  make_room-HasRoom w (t ∷ rest) pos h = elim (Bool-cases (leb w.max_active (length (t ∷ rest)))) [
    | inr fits ↦ (
      record w { active = t ∷ rest },
      rw fits refl,
      record {
        contents = refl;
        archive_kept = record { counted = h.counted; one_segment = h.one_segment };
        room = ground arith;
        total = refl;
        same_active = refl;
        same_archived = refl;
        same_hash = refl;
      },
    )
    | inl full ↦
        let (e0, e1, e2, e3) = archive_fields w t in
        let (w', e, r) =
          make_room-HasRoom (archive digest show w t) rest (rw e1 pos) (archive-HasArchive w t h) in
        (
          w',
          rw full e,
          record {
            contents =
                r.contents
                ∙ ap (λ xs. xs ++ rest) (archived_traces-archive w t)
                ∙ append_assoc (archived_traces w.archived) (t ∷ []) rest;
            archive_kept = r.archive_kept;
            room = r.room;
            total = r.total ∙ e0;
            same_active = r.same_active ∙ e1;
            same_archived = r.same_archived ∙ e2;
            same_hash = r.same_hash ∙ e3;
          },
        )
  ]
