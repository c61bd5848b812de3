-- ===== src/TraceWindow/Integrity.antt =====
-- trace_window.py: the rolling hash and `verify_integrity`.
use text.Mathlib.TextLemmas.{nil-append, append-nil}
use stocky_cognitive_runtime.Prelude.{
  ℕ, ◌+◌, ◌<◌, ◌≡◌, sym, ap, ◌∙◌, String, true, some, List, [], ◌∷◌, arith, eq_iff,
}
use stocky_cognitive_runtime.Data.Float.{Float}
use stocky_cognitive_runtime.Data.Trace.{ExecutionTrace}
use stocky_cognitive_runtime.TraceWindow.{
  TraceWindow, new_window, append, admit, all_traces, rolling_hash, line, verify_integrity,
}
use stocky_cognitive_runtime.TraceWindow.Archive.{make_room-HasRoom}
use stocky_cognitive_runtime.TraceWindow.History.{Keeps, append-Keeps, append_all, new-Keeps}

module _ (digest : String → String) (show : Float → String) where
  -- The chain of hashes over a sequence of traces.
  unfoldable pub chain : String → List ExecutionTrace → String
  chain hash [] = hash
  chain hash (t ∷ ts) = chain (rolling_hash digest show hash t) ts

  append-hash :
      (w w' : TraceWindow) (history : List ExecutionTrace) (t : ExecutionTrace)
      → Keeps history w
      → append digest show w t ≡ some w'
      → w'.integrity_hash ≡ rolling_hash digest show w.integrity_hash t
  unfolding append admit
  append-hash w w' history t h e =
      let w0 : TraceWindow = record w { total_count = w.total_count + 1 } in
      let (room, made, r) =
        make_room-HasRoom digest show w0 w.active h.some_active
          (record { counted = h.archive_kept.counted; one_segment = h.archive_kept.one_segment }) in
      ground (arith, made, r.same_hash)

  -- The integrity hash of a window that keeps a history is carried on by each append: after a
  -- sequence of appends it is the chain of the rolling hash over that sequence.
  append_all-hash :
      (w w' : TraceWindow) (history ts : List ExecutionTrace)
      → Keeps history w
      → append_all digest show w ts ≡ some w'
      → w'.integrity_hash ≡ chain w.integrity_hash ts
  unfolding append_all chain
  append_all-hash w w' history [] h e = ground arith
  append_all-hash w w' history (t ∷ ts) h e =
      let (w1, e1, h1) = append-Keeps digest show w history t h in
      append_all-hash w1 w' _ ts h1 (rw (e1, append_all) at e)
      ∙ ap (λ s. chain s ts) (append-hash w w1 history t h e1)

  verify_of_contents :
      (w : TraceWindow) (t : ExecutionTrace)
      → all_traces w ≡ t ∷ []
      → w.integrity_hash ≡ rolling_hash digest show "" t
      → verify_integrity digest show w ≡ true
  unfolding verify_integrity rolling_hash
  verify_of_contents w t contents hash =
      rw (contents, hash)
        ((eq_iff _ _).1
          (ap digest (append-nil (line digest show t) ∙ sym (nil-append (line digest show t)))))

  -- A window to which one trace was appended passes its integrity check.
  verify_integrity-append :
      (w : TraceWindow) (max_active max_archived : ℕ) (t : ExecutionTrace)
      → 0 < max_active
      → 0 < max_archived
      → append digest show (new_window max_active max_archived) t ≡ some w
      → verify_integrity digest show w ≡ true
  verify_integrity-append w max_active max_archived t a b e =
      let new = new_window max_active max_archived in
      let h = new-Keeps max_active max_archived a b in
      let (w1, e1, h1) = append-Keeps digest show new [] t h in
      let is_w : w1 ≡ w = cc in
      verify_of_contents w t (ap all_traces (sym is_w) ∙ h1.contents) (append-hash new w [] t h e)
