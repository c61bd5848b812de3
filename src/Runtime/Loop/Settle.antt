-- ===== src/Runtime/Loop/Settle.antt =====
-- runtime/runtime_loop.py, `_finalize_cycle`: what the steps behind the append leave alone.
use stocky_cognitive_runtime.Prelude.{◌≡◌, refl, not, ◌∙◌, ◌&&◌, ◌||◌, leb, if_cases}
use stocky_cognitive_runtime.Data.Trace.{ExecutionTrace}
use stocky_cognitive_runtime.Runtime.Loop.{Parts, Moment, RuntimeLoop}
use stocky_cognitive_runtime.Runtime.Loop.Finalize.{
  with_state, every, note_execution, check_coherence, rebuild_graph, check_stability,
  save_checkpoint, checkpoint, settle,
}

abbrev pub Unmoved : RuntimeLoop → RuntimeLoop → Type 0
Unmoved l l' = (l'.traces ≡ l.traces) × (l'.queue ≡ l.queue)

module _ (parts : Parts) (m : Moment) where
  check_coherence-Unmoved :
      (t : ExecutionTrace) (l : RuntimeLoop) → Unmoved l (check_coherence parts t l)
  unfolding check_coherence
  check_coherence-Unmoved t l = (refl, refl)

  rebuild_graph-Unmoved : (l : RuntimeLoop) → Unmoved l (rebuild_graph l)
  unfolding rebuild_graph
  rebuild_graph-Unmoved l =
      if_cases (Unmoved l) (every 10 l.traces.total_count || leb l.traces.total_count 5) _ _
        (λ h. (refl, refl)) (λ h. (refl, refl))

  check_stability-Unmoved : (l : RuntimeLoop) → Unmoved l (check_stability m l)
  unfolding check_stability
  check_stability-Unmoved l =
      if_cases (Unmoved l) (every 50 l.traces.total_count) _ _ (λ h. (refl, refl))
        (λ h. (refl, refl))

  checkpoint-Unmoved : (l : RuntimeLoop) → Unmoved l (checkpoint parts m l)
  unfolding checkpoint save_checkpoint
  checkpoint-Unmoved l =
      if_cases (Unmoved l)
        ((every 100 l.traces.total_count && l.checkpoints.enabled) && not l.recovering) _ _
        (λ h. (refl, refl)) (λ h. (refl, refl))

  pub settle-Unmoved : (t : ExecutionTrace) (l : RuntimeLoop) → Unmoved l (settle parts m t l)
  unfolding settle
  settle-Unmoved t l =
      let l0 = with_state l (note_execution m t l.orchestrator.state) in
      let l1 = check_coherence parts t l0 in
      let l2 = rebuild_graph l1 in
      let l3 = check_stability m l2 in
      let h1 = check_coherence-Unmoved t l0 in
      let h2 = rebuild_graph-Unmoved l1 in
      let h3 = check_stability-Unmoved l2 in
      let h4 = checkpoint-Unmoved l3 in (h4.0 ∙ h3.0 ∙ h2.0 ∙ h1.0, h4.1 ∙ h3.1 ∙ h2.1 ∙ h1.1)
