-- ===== src/Causal/Traversal.antt =====
-- causal_graph.py: `traverse` over the graphs that the builder makes.
use stocky_cognitive_runtime.Prelude.{
  ℕ, zero, suc, ◌+◌, ◌≤◌, ◌<◌, ◌≡◌, refl, ap, inl, inr, Option, some, List, [], ◌∷◌, All, arith,
  Option-cases,
}
use stocky_cognitive_runtime.Data.Trace.{ExecutionTrace}
use stocky_cognitive_runtime.Causal.{
  Kind, host_event, NodeId, CausalNode, get_node, follow, traverse,
}
use stocky_cognitive_runtime.Causal.Build.{build}
use stocky_cognitive_runtime.Causal.Rank.{rank, Below, IsRankedNode, get_node-All, build-IsRanked}

rank_bound : (k : Kind) → rank k ≤ 4
rank_bound host_event = omega arith
rank_bound k = omega arith

follow_total :
    (rest : NodeId → Option (List CausalNode)) (n : CausalNode) (children : List NodeId)
    → ((c : NodeId) → Below n.node_id.kind c → (path : List CausalNode) × (rest c ≡ some path))
    → All (Below n.node_id.kind) children
    → (path : List CausalNode) × (follow rest n children ≡ some path)
unfolding follow
follow_total rest n [] ends up = (n ∷ [], refl)
follow_total rest n (c ∷ cs) ends up =
    let (path, e) = ends c up.0 in (n ∷ path, rw (e, follow) refl)

-- Ranks grow along the path, so it has five nodes at most.
traverse_total :
    (fuel : ℕ) (ns : List CausalNode) (id : NodeId)
    → All IsRankedNode ns
    → 4 < fuel + rank id.kind
    → (path : List CausalNode) × (traverse fuel ns id ≡ some path)
unfolding traverse
traverse_total zero ns id h enough = absurd (omega (arith, rank_bound id.kind))
traverse_total (suc fuel) ns id h enough = elim (Option-cases (get_node id ns)) [
  | inl e ↦ ([], rw (e, traverse) refl)
  | inr (n, e) ↦
      let (ranked, same) = get_node-All IsRankedNode id ns n h e in
      let (path, found) =
        follow_total (traverse fuel ns) n n.children
          (λ c up.
            traverse_total fuel ns c h (omega (arith, up, ap (λ (a : NodeId). rank a.kind) same)))
          ranked in
      (path, rw (e, traverse) found)
]

-- In the graph that is built of any traces, `traverse` ends from any identifier: five rounds of its
-- loop are enough, and so are more.
pub traverse-build :
    (ts : List ExecutionTrace) (id : NodeId) (fuel : ℕ)
    → 5 ≤ fuel
    → (path : List CausalNode) × (traverse fuel (build ts).nodes id ≡ some path)
traverse-build ts id fuel enough =
    traverse_total fuel (build ts).nodes id (build-IsRanked ts) (omega arith)
