-- ===== src/Causal/Rank.antt =====
-- causal_graph.py: the order of the kinds of nodes along the edges.
use stocky_cognitive_runtime.Prelude.{
  ℕ, ◌<◌, ◌≡◌, refl, sym, inl, inr, true, Option, none, some, List, [], ◌∷◌, All, All-append, any,
  arith, eq_iff, str_eq, Bool-cases,
}
use mathlib.Core.Path.{subst}
use stocky_cognitive_runtime.Data.Json.{Fields}
use stocky_cognitive_runtime.Data.Trace.{ExecutionTrace}
use stocky_cognitive_runtime.Causal.{
  Kind, host_event, proposal, decision, execution, blocked, outcome, EdgeType, NodeId, same_id,
  CausalNode, CausalEdge, get_node, set_node,
}
use stocky_cognitive_runtime.Causal.Build.{
  Draft, link, add_blocked, add_outcome, add_execution, add_decision, add_rest, add_trace,
  add_traces, wire_between, wire, build, is_blocked, make_node,
}

-- How far a kind of node is from the host event, at most.
abbrev pub rank : Kind → ℕ
rank host_event = 0
rank proposal = 1
rank decision = 2
rank blocked = 2
rank execution = 3
rank outcome = 4

abbrev pub Below : Kind → NodeId → Type 0
Below kind id = rank kind < rank id.kind

-- Every child of a node has a higher rank.
abbrev pub IsRankedNode : CausalNode → Type 0
IsRankedNode n = All (Below n.node_id.kind) n.children

abbrev pub IsRankedEdge : CausalEdge → Type 0
IsRankedEdge e = Below e.source_id.kind e.target_id

pub record IsRanked (d : Draft) : Type 0 where
  pub nodes : All IsRankedNode d.nodes
  pub edges : All IsRankedEdge d.edges

pub same_id_lem : (a b : NodeId) → same_id a b ≡ true → a ≡ b
same_id_lem a b h = ground (arith, h, eq_iff a.event b.event)

All-set_node :
    (P : CausalNode → Type 0) (n : CausalNode) (ns : List CausalNode)
    → P n
    → All P ns
    → All P (set_node n ns)
unfolding set_node
All-set_node P n [] p h = (p, tt)
All-set_node P n (m ∷ ns) p h = elim (Bool-cases (same_id m.node_id n.node_id)) [
  | inl e ↦ rw e (p, h.1)
  | inr e ↦ rw e (h.0, All-set_node P n ns p h.1)
]

pub get_node-All :
    (P : CausalNode → Type 0) (id : NodeId) (ns : List CausalNode) (n : CausalNode)
    → All P ns
    → get_node id ns ≡ some n
    → P n × (n.node_id ≡ id)
unfolding get_node
get_node-All P id [] n h e = ground (arith, e)
get_node-All P id (m ∷ ns) n h e = elim (Bool-cases (same_id m.node_id id)) [
  | inl s ↦
      let same : m ≡ n = ground (arith, s, e) in
      subst (λ k. P k × (k.node_id ≡ id)) same (h.0, same_id_lem m.node_id id s)
  | inr s ↦ get_node-All P id ns n h.1 (ground (arith, s, e))
]

link-IsRanked :
    (t : ExecutionTrace) (prev kind : Kind) (edge_type : EdgeType) (fields : Fields) (d : Draft)
    → rank prev < rank kind
    → IsRanked d
    → IsRanked (link t prev kind edge_type fields d)
unfolding link
link-IsRanked t prev kind edge_type fields d up h = record {
  nodes = All-set_node IsRankedNode _ d.nodes tt h.nodes;
  edges = All-append IsRankedEdge d.edges _ h.edges (up, tt);
}

add_outcome-IsRanked :
    (t : ExecutionTrace) (prev : Kind) (d : Draft)
    → rank prev < 4
    → IsRanked d
    → IsRanked (add_outcome t prev d)
unfolding add_outcome
add_outcome-IsRanked t prev d up h = link-IsRanked t prev outcome _ _ d up h

add_execution-IsRanked :
    (t : ExecutionTrace) (prev : Kind) (d : Draft)
    → rank prev < 3
    → IsRanked d
    → IsRanked (add_execution t prev d)
unfolding add_execution
add_execution-IsRanked t prev d up h = elim (Bool-cases (str_eq t.execution_status "UNKNOWN")) [
  | inl e ↦ rw e (add_outcome-IsRanked t prev d (omega arith) h)
  | inr e ↦
      rw e (
        add_outcome-IsRanked t execution _ (omega arith)
          (link-IsRanked t prev execution _ _ d up h))
]

add_decision-IsRanked :
    (t : ExecutionTrace) (prev : Kind) (d : Draft)
    → rank prev < 2
    → IsRanked d
    → IsRanked (add_decision t prev d)
unfolding add_decision
add_decision-IsRanked t prev d up h = elim (Bool-cases (str_eq t.p4_verdict "UNKNOWN")) [
  | inl e ↦ rw e (add_execution-IsRanked t prev d (omega arith) h)
  | inr e ↦
      rw e (
        add_execution-IsRanked t decision _ (omega arith)
          (link-IsRanked t prev decision _ _ d up h))
]

add_blocked-IsRanked :
    (t : ExecutionTrace) (prev : Kind) (d : Draft)
    → rank prev < 2
    → IsRanked d
    → IsRanked (add_blocked t prev d)
unfolding add_blocked
add_blocked-IsRanked t prev d up h =
    let linked =
      link-IsRanked t blocked outcome _ _ _ (omega arith)
        (link-IsRanked t prev blocked _ _ d up h) in
    record {
      nodes = All-set_node IsRankedNode _ _ (omega arith, tt) linked.nodes;
      edges = linked.edges;
    }

add_rest-IsRanked :
    (t : ExecutionTrace) (prev : Kind) (d : Draft)
    → rank prev < 2
    → IsRanked d
    → IsRanked (add_rest t prev d)
unfolding add_rest
add_rest-IsRanked t prev d up h = elim (Bool-cases (is_blocked t)) [
  | inl e ↦ rw e (add_blocked-IsRanked t prev d up h)
  | inr e ↦ rw e (add_decision-IsRanked t prev d up h)
]

add_trace-IsRanked : (t : ExecutionTrace) (d : Draft) → IsRanked d → IsRanked (add_trace t d)
unfolding add_trace
add_trace-IsRanked t d h =
    let hosted : IsRanked
        (record d { nodes = set_node (make_node t host_event none Fields.end) d.nodes }) =
      record { nodes = All-set_node IsRankedNode _ d.nodes tt h.nodes; edges = h.edges } in
    elim (Bool-cases t.preflight_valid) [
      | inl e ↦ rw e (
          add_rest-IsRanked t proposal _ (omega arith)
            (link-IsRanked t host_event proposal _ _ _ (omega arith) hosted))
      | inr e ↦ rw e (add_rest-IsRanked t host_event _ (omega arith) hosted)
    ]

pub add_traces-IsRanked :
    (ts : List ExecutionTrace) (d : Draft) → IsRanked d → IsRanked (add_traces ts d)
unfolding add_traces
add_traces-IsRanked [] d h = h
add_traces-IsRanked (t ∷ ts) d h = add_traces-IsRanked ts (add_trace t d) (add_trace-IsRanked t d h)

wire_between-IsRanked :
    (e : CausalEdge) (source target : Option CausalNode) (ns : List CausalNode)
    → IsRankedEdge e
    → ((n : CausalNode) → source ≡ some n → IsRankedNode n × (n.node_id ≡ e.source_id))
    → ((n : CausalNode) → target ≡ some n → n.node_id ≡ e.target_id)
    → All IsRankedNode ns
    → All IsRankedNode (wire_between source target ns)
unfolding wire_between
wire_between-IsRanked e none target ns up s t h = h
wire_between-IsRanked e (some source) none ns up s t h = h
wire_between-IsRanked e (some source) (some target) ns up s t h =
    elim (Bool-cases (any (λ c. same_id c target.node_id) source.children)) [
      | inl old ↦ rw old h
      | inr new ↦
          let (ranked, from) = s source refl in
          let above : Below source.node_id.kind target.node_id =
            subst (λ (a : NodeId). Below a.kind target.node_id) (sym from)
              (subst (λ b. Below e.source_id.kind b) (sym (t target refl)) up) in
          rw new (
            All-set_node IsRankedNode _ ns
              (All-append (Below source.node_id.kind) source.children _ ranked (above, tt)) h)
    ]

pub wire-IsRanked :
    (es : List CausalEdge) (ns : List CausalNode)
    → All IsRankedEdge es
    → All IsRankedNode ns
    → All IsRankedNode (wire es ns)
unfolding wire
wire-IsRanked [] ns up h = h
wire-IsRanked (e ∷ es) ns up h = wire-IsRanked es _ up.1 (
    wire_between-IsRanked e (get_node e.source_id ns) (get_node e.target_id ns) ns up.0
      (λ n found. get_node-All IsRankedNode e.source_id ns n h found)
      (λ n found. (get_node-All IsRankedNode e.target_id ns n h found).1) h)

pub build-IsRanked : (ts : List ExecutionTrace) → All IsRankedNode (build ts).nodes
unfolding build
build-IsRanked ts =
    let empty : Draft = record { nodes = []; edges = [] } in
    let ranked = add_traces-IsRanked ts empty (record { nodes = tt; edges = tt }) in
    wire-IsRanked (add_traces ts empty).edges (add_traces ts empty).nodes ranked.edges ranked.nodes
