-- ===== src/Causal.antt =====
-- contracts/causal_graph.py: the causal graph of a window of traces.
--
-- The text of a node's identifier, `{event_id}__{kind}`, is given by its two parts, which it
-- determines; a node's event and type are those parts. The dictionary of nodes is the list of its
-- values in the order of insertion. Timestamps are 0.0 throughout and are left out.
pub mod Build
pub mod Rank
pub mod Traversal
use stocky_cognitive_runtime.Prelude.{
  ℕ, zero, suc, ◌+◌, String, Bool, true, false, not, ◌&&◌, ◌||◌, Option, none, some, List, [], ◌∷◌,
  ◌++◌, map, any, keep, length, str_eq, if◌then◌else◌,
}
use stocky_cognitive_runtime.Data.Json.{Json, Fields, str, get_field}

pub data Kind : Type 0 where
  host_event proposal decision execution blocked outcome : Kind

abbrev pub same_kind : Kind → Kind → Bool
same_kind host_event host_event = true
same_kind proposal proposal = true
same_kind decision decision = true
same_kind execution execution = true
same_kind blocked blocked = true
same_kind outcome outcome = true
same_kind _ _ = false

pub data EdgeType : Type 0 where
  proposes validates decides executes results blocks : EdgeType

pub record NodeId : Type 0 where
  pub event : String
  pub kind : Kind

abbrev pub same_id : NodeId → NodeId → Bool
same_id a b = str_eq a.event b.event && same_kind a.kind b.kind

pub record CausalNode : Type 0 where
  pub node_id : NodeId
  pub correlation_id : String
  pub fields : Fields
  pub parent_id : Option NodeId
  pub children : List NodeId

pub record CausalEdge : Type 0 where
  pub source_id : NodeId
  pub target_id : NodeId
  pub edge_type : EdgeType

-- `nodes.get(node_id)` and `nodes[node.node_id] = node`
unfoldable pub get_node : NodeId → List CausalNode → Option CausalNode
get_node id [] = none
get_node id (n ∷ ns) = let rest = get_node id ns in if same_id n.node_id id then some n else rest

unfoldable pub set_node : CausalNode → List CausalNode → List CausalNode
set_node n [] = n ∷ []
set_node n (m ∷ ms) =
    let rest = set_node n ms in if same_id m.node_id n.node_id then n ∷ ms else m ∷ rest

pub record CausalGraph : Type 0 where
  pub nodes : List CausalNode
  pub edges : List CausalEdge
  pub roots : List NodeId

abbrev is_root : CausalNode → Bool
is_root n = elim n.parent_id [ none ↦ true | some p ↦ false ]

unfoldable pub make_graph : List CausalNode → List CausalEdge → CausalGraph
make_graph nodes edges = record {
  nodes = nodes;
  edges = edges;
  roots = map (λ (n : CausalNode). n.node_id) (keep is_root nodes);
}

-- `dominant_layers`, at one type of node (a type with no node counts 0).
abbrev pub layer : CausalGraph → Kind → ℕ
layer g kind = length (keep (λ (n : CausalNode). same_kind n.node_id.kind kind) g.nodes)

abbrev pub filter_by_type : CausalGraph → Kind → List CausalNode
filter_by_type g kind = keep (λ (n : CausalNode). same_kind n.node_id.kind kind) g.nodes

-- The builder writes the final status of an outcome in lower case.
abbrev is_failure : Option Json → Bool
is_failure (some (str s)) = str_eq s "failed" || (str_eq s "blocked" || str_eq s "error")
is_failure _ = false

unfoldable pub failure_points : CausalGraph → List CausalNode
unfolding get_field
failure_points g =
    keep
      (λ (n : CausalNode).
        same_kind n.node_id.kind outcome && is_failure (get_field n.fields "final_status"))
      g.nodes

abbrev pub incoming : CausalGraph → NodeId → List CausalEdge
incoming g id = keep (λ (e : CausalEdge). same_id e.target_id id) g.edges

abbrev pub outgoing : CausalGraph → NodeId → List CausalEdge
outgoing g id = keep (λ (e : CausalEdge). same_id e.source_id id) g.edges

abbrev is_in : List CausalNode → NodeId → Bool
is_in nodes id = any (λ (n : CausalNode). same_id n.node_id id) nodes

unfoldable pub correlation_subgraph : CausalGraph → String → CausalGraph
unfolding make_graph
correlation_subgraph g cid =
    let matching = keep (λ (n : CausalNode). str_eq n.correlation_id cid) g.nodes in
    make_graph matching
      (keep (λ (e : CausalEdge). is_in matching e.source_id || is_in matching e.target_id) g.edges)

-- A node and the path behind its first child.
unfoldable pub follow :
    (NodeId → Option (List CausalNode)) → CausalNode → List NodeId → Option (List CausalNode)
follow rest n [] = some (n ∷ [])
follow rest n (c ∷ cs) = elim (rest c) [ none ↦ none | some path ↦ some (n ∷ path) ]

-- The `while` of `traverse`, on fuel: `none` if it does not end.
unfoldable pub traverse : ℕ → List CausalNode → NodeId → Option (List CausalNode)
unfolding follow get_node
traverse zero nodes id = none
traverse (suc fuel) nodes id = elim (get_node id nodes) [
  | none ↦ some []
  | some n ↦ follow (traverse fuel nodes) n n.children
]
