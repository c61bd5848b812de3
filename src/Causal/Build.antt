-- ===== src/Causal/Build.antt =====
-- contracts/causal_graph.py, `CausalGraphBuilder.build`.
use text.Mathlib.Text.{starts_with}
use stocky_cognitive_runtime.Prelude.{
  String, Bool, ◌&&◌, ◌||◌, Option, none, some, List, [], ◌∷◌, ◌++◌, any, str_eq, if◌then◌else◌,
}
use stocky_cognitive_runtime.Data.Json.{
  Json, null, str, real, arr, Items, nil, cons, Fields, end, field,
}
use stocky_cognitive_runtime.Data.Trace.{ExecutionTrace}
use stocky_cognitive_runtime.Causal.{
  Kind, host_event, proposal, decision, execution, blocked, outcome, EdgeType, proposes, decides,
  executes, results, blocks, NodeId, same_id, CausalNode, CausalEdge, get_node, set_node,
  CausalGraph, make_graph,
}

-- The nodes and edges so far.
pub record Draft : Type 0 where
  pub nodes : List CausalNode
  pub edges : List CausalEdge

abbrev pub node_id : ExecutionTrace → Kind → NodeId
node_id t kind = record { event = t.event_id; kind = kind }

abbrev pub make_node : ExecutionTrace → Kind → Option NodeId → Fields → CausalNode
make_node t kind parent fields = record {
  node_id = node_id t kind;
  correlation_id = t.correlation_id;
  fields = fields;
  parent_id = parent;
  children = [];
}

-- A node behind `prev`, with the edge to it.
unfoldable pub link : ExecutionTrace → Kind → Kind → EdgeType → Fields → Draft → Draft
link t prev kind edge_type fields d = record {
  nodes = set_node (make_node t kind (some (node_id t prev)) fields) d.nodes;
  edges =
      d.edges
      ++ (record { source_id = node_id t prev; target_id = node_id t kind; edge_type = edge_type })
        ∷ [];
}

abbrev pub or_empty : Option String → String
or_empty none = ""
or_empty (some s) = s

-- `a or b or ""`
abbrev pub first_text : Option String → Option String → String
first_text a b = if str_eq (or_empty a) "" then or_empty b else or_empty a

abbrev pub or_null : Option String → Json
or_null none = null
or_null (some s) = str s

abbrev pub texts : List String → Items
texts [] = nil
texts (s ∷ ss) = cons (str s) (texts ss)

-- The test of the branch for blocked events.
abbrev pub is_blocked : ExecutionTrace → Bool
is_blocked t =
    str_eq t.final_status "BLOCKED_BY_PREFLIGHT"
    || ((str_eq t.p4_verdict "BLOCK"
          || (str_eq t.p4_verdict "DEFER" || str_eq t.p4_verdict "REVIEW"))
        && starts_with t.final_status "P4_")

abbrev block_reason : ExecutionTrace → Json
block_reason t = str (first_text t.p4_reason t.preflight_reason)

abbrev blocked_fields : ExecutionTrace → Fields
blocked_fields t =
    field "verdict" (str (if str_eq t.p4_verdict "UNKNOWN" then "BLOCKED" else t.p4_verdict))
      (field "reason" (block_reason t) end)

unfoldable pub add_blocked : ExecutionTrace → Kind → Draft → Draft
unfolding link
add_blocked t prev d =
    let linked =
      link t blocked outcome results
        (field "final_status" (str "blocked") (field "reason" (block_reason t) end))
        (link t prev blocked blocks (blocked_fields t) d) in
    record linked {
      nodes =
          set_node
            (record (make_node t blocked (some (node_id t prev)) (blocked_fields t)) {
              children = node_id t outcome ∷ [];
            })
            linked.nodes;
    }

unfoldable pub add_outcome : ExecutionTrace → Kind → Draft → Draft
unfolding link
add_outcome t prev d =
    link t prev outcome results
      (field "final_status"
        (str (if str_eq t.execution_status "SUCCESS" then "success" else "failed"))
        (field "error" (or_null t.execution_error) end))
      d

unfoldable pub add_execution : ExecutionTrace → Kind → Draft → Draft
unfolding link add_outcome
add_execution t prev d =
    if str_eq t.execution_status "UNKNOWN"
    then add_outcome t prev d
    else add_outcome t execution (
        link t prev execution executes
          (field "status" (str t.execution_status) (field "error" (or_null t.execution_error) end))
          d)

unfoldable pub add_decision : ExecutionTrace → Kind → Draft → Draft
unfolding link add_execution
add_decision t prev d =
    if str_eq t.p4_verdict "UNKNOWN"
    then add_execution t prev d
    else add_execution t decision (
        link t prev decision decides
          (field "verdict" (str t.p4_verdict) (
            field "reason" (str (or_empty t.p4_reason)) (
              field "risk_level" (str (or_empty t.p4_risk_level))
                (field "rule_triggered" (or_null t.p4_rule_triggered) end))))
          d)

-- The nodes behind the host event or the proposal.
unfoldable pub add_rest : ExecutionTrace → Kind → Draft → Draft
unfolding add_blocked add_decision
add_rest t prev d = if is_blocked t then add_blocked t prev d else add_decision t prev d

-- The body of the loop over the traces.
unfoldable pub add_trace : ExecutionTrace → Draft → Draft
unfolding add_rest link
add_trace t d =
    let hosted = record d { nodes = set_node (make_node t host_event none end) d.nodes } in
    if t.preflight_valid
    then add_rest t proposal (
        link t host_event proposal proposes
          (field "risk_score" (real t.risk_score)
            (field "capabilities" (arr (texts t.capabilities_checked)) end))
          hosted)
    else add_rest t host_event hosted

unfoldable pub add_traces : List ExecutionTrace → Draft → Draft
add_traces [] d = d
add_traces (t ∷ ts) d = add_traces ts (add_trace t d)

-- One round of the loop that wires the children, on what the two reads give.
unfoldable pub wire_between :
    Option CausalNode → Option CausalNode → List CausalNode → List CausalNode
wire_between none target nodes = nodes
wire_between (some source) none nodes = nodes
wire_between (some source) (some target) nodes =
    if any (λ c. same_id c target.node_id) source.children
    then nodes
    else set_node (record source { children = source.children ++ target.node_id ∷ [] }) nodes

unfoldable pub wire : List CausalEdge → List CausalNode → List CausalNode
unfolding wire_between
wire [] nodes = nodes
wire (e ∷ es) nodes =
    wire es (wire_between (get_node e.source_id nodes) (get_node e.target_id nodes) nodes)

unfoldable pub build : List ExecutionTrace → CausalGraph
unfolding add_traces wire make_graph
build traces =
    let d = add_traces traces (record { nodes = []; edges = [] }) in
    make_graph (wire d.edges d.nodes) d.edges
