-- ===== src/Schema/Graph.antt =====
-- schema_evolution/evolution_node.py and evolution_graph.py: the lineage of the schema versions. The
-- dictionary of nodes is the list of its values in the order of insertion; a call that raises returns
-- the text of its ValueError.
pub mod Lineage
pub mod Place
use Prim.Native.String.{◌++◌ as concat}
use stocky_cognitive_runtime.Prelude.{
  ℕ, zero, suc, String, Bool, true, map, false, not, Option, none, some, List, [], ◌∷◌, ◌++◌, any,
  length, str_eq, if◌then◌else◌,
}
use stocky_cognitive_runtime.Prelude.Raise.{Result, ok, err}

pub record SchemaVersionNode : Type 0 where
  pub version : String
  pub parent_versions : List String
  pub is_frozen : Bool
  pub breaking_changes : List String
  pub compatibility_hash : String

unfoldable pub get_node : String → List SchemaVersionNode → Option SchemaVersionNode
get_node v [] = none
get_node v (n ∷ ns) = let rest = get_node v ns in if str_eq n.version v then some n else rest

abbrev pub is_known : Option SchemaVersionNode → Bool
is_known none = false
is_known (some n) = true

-- The first parent that is not registered.
unfoldable pub unknown_parent : List SchemaVersionNode → List String → Option String
unfolding get_node
unknown_parent nodes [] = none
unknown_parent nodes (p ∷ ps) =
    let rest = unknown_parent nodes ps in if is_known (get_node p nodes) then rest else some p

unfoldable pub register_node :
    List SchemaVersionNode → SchemaVersionNode → Result String (List SchemaVersionNode)
unfolding get_node unknown_parent
register_node nodes n =
    if is_known (get_node n.version nodes)
    then err (concat "Version already registered: " n.version)
    else elim (unknown_parent nodes n.parent_versions) [
      | some p ↦
          err (concat "Parent version " (concat p " not registered (register parents first)"))
      | none ↦ ok (nodes ++ n ∷ [])
    ]

abbrev pub member : String → List String → Bool
member v vs = any (λ w. str_eq w v) vs

unfoldable pub is_valid_transition : List SchemaVersionNode → String → String → Bool
unfolding get_node
is_valid_transition nodes from to = elim (get_node from nodes) [
  | none ↦ false
  | some f ↦ elim (get_node to nodes) [ none ↦ false | some t ↦ member from t.parent_versions ]
]

unfoldable pub walk_parents :
    (SchemaVersionNode → Option Bool)
    → List SchemaVersionNode
    → List String
    → String
    → List String
    → Option Bool
unfolding get_node
walk_parents more nodes visited version [] = some true
walk_parents more nodes visited version (p ∷ ps) =
    if member version visited
    then some false
    else elim (get_node p nodes) [ none ↦ some false | some parent ↦ more parent ]

-- The `while` of `has_lineage_to_root`, on fuel: `none` if it does not end.
unfoldable pub walk : ℕ → List SchemaVersionNode → List String → SchemaVersionNode → Option Bool
unfolding walk_parents
walk zero nodes visited current = none
walk (suc fuel) nodes visited current =
    walk_parents (walk fuel nodes (current.version ∷ visited)) nodes visited current.version
      current.parent_versions

unfoldable pub has_lineage_to_root : ℕ → List SchemaVersionNode → String → Option Bool
unfolding walk get_node
has_lineage_to_root fuel nodes version = elim (get_node version nodes) [
  | none ↦ some false
  | some n ↦ walk fuel nodes [] n
]

unfoldable pub is_orphan : ℕ → List SchemaVersionNode → String → Option Bool
unfolding has_lineage_to_root get_node
is_orphan fuel nodes version =
    if is_known (get_node version nodes)
    then elim (has_lineage_to_root fuel nodes version) [
      | none ↦ none
      | some rooted ↦ some (not rooted)
    ]
    else some false

unfoldable pub root_version : List SchemaVersionNode → Option String
root_version [] = none
root_version (n ∷ nodes) =
    let rest = root_version nodes in elim n.parent_versions [ [] ↦ some n.version | p ∷ ps ↦ rest ]

abbrev pub node_count : List SchemaVersionNode → ℕ
node_count nodes = length nodes

abbrev pub versions : List SchemaVersionNode → List String
versions nodes = map (λ (n : SchemaVersionNode). n.version) nodes

-- The `while` of `get_ancestors`, on fuel: `none` if it does not end.
unfoldable pub climb :
    ℕ → List SchemaVersionNode → List String → SchemaVersionNode → Option (List String)
unfolding get_node
climb zero nodes visited current = none
climb (suc fuel) nodes visited current = elim current.parent_versions [
  | [] ↦ some []
  | p ∷ ps ↦ if member current.version visited then some [] else elim (get_node p nodes) [
    | none ↦ some []
    | some parent ↦ elim (climb fuel nodes (current.version ∷ visited) parent) [
      | none ↦ none
      | some above ↦ some (p ∷ above)
    ]
  ]
]

unfoldable pub get_ancestors : ℕ → List SchemaVersionNode → String → Option (List String)
unfolding get_node climb
get_ancestors fuel nodes version = elim (get_node version nodes) [
  | none ↦ some []
  | some n ↦ climb fuel nodes [] n
]

-- The orphans among some versions of a graph.
unfoldable pub orphans_of : ℕ → List SchemaVersionNode → List String → Option (List String)
unfolding is_orphan
orphans_of fuel nodes [] = some []
orphans_of fuel nodes (v ∷ vs) =
    let rest = orphans_of fuel nodes vs in
    elim (is_orphan fuel nodes v) [
      | none ↦ none
      | some true ↦ elim rest [ none ↦ none | some found ↦ some (v ∷ found) ]
      | some false ↦ rest
    ]

unfoldable pub detect_orphans : ℕ → List SchemaVersionNode → Option (List String)
unfolding orphans_of
detect_orphans fuel nodes = orphans_of fuel nodes (versions nodes)
