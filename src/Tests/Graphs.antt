-- ===== src/Tests/Graphs.antt =====
-- Tests of the causal graph and of the graph of the schema versions.
use stocky_cognitive_runtime.Prelude.{◌≡◌, true, false, refl, String, some, List, [], ◌∷◌, arith}
use stocky_cognitive_runtime.Causal.{CausalNode, host_event, traverse}
use stocky_cognitive_runtime.Causal.Build.{build, node_id}
use stocky_cognitive_runtime.Causal.Traversal.{traverse-build}
use stocky_cognitive_runtime.Schema.Graph.{
  SchemaVersionNode, register_node, is_orphan, has_lineage_to_root,
}
use stocky_cognitive_runtime.Schema.Graph.Lineage.{
  none_yet, registers, has_lineage_to_root_registered,
}
use stocky_cognitive_runtime.Tests.Samples.{trace}

traverse-build_example :
    (path : List CausalNode) × (traverse 5
        (build (trace "a" ∷ trace "b" ∷ [])).nodes
        (node_id (trace "a") host_event)
      ≡ some path)
traverse-build_example =
    traverse-build (trace "a" ∷ trace "b" ∷ []) (node_id (trace "a") host_event) 5 (omega arith)

abbrev schema_version : String → List String → SchemaVersionNode
schema_version v parents = record {
  version = v;
  parent_versions = parents;
  is_frozen = true;
  breaking_changes = [];
  compatibility_hash = "";
}

abbrev schemas : List SchemaVersionNode
schemas =
    schema_version "1.0" []
    ∷ schema_version "1.1" ("1.0" ∷ [])
    ∷ schema_version "2.0" ("1.1" ∷ "1.0" ∷ [])
    ∷ []

has_lineage_to_root_registered_example :
    (has_lineage_to_root 3 schemas "2.0" ≡ some true) × (is_orphan 3 schemas "2.0" ≡ some false)
unfolding register_node
has_lineage_to_root_registered_example =
    has_lineage_to_root_registered 3 "2.0" (schema_version "2.0" ("1.1" ∷ "1.0" ∷ []))
      (registers
        (registers (registers none_yet (schema_version "1.0" []) refl)
          (schema_version "1.1" ("1.0" ∷ [])) refl)
        (schema_version "2.0" ("1.1" ∷ "1.0" ∷ [])) refl)
      refl (omega arith)
