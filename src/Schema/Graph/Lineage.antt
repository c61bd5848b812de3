-- ===== src/Schema/Graph/Lineage.antt =====
-- schema_evolution/evolution_graph.py: the lineage of the versions of a graph that was registered.
use mathlib.Core.Path.{subst}
use stocky_cognitive_runtime.Prelude.{
  ℕ, zero, suc, ◌≤◌, ◌<◌, ◌≡◌, refl, sym, inl, inr, String, true, false, none, some, List, [], ◌∷◌,
  ◌++◌, length, All, All-append, arith, str_eq, eq_iff, Bool-cases, Option-cases,
}
use stocky_cognitive_runtime.Prelude.Raise.{ok}
use stocky_cognitive_runtime.Schema.Graph.{
  SchemaVersionNode, get_node, unknown_parent, register_node, member, walk_parents, walk,
  has_lineage_to_root, is_orphan, versions, orphans_of, detect_orphans,
}
use stocky_cognitive_runtime.Schema.Graph.Place.{
  place, IsBefore, IsRooted, get_node-append, place-append, get_node-version, All-get, All-map,
  IsBefore-append, appended-IsBefore, get_node_new,
}

-- The graphs that calls of `register_node` make.
pub data IsRegistered : List SchemaVersionNode → Type 0 where
  none_yet : IsRegistered []
  registers :
      {nodes nodes' : List SchemaVersionNode}
      → IsRegistered nodes
      → (n : SchemaVersionNode) → register_node nodes n ≡ ok nodes'
      → IsRegistered nodes'

-- A node whose version is found, and whose parents are before it.
record IsPlaced (nodes : List SchemaVersionNode) (n : SchemaVersionNode) : Type 0 where
  node : SchemaVersionNode
  known : get_node n.version nodes ≡ some node
  rooted : IsRooted nodes n

register_lem :
    (nodes nodes' : List SchemaVersionNode) (n : SchemaVersionNode)
    → register_node nodes n ≡ ok nodes'
    → (get_node n.version nodes ≡ none)
      × (unknown_parent nodes n.parent_versions ≡ none)
      × (nodes ++ n ∷ [] ≡ nodes')
unfolding register_node
register_lem nodes nodes' n h = elim (Option-cases (get_node n.version nodes)) [
  | inr (k, e) ↦ ground (arith, h, e)
  | inl e ↦ elim (Option-cases (unknown_parent nodes n.parent_versions)) [
    | inr (p, u) ↦ ground (arith, h, e, u)
    | inl u ↦ (e, u, ground (arith, h, e, u))
  ]
]

known_parents :
    (nodes : List SchemaVersionNode) (ps : List String)
    → unknown_parent nodes ps ≡ none
    → All (λ p. (k : SchemaVersionNode) × (get_node p nodes ≡ some k)) ps
unfolding unknown_parent
known_parents nodes [] h = tt
known_parents nodes (p ∷ ps) h = elim (Option-cases (get_node p nodes)) [
  | inr (k, e) ↦ ((k, e), known_parents nodes ps (ground (arith, h, e)))
  | inl e ↦ ground (arith, h, e)
]

registered-IsPlaced :
    {nodes : List SchemaVersionNode} → IsRegistered nodes → All (IsPlaced nodes) nodes
registered-IsPlaced none_yet = tt
registered-IsPlaced (registers {nodes} {nodes'} r n h) =
    let (new, known, same) = register_lem nodes nodes' n h in
    let grown : List SchemaVersionNode = nodes ++ n ∷ [] in
    let old : All (IsPlaced grown) nodes =
      All-map (IsPlaced nodes) (IsPlaced grown) nodes
        (λ x placed. record {
          node = placed.node;
          known = get_node-append x.version nodes n placed.node placed.known;
          rooted =
              All-map (IsBefore nodes x.version) (IsBefore grown x.version) x.parent_versions
                (λ p b. IsBefore-append nodes n placed.node x.version p placed.known b)
                placed.rooted;
        })
        (registered-IsPlaced r) in
    let last : IsPlaced grown n = record {
      node = n;
      known = get_node_new nodes n new;
      rooted =
          All-map (λ p. (k : SchemaVersionNode) × (get_node p nodes ≡ some k))
            (IsBefore grown n.version) n.parent_versions
            (λ p found. appended-IsBefore nodes n found.0 p new found.1)
            (known_parents nodes n.parent_versions known);
    } in
    subst (λ ns. All (IsPlaced ns) ns) same
      (All-append (IsPlaced grown) nodes (n ∷ []) old (last, tt))

not_visited :
    (nodes : List SchemaVersionNode) (v : String) (visited : List String)
    → All (λ w. place v nodes < place w nodes) visited
    → member v visited ≡ false
not_visited nodes v [] h = refl
not_visited nodes v (w ∷ visited) h = elim (Bool-cases (str_eq w v)) [
  | inl same ↦ absurd (
      let loops = subst (λ u. place v nodes < place u nodes) ((eq_iff w v).0 same) h.0 in
      omega (arith, loops))
  | inr other ↦ rw other (not_visited nodes v visited h.1)
]

walk_ends :
    (fuel : ℕ) (nodes : List SchemaVersionNode) (visited : List String) (n : SchemaVersionNode)
    (ps : List String)
    → n.parent_versions ≡ ps
    → All (IsPlaced nodes) nodes
    → IsRooted nodes n
    → All (λ w. place n.version nodes < place w nodes) visited
    → place n.version nodes < fuel
    → walk fuel nodes visited n ≡ some true
unfolding walk walk_parents
walk_ends zero nodes visited n ps e all rooted later enough = absurd (omega (arith, enough))
walk_ends (suc fuel) nodes visited n [] e all rooted later enough = rw (e, walk_parents) refl
walk_ends (suc fuel) nodes visited n (p ∷ ps) e all rooted later enough =
    let before : IsBefore nodes n.version p = (subst (All (IsBefore nodes n.version)) e rooted).0 in
    let named : before.node.version ≡ p = get_node-version p nodes before.node before.found in
    let earlier : place before.node.version nodes < place n.version nodes =
      subst (λ u. place u nodes < place n.version nodes) (sym named) before.earlier in
    let placed : IsPlaced nodes before.node =
      All-get (IsPlaced nodes) p nodes before.node before.found all in
    let later' : All (λ w. place before.node.version nodes < place w nodes) (n.version ∷ visited) =
      (
        earlier,
        All-map (λ w. place n.version nodes < place w nodes)
            (λ w. place before.node.version nodes < place w nodes) visited
            (λ w after. omega (arith, earlier, after)) later,
      ) in
    let more : walk fuel nodes (n.version ∷ visited) before.node ≡ some true =
      walk_ends fuel nodes (n.version ∷ visited) before.node before.node.parent_versions refl all
        placed.rooted later' (omega (arith, earlier, enough)) in
    rw (e, walk_parents, not_visited nodes n.version visited later, before.found) more

-- Every version of a graph made by registrations has a lineage to a root and is no orphan, and the
-- search ends within as many steps as there are versions.
pub has_lineage_to_root_registered :
    {nodes : List SchemaVersionNode} (fuel : ℕ) (version : String) (n : SchemaVersionNode)
    → IsRegistered nodes
    → get_node version nodes ≡ some n
    → length nodes ≤ fuel
    → (has_lineage_to_root fuel nodes version ≡ some true)
      × (is_orphan fuel nodes version ≡ some false)
unfolding has_lineage_to_root is_orphan
has_lineage_to_root_registered {nodes} fuel version n r e enough =
    let all : All (IsPlaced nodes) nodes = registered-IsPlaced r in
    let placed : IsPlaced nodes n = All-get (IsPlaced nodes) version nodes n e all in
    let bound = (place-append n.version nodes n placed.node placed.known).1 in
    let walks : walk fuel nodes [] n ≡ some true =
      walk_ends fuel nodes [] n n.parent_versions refl all placed.rooted tt
        (omega (arith, bound, enough)) in
    (ground (arith, e, walks), ground (arith, e, walks))

orphans_of_rooted :
    (fuel : ℕ) (nodes ns : List SchemaVersionNode)
    → All (λ (n : SchemaVersionNode). is_orphan fuel nodes n.version ≡ some false) ns
    → orphans_of fuel nodes (versions ns) ≡ some []
unfolding orphans_of
orphans_of_rooted fuel nodes [] rooted = refl
orphans_of_rooted fuel nodes (n ∷ ns) rooted =
    rw (orphans_of, rooted.0) (orphans_of_rooted fuel nodes ns rooted.1)

-- The listing of the orphans of a graph made by registrations is empty.
detect_orphans_registered :
    {nodes : List SchemaVersionNode} (fuel : ℕ)
    → IsRegistered nodes
    → length nodes ≤ fuel
    → detect_orphans fuel nodes ≡ some []
unfolding detect_orphans
detect_orphans_registered {nodes} fuel r enough = orphans_of_rooted fuel nodes nodes (
    All-map (IsPlaced nodes)
      (λ (n : SchemaVersionNode). is_orphan fuel nodes n.version ≡ some false) nodes
      (λ n placed.
        (has_lineage_to_root_registered fuel n.version placed.node r placed.known enough).1)
      (registered-IsPlaced r))
