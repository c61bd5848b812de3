-- ===== src/Schema/Graph/Place.antt =====
-- schema_evolution/evolution_graph.py: the order in which the versions were registered.
use mathlib.Core.Path.{subst}
use stocky_cognitive_runtime.Prelude.{
  ℕ, suc, ◌<◌, ◌≡◌, refl, sym, ap, ◌∙◌, inl, inr, String, none, some, List, [], ◌∷◌, ◌++◌, length,
  All, arith, str_eq, eq_iff, eq_refl, if◌then◌else◌, Bool-cases,
}
use stocky_cognitive_runtime.Schema.Graph.{SchemaVersionNode, get_node}

-- The place of a version in the order of registration.
unfoldable pub place : String → List SchemaVersionNode → ℕ
place v [] = 0
place v (n ∷ ns) = let rest = place v ns in if str_eq n.version v then 0 else suc rest

-- A parent that is registered before a version.
pub record IsBefore (nodes : List SchemaVersionNode) (v p : String) : Type 0 where
  pub node : SchemaVersionNode
  pub found : get_node p nodes ≡ some node
  pub earlier : place p nodes < place v nodes

abbrev pub IsRooted : List SchemaVersionNode → SchemaVersionNode → Type 0
IsRooted nodes n = All (IsBefore nodes n.version) n.parent_versions

pub get_node-append :
    (v : String) (nodes : List SchemaVersionNode) (x n : SchemaVersionNode)
    → get_node v nodes ≡ some n
    → get_node v (nodes ++ x ∷ []) ≡ some n
unfolding get_node
get_node-append v [] x n e = cc
get_node-append v (m ∷ nodes) x n e = elim (Bool-cases (str_eq m.version v)) [
  | inl same ↦ ground (arith, same, e)
  | inr other ↦ ground (arith, other, e, get_node-append v nodes x n (ground (arith, other, e)))
]

pub place-append :
    (v : String) (nodes : List SchemaVersionNode) (x n : SchemaVersionNode)
    → get_node v nodes ≡ some n
    → (place v (nodes ++ x ∷ []) ≡ place v nodes) × (place v nodes < length nodes)
unfolding get_node place
place-append v [] x n e = cc
place-append v (m ∷ nodes) x n e = elim (Bool-cases (str_eq m.version v)) [
  | inl same ↦ (rw same refl, rw same (omega arith))
  | inr other ↦
      let ih = place-append v nodes x n (ground (arith, other, e)) in
      (rw other (ap suc ih.0), rw other (omega (arith, ih.1)))
]

pub place_new :
    (nodes : List SchemaVersionNode) (x : SchemaVersionNode)
    → get_node x.version nodes ≡ none
    → place x.version (nodes ++ x ∷ []) ≡ length nodes
unfolding get_node place
place_new [] x e = rw (eq_refl x.version) refl
place_new (m ∷ nodes) x e = elim (Bool-cases (str_eq m.version x.version)) [
  | inl same ↦ ground (arith, same, e)
  | inr other ↦ rw other (ap suc (place_new nodes x (ground (arith, other, e))))
]

pub get_node-version :
    (v : String) (nodes : List SchemaVersionNode) (n : SchemaVersionNode)
    → get_node v nodes ≡ some n
    → n.version ≡ v
unfolding get_node
get_node-version v [] n e = cc
get_node-version v (m ∷ nodes) n e = elim (Bool-cases (str_eq m.version v)) [
  | inl same ↦
      let found : m ≡ n = ground (arith, same, e) in
      ap (λ (k : SchemaVersionNode). k.version) (sym found) ∙ (eq_iff m.version v).0 same
  | inr other ↦ get_node-version v nodes n (ground (arith, other, e))
]

pub All-get {ℓ} :
    (P : SchemaVersionNode → Type ℓ) (v : String) (nodes : List SchemaVersionNode)
    (n : SchemaVersionNode)
    → get_node v nodes ≡ some n
    → All P nodes
    → P n
unfolding get_node
All-get P v [] n e all = cc
All-get P v (m ∷ nodes) n e all = elim (Bool-cases (str_eq m.version v)) [
  | inl same ↦ subst P (ground (arith, same, e)) all.0
  | inr other ↦ All-get P v nodes n (ground (arith, other, e)) all.1
]

pub All-map {ℓ κ} :
    {A : Type 0} (P : A → Type ℓ) (Q : A → Type κ) (xs : List A)
    → ((x : A) → P x → Q x)
    → All P xs
    → All Q xs
All-map P Q [] f all = tt
All-map P Q (x ∷ xs) f all = (f x all.0, All-map P Q xs f all.1)

pub IsBefore-append :
    (nodes : List SchemaVersionNode) (x k : SchemaVersionNode) (v p : String)
    → get_node v nodes ≡ some k
    → IsBefore nodes v p
    → IsBefore (nodes ++ x ∷ []) v p
IsBefore-append nodes x k v p e h =
    let at_v = place-append v nodes x k e in
    let at_p = place-append p nodes x h.node h.found in
    let before = h.earlier in
    record {
      node = h.node;
      found = get_node-append p nodes x h.node h.found;
      earlier = omega (arith, at_v.0, at_p.0, before);
    }

pub appended-IsBefore :
    (nodes : List SchemaVersionNode) (x k : SchemaVersionNode) (p : String)
    → get_node x.version nodes ≡ none
    → get_node p nodes ≡ some k
    → IsBefore (nodes ++ x ∷ []) x.version p
appended-IsBefore nodes x k p new e =
    let at_p = place-append p nodes x k e in
    record {
      node = k;
      found = get_node-append p nodes x k e;
      earlier = omega (arith, place_new nodes x new, at_p.0, at_p.1);
    }

pub get_node_new :
    (nodes : List SchemaVersionNode) (x : SchemaVersionNode)
    → get_node x.version nodes ≡ none
    → get_node x.version (nodes ++ x ∷ []) ≡ some x
unfolding get_node
get_node_new [] x e = rw (eq_refl x.version) refl
get_node_new (m ∷ nodes) x e = elim (Bool-cases (str_eq m.version x.version)) [
  | inl same ↦ ground (arith, same, e)
  | inr other ↦ ground (arith, other, e, get_node_new nodes x (ground (arith, other, e)))
]
