-- ===== src/Metadata/Flags.antt =====
-- metadata_search.go: which objects a search looks at.
use draino.Prelude.{
  ◌≡◌, refl, String, true, false, List, [], ◌∷◌, Option, some, Dict, lookup, insert, ap,
}
use draino.K8s.{Node, Pod}
use draino.Pods.{RuntimeStore}
use draino.Metadata.{
  value_at, get_exact_annotation, add_item, add_values, process_node, new_search,
  search_annotation_from_node_and_then_pod_or_controller,
}

exact-lookup :
    (key value : String) (annotations : Dict String)
    → lookup key annotations ≡ some value
    → get_exact_annotation annotations key ≡ (key, value) ∷ []
unfolding get_exact_annotation value_at
exact-lookup key value annotations h = ap (value_at key) h

-- A search that is to stop at the pods, where they have the annotation, and not at the node, never
-- looks at a pod of a node that has the annotation: it is the node's value alone, even if the index
-- fails.
pub search_annotation-ignores_pods :
    {T : Type 0} (converter : String → Option T) (store : RuntimeStore) (key value : String)
    (pods : Option (List Pod)) (n : Node)
    → lookup key n.annotations ≡ some value
    → search_annotation_from_node_and_then_pod_or_controller converter store key false true pods n
      ≡ some (process_node converter get_exact_annotation store key n [])
unfolding search_annotation_from_node_and_then_pod_or_controller new_search process_node add_values
    add_item lookup insert
search_annotation-ignores_pods converter store key value pods n h =
    rw (exact-lookup key value n.annotations h) refl
