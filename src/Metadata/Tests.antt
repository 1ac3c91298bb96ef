-- ===== src/Metadata/Tests.antt =====
-- A node that has a drain buffer of its own.
use draino.Prelude.{◌≡◌, refl, true, false, [], ◌∷◌, none, some, lookup}
use draino.K8s.{Node}
use draino.Pods.{RuntimeStore, node_missing}
use draino.Metadata.{
  get_exact_annotation, process_node, search_annotation_from_node_and_then_pod_or_controller,
}
use draino.Metadata.Flags.{search_annotation-ignores_pods}

abbrev store : RuntimeStore
store = record {
  stateful_sets = λ ns name. none;
  deployments = λ ns name. none;
  nodes = λ name. node_missing;
}

abbrev node : Node
node = record {
  name = "n";
  labels = [];
  annotations = ("buffer", "10m") ∷ [];
  taints = [];
  conditions = [];
  deletion_timestamp = none;
}

has_buffer : lookup "buffer" node.annotations ≡ some "10m"
unfolding lookup
has_buffer = refl

search_annotation-ignores_pods_example :
    search_annotation_from_node_and_then_pod_or_controller some store "buffer" false true none node
    ≡ some (process_node some get_exact_annotation store "buffer" node [])
search_annotation-ignores_pods_example =
    search_annotation-ignores_pods some store "buffer" "10m" none node has_buffer
