-- ===== src/Pods/Tests.antt =====
-- A pod of a StatefulSet, and the filters on it.
use draino.Prelude.{
  ◌≡◌, refl, String, Bool, true, false, ◌&&◌, ◌||◌, [], ◌∷◌, Option, none, some, Dict, all, lookup,
  str_eq, any,
}
use draino.K8s.{OwnerReference, Pod}
use draino.Pods.{
  RuntimeStore, node_missing, FilterOptions, is_completed, opt_in_filter, eviction_filters,
  pod_or_controller_has_any_of_the_annotations, drainer_skip_pod_filter, get_controller_for_pod,
  panics, before_last_dash,
}
use draino.Pods.Chain.{is_pass, is_reject, drainer_skip_pod_filter-pass}

abbrev store : RuntimeStore
store = record {
  stateful_sets = λ ns name. some (record { namespace = ns; name = name; annotations = [] });
  deployments = λ ns name. none;
  nodes = λ name. node_missing;
}

abbrev pod : Pod
pod = record {
  name = "p-0";
  namespace = "ns";
  uid = "u";
  annotations = ("kubernetes.io/config.mirror", "m") ∷ [];
  owner_references =
      record { kind = "StatefulSet"; name = "p"; api_version = "apps/v1"; controller = true } ∷ [];
  node_name = "n";
  phase = "Running";
  empty_dir_volumes = [];
  conditions = [];
}

-- A ReplicaSet of no Deployment has a name without a dash.
abbrev of_bare_replica_set : Pod
of_bare_replica_set = record pod {
  owner_references =
      record { kind = "ReplicaSet"; name = "web"; api_version = "apps/v1"; controller = true } ∷ [];
}

bare_replica_set_panics : get_controller_for_pod store of_bare_replica_set ≡ panics
unfolding get_controller_for_pod before_last_dash
bare_replica_set_panics = refl

abbrev options : FilterOptions
options = record {
  evict_local_storage_pods = true;
  do_not_evict_pod_controlled_by = [];
  protected_pod_annotations = [];
  opt_in_pod_annotations = "opt-in" ∷ [];
  short_lived_pod_annotations = "short-lived" ∷ [];
  candidate_local_storage_pods = true;
  do_not_candidate_pod_controlled_by = [];
  candidate_protected_pod_annotations = [];
  exclude_stateful_set_on_node_without_storage = true;
}

-- A selector that asks for the key.
parse : String → Option (Dict String → Bool)
parse key = some (λ labels. any (λ e. str_eq e.0 key) labels)

abbrev controller_of : Pod → Option OwnerReference
controller_of p = none

abbrev describe : Pod → String
describe p = p.name

mirror_pod_is_kept :
    is_pass (drainer_skip_pod_filter parse store controller_of (λ s. s) describe options pod)
    ≡ false
unfolding drainer_skip_pod_filter get_controller_for_pod parse any lookup
mirror_pod_is_kept = refl

drainer_skip_pod_filter-pass_example :
    is_pass (drainer_skip_pod_filter parse store controller_of (λ s. s) describe options pod) ≡ (
      is_completed pod
      || (is_reject (
            pod_or_controller_has_any_of_the_annotations parse store
              options.short_lived_pod_annotations pod)
          && (is_pass (opt_in_filter parse store controller_of (λ s. s) describe options pod)
              || (is_reject (opt_in_filter parse store controller_of (λ s. s) describe options pod)
                  && all
                      (λ f. is_pass (f pod))
                      (eviction_filters parse store controller_of (λ s. s) describe options)))))
drainer_skip_pod_filter-pass_example =
    drainer_skip_pod_filter-pass parse store controller_of (λ s. s) describe options pod
