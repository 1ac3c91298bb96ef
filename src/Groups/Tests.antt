-- ===== src/Groups/Tests.antt =====
-- A group of nodes by pool and zone, and a concrete instance of each theorem.
use draino.Prelude.{
  ◌≡◌, ◌≢◌, refl, ap, arith, String, true, false, List, [], ◌∷◌, none, some, lookup, any, str_eq,
}
use draino.Prelude.Texts.{replace, split, cons_head, join}
use draino.K8s.{Node, Pod}
use draino.Taints.{get_nla_taint, find_taint}
use draino.Taints.Sample.{plain_lib}
use draino.Groups.{
  GroupKeyFromMetadata, drain_group_key, unique_override, key_of_override,
  get_group_override_annotation, get_group_key, get_group_override_from_pods, is_in_drain,
  update_pod_group_override_annotation,
}
use draino.Groups.Override.{
  override_from_pods-order, update_pod_override-sets, update_pod_override-stale_key,
}
use draino.Drainer.Poll.{Got, found, missing}
use draino.Groups.FromPod.{PodCalls, notify_key_getter, result_of, reconcile_pod, after_turns}
use draino.Groups.FromPod.Deleted.{left_of, reconcile_pod-notifies}
use draino.Groups.Reconciler.{
  ReconcileCalls, node_warm_up_delay, group_key_patch_error, reconcile, RegistryEvent, reconciles,
  drain_ends, after_events, new_group_registry,
}
use draino.Groups.Reconciler.Registered.{reconcile-one_of_each}
use draino.Groups.Runner.{count_key}

abbrev by_pool : GroupKeyFromMetadata
by_pool = record {
  labels_keys = "pool" ∷ "zone" ∷ [];
  annotation_keys = [];
  group_override_annotation_key = "draino/drain-group-override";
}

abbrev pool_node : Node
pool_node = record {
  name = "n";
  labels = ("pool", "p1") ∷ [];
  annotations = ("draino/drain-group-override", "a,b") ∷ [];
  taints = [];
  conditions = [];
  deletion_timestamp = none;
}

override_from_pods-order_example :
    (get_group_override_from_pods (some (some "" ∷ some "x" ∷ [])) ≡ (replace b',' "#" "x", true))
    × (get_group_override_from_pods (some (some "x" ∷ some "" ∷ [])) ≡ ("", false))
override_from_pods-order_example = override_from_pods-order "x" refl

not_in_drain : is_in_drain plain_lib pool_node ≡ false
unfolding is_in_drain get_nla_taint find_taint
not_in_drain = refl

update_pod_override-sets_example :
    get_group_override_annotation by_pool
      (update_pod_group_override_annotation plain_lib by_pool
        (some (some "x,y" ∷ none ∷ []))
        pool_node)
      "-pod"
    ≡ get_group_override_from_pods (some (some "x,y" ∷ none ∷ []))
update_pod_override-sets_example =
    update_pod_override-sets plain_lib by_pool (some (some "x,y" ∷ none ∷ [])) pool_node refl refl
      not_in_drain

abbrev first_call : ReconcileCalls
first_call = record {
  has_synced = true;
  get = found pool_node;
  age = node_warm_up_delay;
  node_filtering_func = none;
  patch_error = none;
}

abbrev ended_before : List RegistryEvent
ended_before = reconciles first_call ∷ drain_ends (get_group_key by_pool pool_node) ∷ []

pool_node_patched : group_key_patch_error by_pool pool_node none ≡ none
unfolding group_key_patch_error lookup
pool_node_patched = refl

reconcile-one_of_each_example :
    (count_key
        (get_group_key by_pool pool_node)
        (reconcile by_pool first_call
          (after_events by_pool ended_before new_group_registry)).registry.group_drain_runner.live
      ≡ 1)
    × (count_key
          (get_group_key by_pool pool_node)
          (reconcile by_pool first_call (after_events by_pool ended_before new_group_registry)
            ).registry.group_drain_candidate_runner.live
        ≡ 1)
reconcile-one_of_each_example =
    reconcile-one_of_each by_pool ended_before first_call pool_node refl refl refl refl
      pool_node_patched

abbrev moving_pod : Pod
moving_pod = record {
  name = "p";
  namespace = "ns";
  uid = "1";
  annotations = [];
  owner_references = [];
  node_name = "n";
  phase = "Running";
  empty_dir_volumes = [];
  conditions = [];
}

-- The pod is there, gone, and its node cannot be patched.
abbrev pod_calls : Got Pod → PodCalls
pod_calls pod = record {
  has_synced = true;
  get_pod = pod;
  pod_filter = λ p. true;
  get_node = λ name. found pool_node;
  update_override = λ n. some "conflict";
}

nothing_between :
    any {A = String × PodCalls} (λ t. str_eq t.0 "ns/p") (("ns/q", pod_calls missing) ∷ []) ≡ false
unfolding any
nothing_between = refl

reconcile_pod-notifies_example :
    ((reconcile_pod "ns/p" (pod_calls missing) (
        after_turns
          (("ns/p", pod_calls (found moving_pod)) ∷ ("ns/q", pod_calls missing) ∷ [])
          [])).notified
      ≡ "n" ∷ [])
    × ((reconcile_pod "ns/p" (pod_calls missing) (
          after_turns
            (("ns/p", pod_calls (found moving_pod)) ∷ ("ns/q", pod_calls missing) ∷ [])
            [])).result
        ≡ result_of (notify_key_getter (pod_calls missing) "n"))
    × (lookup "ns/p"
          (reconcile_pod "ns/p" (pod_calls missing) (
            after_turns
              (("ns/p", pod_calls (found moving_pod)) ∷ ("ns/q", pod_calls missing) ∷ [])
              [])).pod_to_node
        ≡ left_of (notify_key_getter (pod_calls missing) "n") "n")
reconcile_pod-notifies_example =
    reconcile_pod-notifies "ns/p" (pod_calls (found moving_pod)) (pod_calls missing) moving_pod
      (("ns/q", pod_calls missing) ∷ []) [] refl refl refl refl nothing_between refl refl

override_differs :
    get_group_override_from_pods (some (some "x" ∷ []))
    ≢ get_group_override_annotation by_pool pool_node "-pod"
unfolding get_group_override_from_pods unique_override get_group_override_annotation key_of_override
    split cons_head join lookup
override_differs e = ground (arith, ap (λ o. o.1) e)

update_pod_override-stale_key_example :
    lookup drain_group_key
      (update_pod_group_override_annotation plain_lib by_pool
        (some (some "x" ∷ []))
        pool_node).annotations
    ≡ some (get_group_key by_pool pool_node)
update_pod_override-stale_key_example =
    update_pod_override-stale_key plain_lib by_pool (some (some "x" ∷ [])) pool_node refl
      not_in_drain override_differs
