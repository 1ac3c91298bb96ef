-- ===== src/BoundPods/Tests.antt =====
-- A pod of a stateful set that waits for the claim "data", whose volume is on the node.
use mathlib.Core.List.{Mem}
use draino.Prelude.{
  ◌≡◌, refl, String, false, List, [], ◌∷◌, Option, none, some, pos, keep_if, ◌-ℤ◌, ◌↔◌,
}
use draino.K8s.{minute}
use draino.Drainer.Poll.{Got, found, get_error}
use draino.Drainer.Volumes.{pvc_storage_class_cleanup_enabled}
use draino.BoundPods.{
  ClaimRef, LiveClaim, ClaimPod, bound, bound_error, ClaimStore, pending_pod_delay, is_waiting,
  pods_of_pvc, pods_of_got, pods_of_volume, add_bound, get_unscheduled_pods,
}
use draino.BoundPods.Exact.{WaitsFor, get_unscheduled_pods-exact}

abbrev pod : Option String → ClaimPod
pod cleanup = record {
  name = "web-0";
  node_name = "";
  creation_timestamp = pos 0;
  cleanup_annotation = cleanup;
  eviction_url = none;
}

abbrev store : Got LiveClaim → Option String → ClaimStore
store got cleanup = record {
  get_pvc = λ namespace name. got;
  list_pods_for_claim = λ namespace name. bound (pod cleanup ∷ []);
}

abbrev same_claim : Got LiveClaim
same_claim = found (record { uid = "1"; deletion_timestamp = none })

abbrev volumes : List (Option ClaimRef)
volumes = none ∷ some (record { namespace = "default"; name = "data"; uid = "1" }) ∷ []

waits :
    get_unscheduled_pods (store same_claim none) false (pos minute) volumes ≡ bound (pod none ∷ [])
unfolding get_unscheduled_pods add_bound pods_of_volume pods_of_got pods_of_pvc is_waiting
    pending_pod_delay pvc_storage_class_cleanup_enabled keep_if ◌-ℤ◌
waits = refl

-- With the cleanup of claims a minute is not long enough.
too_young :
    get_unscheduled_pods (store same_claim (some "true")) false (pos minute) volumes ≡ bound []
unfolding get_unscheduled_pods add_bound pods_of_volume pods_of_got pods_of_pvc is_waiting
    pending_pod_delay pvc_storage_class_cleanup_enabled keep_if ◌-ℤ◌
too_young = refl

unreadable_claim :
    get_unscheduled_pods (store (get_error "timeout") none) false (pos minute) volumes
    ≡ bound_error "timeout"
unfolding get_unscheduled_pods add_bound pods_of_volume pods_of_got keep_if
unreadable_claim = refl

get_unscheduled_pods-exact_example :
    Mem (pod none) (pod none ∷ [])
    ↔ ∥ WaitsFor (store same_claim none) false (pos minute) volumes (pod none) ∥₁
get_unscheduled_pods-exact_example =
    get_unscheduled_pods-exact (store same_claim none) false (pos minute) volumes (pod none ∷ [])
      waits (pod none)
