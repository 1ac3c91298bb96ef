-- ===== src/BoundPods.antt =====
-- nodefilters.go: GetUnscheduledPodsBoundToNodeByPV, the pods that wait for a node because of a
-- volume on it, which the candidate filter pvcBound and the drain runner ask for.
pub mod Exact
mod Tests
use draino.Prelude.{
  ◌+◌, ◌*◌, String, Bool, true, false, ◌&&◌, List, [], ◌∷◌, ◌++◌, Option, none, some, if◌then◌else◌,
  str_eq, pos, ◌-ℤ◌, ltb_ℤ, keep_if,
}
use draino.K8s.{Time, Duration, second, minute}
use draino.Drainer.Poll.{Got, found, missing, get_error}
use draino.Drainer.Volumes.{pvc_storage_class_cleanup_enabled}

pub record ClaimRef : Type 0 where
  pub namespace : String
  pub name : String
  pub uid : String

-- A PersistentVolumeClaim: its UID and its deletion timestamp.
pub record LiveClaim : Type 0 where
  pub uid : String
  pub deletion_timestamp : Option Time

-- A pod, with the annotations that its cleanup depends on, of itself or of its controller.
pub record ClaimPod : Type 0 where
  pub name : String
  pub node_name : String
  pub creation_timestamp : Time
  pub cleanup_annotation : Option String
  pub eviction_url : Option String

-- A list of pods, or the error of a read.
pub data Bound : Type 0 where
  bound : List ClaimPod → Bound
  bound_error : String → Bound

-- What the store of the informers answers. A claim is read by its namespace and its name.
pub record ClaimStore : Type 0 where
  pub get_pvc : (namespace name : String) → Got LiveClaim
  pub list_pods_for_claim : (namespace name : String) → Bound

-- The time for which a pod must be pending before it counts.
unfoldable pub pending_pod_delay : (default_true : Bool) → ClaimPod → Duration
pending_pod_delay default_true p =
    if pvc_storage_class_cleanup_enabled p.cleanup_annotation p.eviction_url default_true
    then pos (10 * second + minute)
    else pos 0

unfoldable pub is_waiting : (default_true : Bool) → (now : Time) → ClaimPod → Bool
is_waiting default_true now p =
    str_eq p.node_name "" && ltb_ℤ (pending_pod_delay default_true p) (now -ℤ p.creation_timestamp)

-- A claim that stands for another object, or that is being deleted, has no pods to wait for.
unfoldable pub pods_of_pvc : ClaimRef → LiveClaim → (listed : Bound) → Bound
pods_of_pvc ref pvc listed =
    if str_eq pvc.uid ref.uid
    then elim pvc.deletion_timestamp [ none ↦ listed | some t ↦ bound [] ]
    else bound []

unfoldable pub pods_of_got : ClaimRef → Got LiveClaim → (listed : Bound) → Bound
pods_of_got ref missing listed = bound []
pods_of_got ref (get_error e) listed = bound_error e
pods_of_got ref (found pvc) listed = pods_of_pvc ref pvc listed

-- The pods of a volume, which is given by its reference to a claim.
unfoldable pub pods_of_volume : ClaimStore → Option ClaimRef → Bound
pods_of_volume store none = bound []
pods_of_volume store (some ref) =
    pods_of_got ref (store.get_pvc ref.namespace ref.name)
      (store.list_pods_for_claim ref.namespace ref.name)

-- The first error ends the search.
unfoldable pub add_bound : (waiting : ClaimPod → Bool) → Bound → (rest : Bound) → Bound
add_bound waiting (bound_error e) rest = bound_error e
add_bound waiting (bound ps) (bound_error e) = bound_error e
add_bound waiting (bound ps) (bound rest) = bound (keep_if waiting ps ++ rest)

-- On the volumes that GetPVForNode gives for the node.
unfoldable pub get_unscheduled_pods :
    ClaimStore → (default_true : Bool) → (now : Time) → List (Option ClaimRef) → Bound
get_unscheduled_pods store default_true now [] = bound []
get_unscheduled_pods store default_true now (v ∷ vs) =
    add_bound (is_waiting default_true now) (pods_of_volume store v)
      (get_unscheduled_pods store default_true now vs)
