-- ===== src/Groups/FromPod.antt =====
-- internal/groups/group_from_pod.go: GroupFromPod.Reconcile, which passes the events of the pods on
-- to the keys of their nodes. The cache from pods to nodes is the state.
pub mod Deleted
use draino.Prelude.{
  ◌*◌, String, Bool, not, List, [], ◌∷◌, Option, none, some, if◌then◌else◌, str_eq, pos, Dict,
  lookup, insert, delete,
}
use Prim.Native.String.{◌++◌ as append}
use draino.K8s.{Node, Pod, second}
use draino.Drainer.Poll.{Got, found, missing, get_error}
use draino.Groups.Reconciler.{Reconciled, requeue_after, finished, reconcile_error}

-- What one call reads, and UpdatePodGroupOverrideAnnotation by its error.
pub record PodCalls : Type 0 where
  pub has_synced : Bool
  pub get_pod : Got Pod
  pub pod_filter : Pod → Bool
  pub get_node : (name : String) → Got Node
  pub update_override : Node → Option String

-- The answer, the cache after the call, and the nodes that were asked to take the pods up.
pub record Turn : Type 0 where
  pub result : Reconciled
  pub pod_to_node : Dict String
  pub notified : List String

unfoldable pub notify_key_getter : PodCalls → (node_name : String) → Option String
notify_key_getter calls node_name = elim (calls.get_node node_name) [
  | missing ↦ none
  | found n ↦ calls.update_override n
  | get_error e ↦ some (append "get Node Fails: " e)
]

abbrev pub result_of : Option String → Reconciled
result_of none = finished
result_of (some e) = reconcile_error e

-- The pod is gone: its node is notified, and forgotten when that went well.
unfoldable pub forget_pod :
    (req : String) → (error : Option String) → (node_name : String) → Dict String → Turn
forget_pod req none node_name m = record {
  result = finished;
  pod_to_node = delete req m;
  notified = node_name ∷ [];
}
forget_pod req (some e) node_name m = record {
  result = reconcile_error e;
  pod_to_node = m;
  notified = node_name ∷ [];
}

unfoldable pub pod_gone : (req : String) → PodCalls → Option String → Dict String → Turn
unfolding forget_pod notify_key_getter
pod_gone req calls none m = record { result = finished; pod_to_node = m; notified = [] }
pod_gone req calls (some node_name) m =
    forget_pod req (notify_key_getter calls node_name) node_name m

unfoldable pub pod_seen : (req : String) → PodCalls → Pod → Dict String → Turn
unfolding notify_key_getter
pod_seen req calls p m =
    if not (calls.pod_filter p)
    then record { result = finished; pod_to_node = m; notified = [] }
    else if str_eq p.node_name ""
    then record { result = finished; pod_to_node = m; notified = [] }
    else record {
      result = result_of (notify_key_getter calls p.node_name);
      pod_to_node = insert req p.node_name m;
      notified = p.node_name ∷ [];
    }

unfoldable pub for_pod : (req : String) → PodCalls → Got Pod → Dict String → Turn
unfolding pod_gone pod_seen
for_pod req calls (found p) m = pod_seen req calls p m
for_pod req calls missing m = pod_gone req calls (lookup req m) m
for_pod req calls (get_error e) m = record {
  result = reconcile_error (append "get Pod Fails: " e);
  pod_to_node = m;
  notified = [];
}

unfoldable pub reconcile_pod : (req : String) → PodCalls → Dict String → Turn
unfolding for_pod
reconcile_pod req calls m =
    if not calls.has_synced
    then record { result = requeue_after (pos (5 * second)); pod_to_node = m; notified = [] }
    else for_pod req calls calls.get_pod m

-- The cache after the calls for some pods, in their order.
unfoldable pub after_turns : List (String × PodCalls) → Dict String → Dict String
unfolding reconcile_pod
after_turns [] m = m
after_turns ((req, calls) ∷ turns) m = after_turns turns (reconcile_pod req calls m).pod_to_node
