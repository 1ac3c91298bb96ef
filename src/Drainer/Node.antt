-- ===== src/Drainer/Node.antt =====
-- drainer.go, a whole node: GetPodsToDrain and Drain. One goroutine evicts each pod and sends its
-- result; the drain receives them in the order in which they arrive.
pub mod Gone
use draino.Prelude.{
  ℕ, suc, ◌+◌, ◌≡◌, String, Bool, true, false, List, [], ◌∷◌, Option, none, some, if◌then◌else◌,
  map, str_eq,
}
use draino.K8s.{Node, Taint}
use draino.Taints.{TaintLib, get_nla_taint, taint_draining}
use draino.Drainer.Errors.{DrainError, node_has_not_draining_taint, other}
use draino.Drainer.Poll.{PollLib, Got, found, missing, get_error}
use draino.Drainer.Sequence.{Target, DrainerConfig, Round, Eviction}
use draino.Drainer.Endpoint.{ApiReply, EndpointReply, evict}

-- A pod of the node, with what its eviction meets. The filter's answer is `none` for an error.
pub record PodRun : Type 0 where
  pub target : Target
  pub passes : Option Bool
  pub rounds : ℕ → Round
  pub api : ℕ → ApiReply
  pub endpoint : ℕ → EndpointReply
  pub fuel : ℕ

-- `order` is the order in which the goroutines send.
pub record NodeRun : Type 0 where
  pub skip_drain : Bool
  pub fresh : Got Node
  pub pods : Option (List PodRun)
  pub order : List PodRun → List PodRun

unfoldable pub add_pod : PodRun → Option (List PodRun) → Option (List PodRun)
add_pod p none = none
add_pod p (some rest) = elim p.passes [
  | none ↦ none
  | some true ↦ some (p ∷ rest)
  | some false ↦ some rest
]

-- The pods that pass the filter; an error of the filter is an error of the whole.
unfoldable pub filter_pods : List PodRun → Option (List PodRun)
unfolding add_pod
filter_pods [] = some []
filter_pods (p ∷ ps) = add_pod p (filter_pods ps)

unfoldable pub get_pods_to_drain : Option (List PodRun) → Option (List PodRun)
unfolding filter_pods
get_pods_to_drain none = none
get_pods_to_drain (some pods) = filter_pods pods

-- The first error, if any. The inner `none` is nil; the outer one waits for a pod that never sends.
unfoldable pub collect : List (Option Eviction) → Option (Option DrainError)
collect [] = some none
collect (none ∷ rest) = none
collect (some e ∷ rest) =
    let later = collect rest in elim e.error [ none ↦ later | some err ↦ some (some err) ]

unfoldable pub is_draining : Option Taint → Bool
is_draining none = false
is_draining (some t) = str_eq t.value taint_draining

module _ (taints : TaintLib) (lib : PollLib) (step : ℕ → ℕ) (config : DrainerConfig) where
  unfoldable pub evict_pod : PodRun → Option Eviction
  evict_pod p = evict lib step config p.target p.rounds p.api p.endpoint p.fuel

  unfoldable pub drain_pods : NodeRun → Option (List PodRun) → Option (Option DrainError)
  unfolding collect evict_pod
  drain_pods run none = some (some (other "cannot get pods"))
  drain_pods run (some pods) = collect (map evict_pod (run.order pods))

  unfoldable pub drain_fresh : NodeRun → (name : String) → Got Node → Option (Option DrainError)
  unfolding drain_pods get_pods_to_drain is_draining
  drain_fresh run name missing = some (some (other "not found"))
  drain_fresh run name (get_error e) = some (some (other e))
  drain_fresh run name (found n) =
      if is_draining (get_nla_taint taints n)
      then drain_pods run (get_pods_to_drain run.pods)
      else some (some (node_has_not_draining_taint name))

  unfoldable pub drain : NodeRun → (name : String) → Option (Option DrainError)
  unfolding drain_fresh
  drain run name = if run.skip_drain then some none else drain_fresh run name run.fresh
