-- ===== src/WarmUp.antt =====
-- internal/kubernetes/analyser/pdb_analyser.go: whether a pod that is not ready is still starting,
-- in which case CompareNode does not count it, and the list of the pods that block a budget.
pub mod Delay
mod Tests
use draino.Prelude.{
  ℕ, suc, ◌-◌, ◌%◌, ◌^◌, String, Bool, true, false, not, ◌&&◌, ◌||◌, List, [], ◌∷◌, ◌++◌, Option,
  none, some, if◌then◌else◌, str_eq, Dict, lookup, insert, ℤ, pos, negsuc, ◌+ℤ◌, ◌-ℤ◌, ◌*ℤ◌, ltb,
  ltb_ℤ, any, all, map,
}
use draino.K8s.{Time, Duration, second}
use draino.Sorters.{BlockingPod}

-- The fields of an int32 are integers in its range.
pub record Probe : Type 0 where
  pub initial_delay_seconds : ℤ
  pub period_seconds : ℤ
  pub success_threshold : ℤ

pub record Container : Type 0 where
  pub name : String
  pub startup_probe : Option Probe
  pub liveness_probe : Option Probe

-- The reason of a waiting container, the start of a running one, and whether it is or was
-- terminated.
pub record ContainerStatus : Type 0 where
  pub name : String
  pub restart_count : ℤ
  pub waiting : Option String
  pub running : Option Time
  pub terminated : Bool
  pub last_terminated : Bool

pub record StartingPod : Type 0 where
  pub phase : String
  pub containers : List Container
  pub ephemeral_container_statuses : List ContainerStatus
  pub init_container_statuses : List ContainerStatus
  pub container_statuses : List ContainerStatus

-- An int32 by its 32 bits.
unfoldable pub wrap_int32 : ℤ → ℤ
wrap_int32 (pos n) =
    if ltb (n % 2 ^ 32) (2 ^ 31) then pos (n % 2 ^ 32) else pos (n % 2 ^ 32) -ℤ pos (2 ^ 32)
wrap_int32 (negsuc n) =
    let bits = 2 ^ 32 - 1 - n % 2 ^ 32 in
    if ltb bits (2 ^ 31) then pos bits else pos bits -ℤ pos (2 ^ 32)

-- The sum and the product are taken in int32 before the conversion to a duration.
unfoldable pub get_probe_delay : Probe → Duration
get_probe_delay p =
    wrap_int32 (p.initial_delay_seconds +ℤ wrap_int32 (p.period_seconds *ℤ p.success_threshold))
    *ℤ pos second

unfoldable pub get_max_probe_delay : (max : Duration) → List (Option Probe) → Duration
get_max_probe_delay max [] = max
get_max_probe_delay max (none ∷ ps) = get_max_probe_delay max ps
get_max_probe_delay max (some p ∷ ps) =
    get_max_probe_delay (if ltb_ℤ max (get_probe_delay p) then get_probe_delay p else max) ps

unfoldable pub get_container_warm_up_delay : Container → Duration
get_container_warm_up_delay c =
    get_max_probe_delay (pos 0) (c.startup_probe ∷ c.liveness_probe ∷ [])

-- The delays by the names of the containers, of which the last one counts.
unfoldable pub warm_up_delays : Dict Duration → List Container → Dict Duration
warm_up_delays m [] = m
warm_up_delays m (c ∷ cs) = warm_up_delays (insert c.name (get_container_warm_up_delay c) m) cs

unfoldable pub delay_of : Dict Duration → String → Duration
delay_of m name = elim (lookup name m) [ none ↦ pos 0 | some d ↦ d ]

unfoldable pub max_restarts : (max : ℤ) → List ContainerStatus → ℤ
max_restarts max [] = max
max_restarts max (c ∷ cs) =
    max_restarts (if ltb_ℤ max c.restart_count then c.restart_count else max) cs

unfoldable pub get_max_restart_count : StartingPod → ℤ
get_max_restart_count p =
    max_restarts
      (max_restarts (max_restarts (pos 0) p.ephemeral_container_statuses) p.init_container_statuses)
      p.container_statuses

abbrev pub failure_reasons : List String
failure_reasons =
    "ErrImagePullBackOff" ∷ "ImageInspectError" ∷ "ErrImagePull" ∷ "ErrImageNeverPull"
    ∷ "InvalidImageName" ∷ "RegistryUnavailable" ∷ "CrashLoopBackOff" ∷ []

unfoldable pub has_failed : ContainerStatus → Bool
has_failed c = elim c.waiting [
  | none ↦ false
  | some reason ↦ any (λ r. str_eq reason r) failure_reasons
]

unfoldable pub has_image_failure_or_clb_container : StartingPod → Bool
has_image_failure_or_clb_container p =
    any has_failed p.container_statuses
    || any has_failed p.init_container_statuses
    || any has_failed p.ephemeral_container_statuses

abbrev pub is_running : ContainerStatus → Bool
is_running c = elim c.running [ none ↦ false | some t ↦ true ]

unfoldable pub all_main_containers_have_started_at_least_once : StartingPod → Bool
all_main_containers_have_started_at_least_once p =
    all (λ c. c.last_terminated || is_running c || c.terminated) p.container_statuses

-- A container that runs and has not been given its delay.
unfoldable pub is_starting :
    (delays : Dict Duration) → (extension : Duration) → (now : Time) → ContainerStatus → Bool
is_starting delays extension now c = elim c.running [
  | none ↦ false
  | some started_at ↦
      not c.terminated && ltb_ℤ now (started_at +ℤ delay_of delays c.name +ℤ extension)
]

unfoldable pub is_warming_up_pod : (extension : Duration) → (now : Time) → StartingPod → Bool
is_warming_up_pod extension now p =
    if str_eq p.phase "Failed" || str_eq p.phase "Succeeded"
    then false
    else if has_image_failure_or_clb_container p
    then false
    else if str_eq p.phase "Pending" && ltb_ℤ (pos 2) (get_max_restart_count p)
    then false
    else if not (str_eq p.phase "Running")
    then true
    else if not (all_main_containers_have_started_at_least_once p)
    then true
    else any (is_starting (warm_up_delays [] p.containers) extension now) p.container_statuses

-- A pod of the index, whether it is ready, and the budgets that it blocks, by namespace and name;
-- `none` is an error of their index.
pub record IndexedPod : Type 0 where
  pub pod : String
  pub is_ready : Bool
  pub pdbs : Option (List String)

unfoldable pub add_blocking :
    IndexedPod → (rest : Option (List BlockingPod)) → Option (List BlockingPod)
add_blocking p none = none
add_blocking p (some bs) = elim p.pdbs [
  | none ↦ none
  | some pdbs ↦ some (map (λ pdb. record { pod = p.pod; pdb = pdb }) pdbs ++ bs)
]

-- `none` is the error of either index, on which the function returns.
unfoldable pub blocking_pods_on_node : Option (List IndexedPod) → Option (List BlockingPod)
blocking_pods_on_node none = none
blocking_pods_on_node (some []) = some []
blocking_pods_on_node (some (p ∷ ps)) =
    let rest = blocking_pods_on_node (some ps) in if p.is_ready then rest else add_blocking p rest
