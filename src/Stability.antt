-- ===== src/Stability.antt =====
-- internal/kubernetes/analyser/stability_period.go: whether the disruption budgets of a node's pods
-- have been stable for long enough. The index, the pod filter and the parser of durations are asked
-- through arguments; a map that is ranged over is a list in the order of that run.
pub mod Judgement
pub mod Settled
pub mod Caching
pub mod History
mod Tests
use Prim.Native.String.{◌++◌ as append}
use draino.Prelude.{
  ℕ, ◌+◌, ◌-◌, ◌*◌, String, Bool, true, false, not, ◌&&◌, ◌||◌, List, [], ◌∷◌, ◌++◌, Option, none,
  some, map, if◌then◌else◌, str_eq, Dict, lookup, insert, delete, all, keep_if, ℤ, pos, negsuc,
  ◌+ℤ◌, ltb_ℤ, eq_ℤ,
}
use draino.Prelude.Texts.{join}
use draino.K8s.{Time, Duration, time_zero, minute, Node, Pod, Condition}
use draino.Pods.{
  RuntimeStore, Controller, ControllerResult, has_controller, no_controller, panics,
  get_controller_for_pod,
}

pub record StabilityPeriodInfo : Type 0 where
  pub length : Duration
  pub source_type : String
  pub source_name : String

pub record RecoveryEstimationDate : Type 0 where
  pub estimated_recovery : Time
  pub ttl : Time

pub record Configuration : Type 0 where
  pub default_stability_period : Duration
  pub estimated_recovery_record_ttl : Duration
  pub cache_cleanup_period : Duration

abbrev or_default : Option Duration → Duration → Duration
or_default none duration = duration
or_default (some d) duration = d

-- By the three pointers of StabilityPeriodCheckerConfiguration.
unfoldable pub apply_default : (period ttl cleanup : Option Duration) → Configuration
apply_default period ttl cleanup = record {
  default_stability_period = or_default period (negsuc (60 * minute - 1));
  estimated_recovery_record_ttl = or_default ttl (pos (15 * minute));
  cache_cleanup_period = or_default cleanup (pos (3 * minute));
}

-- One pass of runCacheCleanup.
unfoldable pub cleanup : Time → Dict RecoveryEstimationDate → Dict RecoveryEstimationDate
unfolding keep_if
cleanup now cache =
    keep_if (λ e. not (ltb_ℤ (e.1).estimated_recovery now || ltb_ℤ (e.1).ttl now)) cache

abbrev pub stability_period_key : String
stability_period_key = "node-lifecycle.datadoghq.com/stability-period"

module _ (parse_duration : String → Option Duration) (store : RuntimeStore) where
  -- What is found, `none` for an annotation that is missing or cannot be parsed.
  unfoldable pub configuration_from_annotation : Dict String → Option Duration
  configuration_from_annotation annotations = elim (lookup stability_period_key annotations) [
    | none ↦ none
    | some s ↦ parse_duration s
  ]

  unfoldable pub node_period : Configuration → Node → StabilityPeriodInfo
  unfolding configuration_from_annotation
  node_period config n = elim (configuration_from_annotation n.annotations) [
    | some d ↦ record { length = d; source_type = "user/node"; source_name = n.name }
    | none ↦ record {
      length = config.default_stability_period;
      source_type = "default/node";
      source_name = n.name;
    }
  ]

  -- The controller is asked where the pod says nothing. A panic of GetControllerForPod is left out.
  unfoldable pub pod_period : Pod → Option StabilityPeriodInfo
  unfolding configuration_from_annotation
  pod_period p = elim (configuration_from_annotation p.annotations) [
    | some d ↦ some (record {
      length = d;
      source_type = "user/pod";
      source_name = append p.namespace (append "/" p.name);
    })
    | none ↦ elim (get_controller_for_pod store p) [
      | no_controller ↦ none
      | panics ↦ none
      | has_controller c ↦ elim (configuration_from_annotation c.annotations) [
        | none ↦ none
        | some d ↦ some (record {
          length = d;
          source_type = "user/controller";
          source_name = append c.namespace (append "/" c.name);
        })
      ]
    ]
  ]

  -- A pod's own period counts only if it is longer than that of the node.
  unfoldable pub longer : StabilityPeriodInfo → Option StabilityPeriodInfo → StabilityPeriodInfo
  longer of_node none = of_node
  longer of_node (some of_pod) = if ltb_ℤ of_node.length of_pod.length then of_pod else of_node

  unfoldable pub periods_from :
      (pod_key : Pod → String)
      → StabilityPeriodInfo
      → List Pod
      → Dict StabilityPeriodInfo
      → Dict StabilityPeriodInfo
  unfolding longer pod_period
  periods_from pod_key of_node [] periods = periods
  periods_from pod_key of_node (p ∷ ps) periods =
      periods_from pod_key of_node ps (insert (pod_key p) (longer of_node (pod_period p)) periods)

  -- No period at all where the index fails.
  unfoldable pub get_stability_periods_configurations :
      (pod_key : Pod → String) → Configuration → Node → Option (List Pod) → Dict StabilityPeriodInfo
  unfolding periods_from node_period
  get_stability_periods_configurations pod_key config n pods = elim pods [
    | none ↦ []
    | some ps ↦ periods_from pod_key (node_period config n) ps []
  ]

-- A pod disruption budget.
pub record Budget : Type 0 where
  pub name : String
  pub creation_timestamp : Time
  pub conditions : List Condition

-- The latest change seen so far, with the budget that it is of.
pub record Latest : Type 0 where
  pub stable_since : Time
  pub disrupted_pdb : Option Budget

unfoldable pub later : Budget → Time → Latest → Latest
later b when l =
    if ltb_ℤ l.stable_since when then record { stable_since = when; disrupted_pdb = some b } else l

-- The conditions of one budget: `none` if a disruption is not allowed, the flag if one was found.
unfoldable pub latest_of_conditions :
    Budget → List Condition → Bool → Latest → Option (Bool × Latest)
unfolding later
latest_of_conditions b [] was_found l = some (was_found, l)
latest_of_conditions b (c ∷ cs) was_found l =
    let is_it = str_eq c.kind "DisruptionAllowed" in
    let when =
      if eq_ℤ c.last_transition_time time_zero
      then b.creation_timestamp
      else c.last_transition_time in
    let rest =
      latest_of_conditions b cs (if is_it then true else was_found)
        (if is_it then later b when l else l) in
    if is_it && str_eq c.status "False" then none else rest

unfoldable pub latest_disruption : List Budget → Latest → Option Latest
unfolding latest_of_conditions later
latest_disruption [] l = some l
latest_disruption (b ∷ bs) l = elim (latest_of_conditions b b.conditions false l) [
  | none ↦ none
  | some (was_found, l') ↦
      latest_disruption bs (if was_found then l' else later b b.creation_timestamp l')
]

unfoldable pub get_latest_disruption : List Budget → Option Latest
unfolding latest_disruption
get_latest_disruption bs =
    latest_disruption bs (record { stable_since = time_zero; disrupted_pdb = none })

-- What the budgets of one pod come to.
pub data Verdict : Type 0 where
  ignored blocks : Verdict
  recovers_at : Time → Verdict

unfoldable pub verdict_of_latest : (length : Duration) → Option Latest → Verdict
verdict_of_latest length none = blocks
verdict_of_latest length (some l) = elim l.disrupted_pdb [
  | none ↦ blocks
  | some b ↦
      if eq_ℤ l.stable_since time_zero then blocks else recovers_at (l.stable_since +ℤ length)
]

-- A pod with no period has the length zero.
unfoldable pub verdict : Dict StabilityPeriodInfo → String × List Budget → Verdict
unfolding verdict_of_latest
verdict periods (pod_key, bs) =
    let length : Duration = elim (lookup pod_key periods) [ none ↦ pos 0 | some i ↦ i.length ] in
    if ltb_ℤ length (pos 0) then ignored else verdict_of_latest length (get_latest_disruption bs)

-- `recorded` is the estimate that was last put into the cache.
pub record Judged : Type 0 where
  pub can_drain : Bool
  pub latest_recover : Time
  pub recorded : Option Time

unfoldable pub noted : (now t : Time) → Judged → Judged
noted now t st =
    if ltb_ℤ now t && ltb_ℤ st.latest_recover t
    then record { can_drain = false; latest_recover = t; recorded = some t }
    else st

unfoldable pub judge : Time → List Verdict → Judged → Judged
unfolding noted
judge now [] st = st
judge now (ignored ∷ vs) st = judge now vs st
judge now (blocks ∷ vs) st = record st { can_drain = false }
judge now (recovers_at t ∷ vs) st = judge now vs (noted now t st)

abbrev pub unjudged : Judged
unjudged = record { can_drain = true; latest_recover = time_zero; recorded = none }

-- buildNodePodsCacheKey, by sort.Strings and Duration.String; `none` is an error.
unfoldable pub pod_parts :
    (pod_key : Pod → String)
    → (show : Duration → String) → Dict StabilityPeriodInfo
    → List Pod
    → Option (List String)
pod_parts pod_key show periods [] = some []
pod_parts pod_key show periods (p ∷ ps) =
    let rest = pod_parts pod_key show periods ps in
    elim (lookup (pod_key p) periods) [
      | none ↦ none
      | some i ↦ elim rest [ none ↦ none | some l ↦ some (append p.uid (show i.length) ∷ l) ]
    ]

unfoldable pub build_node_pods_cache_key :
    (sort : List String → List String) → (node_uid : String) → Option (List String) → Option String
build_node_pods_cache_key sort node_uid none = none
build_node_pods_cache_key sort node_uid (some parts) =
    some (append node_uid (append "#" (join "#" (sort parts))))

-- What a call meets: the cache key, and the budgets of each pod; `none` is an error of the index,
-- of the filter or of the key.
pub record Call : Type 0 where
  pub cache_key : Option String
  pub periods : Dict StabilityPeriodInfo
  pub budgets : Option (List (String × List Budget))

-- The entry of a key is still to come.
unfoldable pub is_recovering : Time → Option RecoveryEstimationDate → Bool
is_recovering now none = false
is_recovering now (some r) = ltb_ℤ now r.estimated_recovery

unfoldable pub record_estimate :
    (ttl : Time) → String → Option Time → Dict RecoveryEstimationDate → Dict RecoveryEstimationDate
record_estimate ttl key none cache = cache
record_estimate ttl key (some t) cache =
    insert key (record { estimated_recovery = t; ttl = ttl }) cache

unfoldable pub conclude :
    Configuration
    → (key : String) → Time
    → Option (List Verdict)
    → Dict RecoveryEstimationDate
    → Bool × Dict RecoveryEstimationDate
unfolding judge record_estimate
conclude config key now none cache = (false, cache)
conclude config key now (some vs) cache =
    let j = judge now vs unjudged in
    (
      j.can_drain,
      record_estimate (now +ℤ config.estimated_recovery_record_ttl) key j.recorded cache,
    )

unfoldable pub accept_by_key :
    Configuration
    → Option String
    → Time
    → Option (List Verdict)
    → Dict RecoveryEstimationDate
    → Bool × Dict RecoveryEstimationDate
unfolding conclude is_recovering
accept_by_key config none now verdicts cache = (false, cache)
accept_by_key config (some key) now verdicts cache =
    if is_recovering now (lookup key cache)
    then (false, cache)
    else conclude config key now verdicts cache

unfoldable pub verdicts : Call → Option (List Verdict)
unfolding verdict
verdicts call = elim call.budgets [
  | none ↦ none
  | some pods ↦ some (map (verdict call.periods) pods)
]

-- The answer, and the cache.
unfoldable pub stability_period_accepts_drain :
    Configuration → Call → Time → Dict RecoveryEstimationDate → Bool × Dict RecoveryEstimationDate
unfolding accept_by_key verdicts
stability_period_accepts_drain config call now cache =
    accept_by_key config call.cache_key now (verdicts call) cache
