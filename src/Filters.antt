-- ===== src/Filters.antt =====
-- internal/candidate_runner/filters: filters.go, composite.go, factory.go and the filters that the
-- factory lists; with the offending conditions of internal/kubernetes/conditions.go. Each filter
-- reads its collaborators through arguments: the clock, the object store's pods and the pod filter,
-- the label function, the stability checker, the global blocker and the volume protector.
mod Agreement
mod Tests
use draino.Prelude.{
  ℕ, String, Bool, true, false, not, ◌&&◌, ◌||◌, List, [], ◌∷◌, ◌++◌, Option, none, some,
  if◌then◌else◌, str_eq, lookup, ltb_ℤ, eq_ℤ, ◌-ℤ◌, any, map, keep_if,
}
use Prim.Native.String.{◌++◌ as append}
use draino.Prelude.Texts.{join, split}
use draino.K8s.{Time, Duration, time_zero, Node, Condition, Pod}
use draino.Retry.Wall.{RetryWall, get_retry_wall_timestamp}
use draino.DrainBuffer.{DrainBuffer, next_drain}

pub record CheckOutput : Type 0 where
  pub filter_name : String
  pub keep : Bool
  pub reason : String

pub record FilterOutput : Type 0 where
  pub keep : Bool
  pub checks : List CheckOutput

unfoldable pub failing_checks : List CheckOutput → List CheckOutput
failing_checks [] = []
failing_checks (c ∷ cs) = let rest = failing_checks cs in if c.keep then rest else c ∷ rest

unfoldable pub only_failing_checks : FilterOutput → FilterOutput
unfolding failing_checks
only_failing_checks f =
    if f.keep
    then record { keep = true; checks = [] }
    else record { keep = false; checks = failing_checks f.checks }

-- genericFilterFromFunc: a name and a function with a reason.
pub record Filter : Type 0 where
  pub name : String
  pub f : Node → Bool × String

unfoldable pub filter_node : Filter → Node → FilterOutput
filter_node g n = record {
  keep = (g.f n).0;
  checks = record { filter_name = g.name; keep = (g.f n).0; reason = (g.f n).1 } ∷ [];
}

unfoldable pub filter_list : Filter → List Node → List Node
filter_list g [] = []
filter_list g (n ∷ ns) = let rest = filter_list g ns in if (g.f n).0 then n ∷ rest else rest

abbrev pub is_empty : List Node → Bool
is_empty [] = true
is_empty (n ∷ ns) = false

-- CompositeFilter.Filter, which stops when no node is left.
unfoldable pub filter_all : List Filter → List Node → List Node
unfolding filter_list
filter_all [] nodes = nodes
filter_all (f ∷ fs) nodes =
    let kept = filter_list f nodes in
    let rest = filter_all fs kept in if is_empty kept then kept else rest

-- CompositeFilter.FilterNode, from the flag and the checks so far.
unfoldable pub filter_node_from : Bool → List CheckOutput → List Filter → Node → FilterOutput
unfolding filter_node
filter_node_from keep checks [] n = record { keep = keep; checks = checks }
filter_node_from keep checks (f ∷ fs) n =
    let out = filter_node f n in filter_node_from (keep && out.keep) (checks ++ out.checks) fs n

unfoldable pub filter_node_all : List Filter → Node → FilterOutput
unfolding filter_node_from
filter_node_all fs n = filter_node_from true [] fs n

-- CompositeFilter.Name, where it is not cached.
unfoldable pub composite_name : List Filter → String
composite_name fs = join "|" (map (λ f. f.name) fs)

-- FilterFromFunction.
unfoldable pub filter_from_function : String → (Node → Bool) → Filter
filter_from_function name f = record { name = name; f = λ n. (f n, "") }

pub record SuppliedCondition : Type 0 where
  pub kind : String
  pub status : String
  pub parsed_delay : Duration
  pub parsed_expected_resolution_time : Duration

abbrev pub matches_since : SuppliedCondition → Duration → Time → Condition → Bool
matches_since s delay now c =
    str_eq s.kind c.kind
    && str_eq s.status c.status
    && not (ltb_ℤ (now -ℤ c.last_transition_time) delay)

-- Once for each condition of the node that matches.
unfoldable pub offending : SuppliedCondition → Time → List Condition → List SuppliedCondition
offending s now [] = []
offending s now (c ∷ cs) =
    let rest = offending s now cs in if matches_since s s.parsed_delay now c then s ∷ rest else rest

unfoldable pub get_node_offending_conditions :
    Time → Node → List SuppliedCondition → List SuppliedCondition
unfolding offending
get_node_offending_conditions now n [] = []
get_node_offending_conditions now n (s ∷ ss) =
    offending s now n.conditions ++ get_node_offending_conditions now n ss

unfoldable pub is_overdue : Time → Node → SuppliedCondition → Bool
is_overdue now n s = any (matches_since s s.parsed_expected_resolution_time now) n.conditions

unfoldable pub get_conditions_types : List SuppliedCondition → List String
get_conditions_types conditions = map (λ c. c.kind) conditions

abbrev pub allowed_condition_key : String
allowed_condition_key = "node-lifecycle.datadoghq.com/allowed-conditions"

unfoldable pub at_least_one_condition_accepted : List String → Node → Bool
at_least_one_condition_accepted conditions n = elim (lookup allowed_condition_key n.annotations) [
  | none ↦ true
  | some allowed ↦ any (λ a. any (λ c. str_eq c a) conditions) (split b',' allowed)
]

unfoldable pub condition_filter : Time → List SuppliedCondition → Filter
condition_filter now conditions = record {
  name = "conditions";
  f = λ n. elim (get_node_offending_conditions now n conditions) [
    | [] ↦ (false, "no_condition")
    | bad ∷ bads ↦
        if at_least_one_condition_accepted (get_conditions_types (bad ∷ bads)) n
        then (true, "")
        else (false, "no_allowed_condition")
  ];
}

-- What the pod filter answers for a pod: an error, or whether it passes, with a reason.
pub data PodAnswer : Type 0 where
  pod_error : PodAnswer
  pod_answer : Bool → String → PodAnswer

unfoldable pub all_pods : (Pod → PodAnswer) → List Pod → Bool × String
all_pods pod_filter [] = (true, "")
all_pods pod_filter (p ∷ ps) =
    let rest = all_pods pod_filter ps in
    elim (pod_filter p) [
      | pod_error ↦ (false, "filter_error")
      | pod_answer ok reason ↦ if ok then rest else (false, reason)
    ]

-- `store` is `none` where the filter function, the object store or its pods are nil; else it answers
-- with an error or with the pods of a node.
unfoldable pub pod_filter : Option (Node → Option (List Pod)) → (Pod → PodAnswer) → Filter
unfolding all_pods
pod_filter none answer = record { name = "pods"; f = λ n. (false, "bad_filter_initialization") }
pod_filter (some list_pods) answer = record {
  name = "pods";
  f = λ n. elim (list_pods n) [ none ↦ (false, "store_error") | some pods ↦ all_pods answer pods ];
}

unfoldable pub retry_filter : RetryWall → Time → Filter
retry_filter wall now =
    filter_from_function "retry" (λ n. ltb_ℤ (get_retry_wall_timestamp wall n) now)

unfoldable pub terminating_filter : Filter
terminating_filter =
    filter_from_function "node_terminating"
      (λ n. elim n.deletion_timestamp [ none ↦ true | some t ↦ eq_ℤ t time_zero ])

unfoldable pub stability_filter : (Node → Time → Bool) → Time → Filter
stability_filter accepts_drain now =
    filter_from_function "stability_period" (λ n. accepts_drain n now)

unfoldable pub label_filter : (Node → Bool) → Filter
label_filter node_labels = filter_from_function "labels" node_labels

unfoldable pub drain_buffer_filter : DrainBuffer → (get_group_key : Node → String) → Time → Filter
drain_buffer_filter buffer get_group_key now = record {
  name = "drain_buffer";
  f = λ n. elim (next_drain (get_group_key n) buffer) [
    | none ↦ (false, "drain buffer was not initialized yet")
    | some t ↦ if ltb_ℤ t now then (true, "") else (false, "drain buffer is not respected")
  ];
}

unfoldable pub global_blocker_filter : Bool × String → Filter
global_blocker_filter blocked = record {
  name = "globalBlocker";
  f = λ n. (not blocked.0, blocked.1);
}

-- `none` is the protector's error, else the names of the pods.
unfoldable pub pvc_bound_filter :
    (Node → Option (List String)) → (error_text : Node → String) → Filter
pvc_bound_filter pods_of error_text = record {
  name = "pvcBound";
  f = λ n. elim (pods_of n) [
    | none ↦ (false, append "fail to check pvcBound: " (error_text n))
    | some [] ↦ (true, "")
    | some (p ∷ ps) ↦ (false, append "pvcProtection triggered for pods: " (join "; " (p ∷ ps)))
  ];
}

-- The collaborators of the filters, as they answer at one time.
pub record Config : Type 0 where
  pub now : Time
  pub supplied_conditions : List SuppliedCondition
  pub node_labels : Node → Bool
  pub list_pods : Option (Node → Option (List Pod))
  pub pod_answer_of : Pod → PodAnswer
  pub wall : RetryWall
  pub accepts_drain : Node → Time → Bool
  pub buffer : DrainBuffer
  pub group_key : Node → String
  pub blocked : Bool × String
  pub pods_by_volume : Node → Option (List String)
  pub error_text : Node → String

unfoldable pub build_candidate_filter : Config → List Filter
build_candidate_filter c =
    condition_filter c.now c.supplied_conditions
    ∷ label_filter c.node_labels
    ∷ pod_filter c.list_pods c.pod_answer_of
    ∷ retry_filter c.wall c.now
    ∷ terminating_filter
    ∷ stability_filter c.accepts_drain c.now
    ∷ drain_buffer_filter c.buffer c.group_key c.now
    ∷ global_blocker_filter c.blocked
    ∷ pvc_bound_filter c.pods_by_volume c.error_text
    ∷ []
