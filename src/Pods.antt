-- ===== src/Pods.antt =====
-- internal/kubernetes/podfilters.go, and the controller of a pod of util.go: GetControllerForPod,
-- GetAnnotationFromPodOrController and IsPodFromStatefulset. The parser of label selectors and
-- GetControllerOf are of other repositories: they are parameters.
pub mod Chain
mod Tests
use Prim.Native.Char.{code}
use Prim.Native.String.{◌++◌ as append}
use draino.Prelude.{
  ℕ, String, Bool, true, false, not, ◌&&◌, ◌||◌, List, [], ◌∷◌, ◌++◌, Option, none, some,
  if◌then◌else◌, ◌==◌, str_eq, any, Dict, lookup, lookup_text,
}
use draino.K8s.{Node, OwnerReference, Pod}

-- A StatefulSet or a Deployment.
pub record Controller : Type 0 where
  pub namespace : String
  pub name : String
  pub annotations : Dict String

pub data GotNode : Type 0 where
  node_found : Node → GotNode
  node_missing node_error : GotNode

-- RuntimeObjectStore, by what its listers answer; `none` is an error.
pub record RuntimeStore : Type 0 where
  pub stateful_sets : (namespace name : String) → Option Controller
  pub deployments : (namespace name : String) → Option Controller
  pub nodes : (name : String) → GotNode

pub data ControllerResult : Type 0 where
  has_controller : Controller → ControllerResult
  no_controller panics : ControllerResult

-- `r.Name[:strings.LastIndex(r.Name, "-")]`, which panics where there is no dash.
unfoldable pub before_last_dash : String → Option String
before_last_dash String.[] = none
before_last_dash (String.◌∷◌ c s) = elim (before_last_dash s) [
  | some p ↦ some (String.◌∷◌ c p)
  | none ↦ if code c == b'-' then some "" else none
]

unfoldable pub got_controller : Option Controller → ControllerResult
got_controller none = no_controller
got_controller (some c) = has_controller c

unfoldable pub controller_among :
    RuntimeStore → (namespace : String) → List OwnerReference → ControllerResult
unfolding got_controller
controller_among store namespace [] = no_controller
controller_among store namespace (r ∷ rs) =
    let rest = controller_among store namespace rs in
    if str_eq r.kind "StatefulSet"
    then got_controller (store.stateful_sets namespace r.name)
    else if str_eq r.kind "ReplicaSet"
    then elim (before_last_dash r.name) [
      | none ↦ panics
      | some name ↦ got_controller (store.deployments namespace name)
    ]
    else rest

unfoldable pub get_controller_for_pod : RuntimeStore → Pod → ControllerResult
unfolding controller_among
get_controller_for_pod store p = controller_among store p.namespace p.owner_references

pub data AnnotationResult : Type 0 where
  annotation : String → AnnotationResult
  no_annotation annotation_panics : AnnotationResult

unfoldable pub annotation_of : Option String → AnnotationResult
annotation_of none = no_annotation
annotation_of (some v) = annotation v

unfoldable pub get_annotation_from_pod_or_controller :
    RuntimeStore → (key : String) → Pod → AnnotationResult
unfolding annotation_of
get_annotation_from_pod_or_controller store key p = elim (lookup key p.annotations) [
  | some v ↦ annotation v
  | none ↦ elim (get_controller_for_pod store p) [
    | has_controller c ↦ annotation_of (lookup key c.annotations)
    | no_controller ↦ no_annotation
    | panics ↦ annotation_panics
  ]
]

unfoldable pub is_pod_from_statefulset : Pod → Bool
unfolding any
is_pod_from_statefulset p = any (λ r. str_eq r.kind "StatefulSet") p.owner_references

-- What a filter returns. A panic is that of GetControllerForPod.
pub data FilterResult : Type 0 where
  passes rejects : (reason : String) → FilterResult
  fails crashes : FilterResult

abbrev pub PodFilter : Type 0
PodFilter = Pod → FilterResult

unfoldable pub mirror_pod_filter : PodFilter
mirror_pod_filter p = elim (lookup "kubernetes.io/config.mirror" p.annotations) [
  | none ↦ passes ""
  | some v ↦ rejects "pod-mirror"
]

unfoldable pub local_storage_pod_filter : PodFilter
unfolding any
local_storage_pod_filter p =
    if any (λ is_empty_dir. is_empty_dir) p.empty_dir_volumes
    then rejects "pod-local-storage-emptydir"
    else passes ""

pub record ApiResource : Type 0 where
  pub kind : String
  pub group : String
  pub version : String

abbrev pub is_completed : Pod → Bool
is_completed p = str_eq p.phase "Succeeded" || str_eq p.phase "Failed"

abbrev pub is_controlled_by : ApiResource → OwnerReference → Bool
is_controlled_by r c =
    str_eq c.kind r.kind && str_eq c.api_version (append r.group (append "/" r.version))

-- A nil resource stands for a pod with no controller.
unfoldable pub new_pod_controlled_by_filter :
    (controller_of : Pod → Option OwnerReference)
    → (to_lower : String → String) → List (Option ApiResource)
    → PodFilter
new_pod_controlled_by_filter controller_of to_lower [] p = passes ""
new_pod_controlled_by_filter controller_of to_lower (none ∷ rs) p =
    let rest = new_pod_controlled_by_filter controller_of to_lower rs p in
    if is_completed p
    then rest
    else elim (controller_of p) [ none ↦ rejects "pod-uncontrolled" | some c ↦ rest ]
new_pod_controlled_by_filter controller_of to_lower (some r ∷ rs) p =
    let rest = new_pod_controlled_by_filter controller_of to_lower rs p in
    elim (controller_of p) [
      | none ↦ rest
      | some c ↦
          if is_controlled_by r c
          then rejects (append "pod-controlledby-" (to_lower r.kind))
          else rest
    ]

-- labels.Parse: a selector as the test of a set of labels, or an error.
module _ (parse : String → Option (Dict String → Bool)) (store : RuntimeStore) where
  -- The first annotation that the pod or its controller matches: what is found, or an error.
  unfoldable pub match_annotations : (check_controller : Bool) → List String → PodFilter
  match_annotations check_controller [] p = rejects ""
  match_annotations check_controller (annot ∷ annots) p =
      let rest = match_annotations check_controller annots p in
      elim (parse annot) [
        | none ↦ fails
        | some matches ↦
            if matches p.annotations
            then passes "pod-annotation"
            else if check_controller
            then elim (get_controller_for_pod store p) [
              | has_controller c ↦ if matches c.annotations then passes "ctrl-annotation" else rest
              | no_controller ↦ rest
              | panics ↦ crashes
            ]
            else rest
      ]

  unfoldable pub pod_or_controller_has_any_of_the_annotations : List String → PodFilter
  unfolding match_annotations
  pod_or_controller_has_any_of_the_annotations annots p = match_annotations true annots p

  unfoldable pub negated : FilterResult → FilterResult
  negated (passes reason) = rejects reason
  negated (rejects reason) = passes reason
  negated fails = fails
  negated crashes = crashes

  unfoldable pub pod_or_controller_has_none_of_the_annotations : List String → PodFilter
  unfolding pod_or_controller_has_any_of_the_annotations negated
  pod_or_controller_has_none_of_the_annotations annots p =
      negated (pod_or_controller_has_any_of_the_annotations annots p)

  unfoldable pub unprotected_pod_filter : (check_controller : Bool) → List String → PodFilter
  unfolding match_annotations negated
  unprotected_pod_filter check_controller annots p =
      negated (match_annotations check_controller annots p)

  unfoldable pub ignore_short_lived_pods : PodFilter → List String → PodFilter
  unfolding pod_or_controller_has_any_of_the_annotations
  ignore_short_lived_pods filter annots p =
      elim (pod_or_controller_has_any_of_the_annotations annots p) [
        | passes reason ↦ rejects "short-lived-pod"
        | rejects reason ↦ filter p
        | fails ↦ fails
        | crashes ↦ crashes
      ]

-- The filters in order, up to the first that does not pass.
unfoldable pub new_pod_filters : List PodFilter → PodFilter
new_pod_filters [] p = passes ""
new_pod_filters (f ∷ fs) p =
    let rest = new_pod_filters fs p in
    elim (f p) [
      | passes reason ↦ rest
      | rejects reason ↦ rejects reason
      | fails ↦ fails
      | crashes ↦ crashes
    ]

unfoldable pub with_opt_in_first : (opt_in filter : PodFilter) → PodFilter
with_opt_in_first opt_in filter p = elim (opt_in p) [
  | passes reason ↦ passes reason
  | rejects reason ↦ filter p
  | fails ↦ fails
  | crashes ↦ crashes
]

unfoldable pub ignore_completed_pods : PodFilter → PodFilter
ignore_completed_pods filter p = if is_completed p then passes "" else filter p

-- The text of the reason is left to `describe`.
unfoldable pub no_stateful_set_on_node_without_disk :
    RuntimeStore → (describe : Pod → String) → PodFilter
unfolding is_pod_from_statefulset
no_stateful_set_on_node_without_disk store describe p =
    if not (is_pod_from_statefulset p) || str_eq p.node_name ""
    then passes ""
    else elim (store.nodes p.node_name) [
      | node_missing ↦ passes ""
      | node_error ↦ fails
      | node_found n ↦
          if str_eq (lookup_text "node-lifecycle.datadoghq.com/enabled" n.labels) "true"
          then passes ""
          else if str_eq (lookup_text "nodegroups.datadoghq.com/local-storage" n.labels) "false"
          then rejects (describe p)
          else passes ""
    ]

-- cmd/draino/draino.go, the filter of the drainer and that of the candidates.
pub record FilterOptions : Type 0 where
  pub evict_local_storage_pods : Bool
  pub do_not_evict_pod_controlled_by : List (Option ApiResource)
  pub protected_pod_annotations : List String
  pub opt_in_pod_annotations : List String
  pub short_lived_pod_annotations : List String
  pub candidate_local_storage_pods : Bool
  pub do_not_candidate_pod_controlled_by : List (Option ApiResource)
  pub candidate_protected_pod_annotations : List String
  pub exclude_stateful_set_on_node_without_storage : Bool

abbrev pub only_if : Bool → PodFilter → List PodFilter
only_if true f = f ∷ []
only_if false f = []

abbrev pub has_some : {A : Type 0} → List A → Bool
has_some [] = false
has_some (x ∷ xs) = true

module _ (parse : String → Option (Dict String → Bool)) (store : RuntimeStore)
    (controller_of : Pod → Option OwnerReference) (to_lower : String → String)
    (describe : Pod → String) (options : FilterOptions) where
  unfoldable pub eviction_filters : List PodFilter
  unfolding mirror_pod_filter local_storage_pod_filter new_pod_controlled_by_filter
      unprotected_pod_filter
  eviction_filters =
      (mirror_pod_filter ∷ only_if (not options.evict_local_storage_pods) local_storage_pod_filter)
      ++ (only_if (has_some options.do_not_evict_pod_controlled_by) (
            new_pod_controlled_by_filter controller_of to_lower
              options.do_not_evict_pod_controlled_by)
          ++ (unprotected_pod_filter parse store false (
                "cluster-autoscaler.kubernetes.io/safe-to-evict=false"
                ∷ options.protected_pod_annotations)
              ∷ []))

  unfoldable pub candidate_filters : List PodFilter
  unfolding local_storage_pod_filter new_pod_controlled_by_filter unprotected_pod_filter
      no_stateful_set_on_node_without_disk
  candidate_filters =
      only_if (not options.candidate_local_storage_pods) local_storage_pod_filter
      ++ (only_if (has_some options.do_not_candidate_pod_controlled_by) (
            new_pod_controlled_by_filter controller_of to_lower
              options.do_not_candidate_pod_controlled_by)
          ++ (unprotected_pod_filter parse store true options.candidate_protected_pod_annotations
              ∷ only_if options.exclude_stateful_set_on_node_without_storage
                  (no_stateful_set_on_node_without_disk store describe)))

  unfoldable pub opt_in_filter : PodFilter
  unfolding pod_or_controller_has_any_of_the_annotations
  opt_in_filter =
      pod_or_controller_has_any_of_the_annotations parse store
        (options.opt_in_pod_annotations ++ options.short_lived_pod_annotations)

  unfoldable pub drainer_skip_pod_filter : PodFilter
  unfolding ignore_completed_pods ignore_short_lived_pods with_opt_in_first new_pod_filters
      eviction_filters opt_in_filter
  drainer_skip_pod_filter = ignore_completed_pods (
      ignore_short_lived_pods parse store
        (with_opt_in_first opt_in_filter (new_pod_filters eviction_filters))
        options.short_lived_pod_annotations)

  unfoldable pub pod_filtering_func : PodFilter
  unfolding ignore_completed_pods with_opt_in_first new_pod_filters candidate_filters opt_in_filter
  pod_filtering_func =
      ignore_completed_pods (with_opt_in_first opt_in_filter (new_pod_filters candidate_filters))
