-- ===== src/PreProcessors.antt =====
-- internal/drain_runner/pre_processor: what must be done on a node before it is drained.
mod Outcomes
pub mod Reset
mod Tests
use draino.Prelude.{
  ℕ, String, Bool, true, false, not, ◌&&◌, ◌||◌, List, [], ◌∷◌, ◌++◌, Option, none, some,
  if◌then◌else◌, str_eq, lookup, lookup_text, insert, delete, Dict, ltb_ℤ, ◌-ℤ◌, ◌+ℤ◌, map,
}
use draino.K8s.{Time, Duration, Node, Taint}
use draino.Taints.{TaintLib, taint_drain_candidate, get_nla_taint}
use draino.DrainRunner.{Done}

abbrev pub done : Done
done = record { is_done = true; reason = ""; failed = false }

abbrev pub error : String → Done
error reason = record { is_done = false; reason = reason; failed = true }

abbrev pub not_done : String → Done
not_done reason = record { is_done = false; reason = reason; failed = false }

abbrev pub processing : String
processing = "processing"

abbrev pub timeout : String
timeout = "timeout"

abbrev pub failure : String
failure = "pre_processing_failure"

-- WaitTimePreprocessor.IsDone.
unfoldable pub wait_time : TaintLib → Duration → Time → Node → Done
wait_time lib wait_for now n = elim (get_nla_taint lib n) [
  | none ↦ error ""
  | some taint ↦
      if not (str_eq taint.value taint_drain_candidate) then done else elim taint.time_added [
        | none ↦ error processing
        | some added ↦ record {
          is_done = ltb_ℤ (added +ℤ wait_for) now;
          reason = processing;
          failed = false;
        }
      ]
]

abbrev pub replace_request_key : String
replace_request_key = "node.datadoghq.com/replace"

-- TriggerNodeReplacement: the node, and whether there was an error.
unfoldable pub trigger_node_replacement : (patch_fails : Bool) → Node → Node × Bool
trigger_node_replacement patch_fails n = elim (lookup replace_request_key n.labels) [
  | some _ ↦ (n, false)
  | none ↦
      if patch_fails
      then (n, true)
      else (record n { labels = insert replace_request_key "requested" n.labels }, false)
]

unfoldable pub reset_replacement : (patch_fails : Bool) → Node → Node
reset_replacement patch_fails n =
    if patch_fails then n else record n { labels = delete replace_request_key n.labels }

-- NodeReplacer.IsDone.
unfoldable pub replacement_state : Node → Done
replacement_state n =
    let state = lookup_text replace_request_key n.labels in
    if str_eq state "done"
    then done
    else if str_eq state "failed"
    then not_done failure
    else not_done processing

abbrev pub preprovisioning_key : String
preprovisioning_key = "node-lifecycle.datadoghq.com/provision-new-node-before-drain"

unfoldable pub has_preprovisioning_annotation : Node → (all_nodes_by_default : Bool) → Bool
has_preprovisioning_annotation n all_nodes_by_default =
    let value = lookup_text preprovisioning_key n.annotations in
    str_eq value "true" || (all_nodes_by_default && not (str_eq value "false"))

-- NodeReplacementPreProcessor.IsDone: the node that is left, and the answer.
unfoldable pub node_replacement : (all_nodes_by_default patch_fails : Bool) → Node → Node × Done
unfolding trigger_node_replacement
node_replacement all_nodes_by_default patch_fails n =
    let r = trigger_node_replacement patch_fails n in
    if not (has_preprovisioning_annotation n all_nodes_by_default)
    then (n, done)
    else if r.1
    then (n, error "")
    else (r.0, replacement_state r.0)

-- One activity, under its key.
pub record PreActivity : Type 0 where
  pub annotation : String
  pub state : String
  pub timeout : Duration
  pub source_object : String

-- A result of the search for an annotation, with the key that keyFromMetadataSearchResultItem makes
-- and the object that holds the annotation, by its id.
pub record Found (T : Type 0) : Type 0 where
  pub source : String
  pub key : String
  pub annotation : String
  pub value : T
  pub on_controller : Bool

unfoldable pub pre_activity_state_converter : String → Option String
pre_activity_state_converter val =
    if str_eq val "" || str_eq val "processing" || str_eq val "failed" || str_eq val "done"
    then some val
    else none

unfoldable pub add_states : Duration → List (Found String) → Dict PreActivity → Dict PreActivity
add_states default_timeout [] m = m
add_states default_timeout (item ∷ items) m =
    let activity : PreActivity = record {
      annotation = item.annotation;
      state = item.value;
      timeout = default_timeout;
      source_object = item.source;
    } in
    add_states default_timeout items (if item.on_controller then m else insert item.key activity m)

unfoldable pub set_timeouts : List (Found Duration) → Dict PreActivity → Dict PreActivity
set_timeouts [] m = m
set_timeouts (item ∷ items) m = set_timeouts items (
    if item.on_controller then m else elim (lookup item.key m) [
      | none ↦ m
      | some activity ↦ insert item.key (record activity { timeout = item.value }) m
    ])

-- getActivities, by what the two searches found.
unfoldable pub get_activities :
    Duration → List (Found String) → List (Found Duration) → Dict PreActivity
unfolding add_states set_timeouts
get_activities default_timeout states timeouts =
    set_timeouts timeouts (add_states default_timeout states [])

-- The range over the activities, in the order in which the map is iterated.
unfoldable pub activities_done : Taint → Time → List (String × PreActivity) → Done
activities_done taint now [] = done
activities_done taint now ((key, entry) ∷ entries) =
    let rest = activities_done taint now entries in
    if str_eq entry.state "done"
    then rest
    else if str_eq entry.state "failed"
    then not_done failure
    else elim taint.time_added [
      | none ↦ error processing
      | some candidate_since ↦
          if ltb_ℤ entry.timeout (now -ℤ candidate_since)
          then not_done timeout
          else not_done processing
    ]

-- PreActivitiesPreProcessor.IsDone; `none` is the error of a search.
unfoldable pub pre_activities : TaintLib → Time → Option (List (String × PreActivity)) → Node → Done
unfolding activities_done
pre_activities lib now none n = error ""
pre_activities lib now (some activities) n = elim (get_nla_taint lib n) [
  | none ↦ not_done "given node is not a candidate"
  | some taint ↦ activities_done taint now activities
]
