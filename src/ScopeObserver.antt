-- ===== src/ScopeObserver.antt =====
-- internal/observability/observability.go: the label by which each configuration of draino says
-- which nodes are in its scope. The labels of the nodes are the only state that the configurations
-- share. The metrics of the observer are not modelled.
mod Names
mod Entries
pub mod Settled
mod Shared
mod TextOrder
mod Tests
use draino.Prelude.{
  ℕ, ltb, String, Bool, true, false, not, ◌||◌, ◌&&◌, List, [], ◌∷◌, ◌++◌, Option, none, some,
  if◌then◌else◌, str_eq, keep_if, lookup_text, lookup, Dict, insert,
}
use draino.Prelude.Texts.{split, join}
use draino.K8s.{Node, Pod}
use draino.Filters.{SuppliedCondition, get_conditions_types, at_least_one_condition_accepted}

abbrev pub configuration_label_key : String
configuration_label_key = "node-lifecycle.datadoghq.com/draino-configuration"

abbrev pub out_of_scope_label_value : String
out_of_scope_label_value = "out-of-scope"

abbrev pub node_nla_enable_label_key : String
node_nla_enable_label_key = "node-lifecycle.datadoghq.com/enabled"

pub data ApiError : Type 0 where
  not_found : ApiError
  other : String → ApiError

pub data Listed : Type 0 where
  list_error : ApiError → Listed
  listed : List Pod → Listed

-- What the pod filter answers for a pod: an error, or whether it passes, with a reason.
pub data Passes : Type 0 where
  filter_error : ApiError → Passes
  passes : Bool → (reason : String) → Passes

-- What the observer of one configuration calls; `sort` is sort.Strings.
pub record Observer : Type 0 where
  pub config_name : String
  pub node_filter : Node → Bool
  pub list_pods_for_node : (name : String) → Listed
  pub pod_filter : Pod → Passes
  pub sort : List String → List String

-- Whether the label is there, and whether it enables the node.
unfoldable pub is_node_nla_enable_by_label : Node → Bool × Bool
is_node_nla_enable_by_label n = elim (lookup node_nla_enable_label_key n.labels) [
  | none ↦ (false, true)
  | some v ↦
      if str_eq v "true"
      then (true, true)
      else if str_eq v "false"
      then (true, false)
      else (false, true)
]

-- IsInScope: an error, or whether the node is in scope and the reason why it is not.
pub data Scope : Type 0 where
  scope_error : ApiError → Scope
  scope : (in_scope : Bool) → (reason : String) → Scope

unfoldable pub pods_in_scope : (Pod → Passes) → List Pod → Scope
pods_in_scope pod_filter [] = scope true ""
pods_in_scope pod_filter (p ∷ ps) =
    let rest = pods_in_scope pod_filter ps in
    elim (pod_filter p) [
      | filter_error e ↦ scope_error e
      | passes ok reason ↦ if ok then rest else scope false reason
    ]

unfoldable pub listed_in_scope : (Pod → Passes) → Listed → Scope
unfolding pods_in_scope
listed_in_scope pod_filter (list_error e) = scope_error e
listed_in_scope pod_filter (listed ps) = pods_in_scope pod_filter ps

unfoldable pub is_in_scope : Observer → Node → Scope
unfolding is_node_nla_enable_by_label listed_in_scope
is_in_scope o n =
    let label = is_node_nla_enable_by_label n in
    if not (o.node_filter n)
    then scope false "labelSelection"
    else if label.0
    then (if label.1 then scope true "" else scope false "Node label explicit opt-out")
    else listed_in_scope o.pod_filter (o.list_pods_for_node n.name)

-- The names of other configurations.
unfoldable pub is_other : (config_name config : String) → Bool
is_other config_name config =
    not (str_eq config "" || (str_eq config out_of_scope_label_value || str_eq config config_name))

abbrev pub or_out_of_scope : List String → List String
or_out_of_scope [] = out_of_scope_label_value ∷ []
or_out_of_scope (c ∷ cs) = c ∷ cs

unfoldable pub configs : Observer → (value_original : String) → (in_scope : Bool) → List String
unfolding is_other
configs o value_original in_scope = or_out_of_scope (
    keep_if (is_other o.config_name) (split b'.' value_original)
    ++ (if in_scope then o.config_name ∷ [] else []))

unfoldable pub value_desired : Observer → (value_original : String) → (in_scope : Bool) → String
unfolding configs
value_desired o value_original in_scope = join "." (o.sort (configs o value_original in_scope))

-- getLabelUpdate: an error, or the value that the label should have, and whether the node has
-- another.
pub data LabelUpdate : Type 0 where
  update_error : ApiError → LabelUpdate
  update : (desired : String) → (out_of_date : Bool) → LabelUpdate

unfoldable pub get_label_update : Observer → Node → LabelUpdate
unfolding is_in_scope value_desired
get_label_update o n =
    let original = lookup_text configuration_label_key n.labels in
    elim (is_in_scope o n) [
      | scope_error e ↦ update_error e
      | scope in_scope reason ↦
          let desired = value_desired o original in_scope in
          update desired (not (str_eq desired original))
    ]

-- The value of the label that is sent, if one is, and the error.
pub record LabelPatch : Type 0 where
  pub sent : Option String
  pub error : Option ApiError

unfoldable pub ignore_not_found : Option ApiError → Option ApiError
ignore_not_found none = none
ignore_not_found (some not_found) = none
ignore_not_found (some (other e)) = some (other e)

-- patchNodeLabels of a node that the store knows.
unfoldable pub patch_if_out_of_date : (answer : Option ApiError) → LabelUpdate → LabelPatch
unfolding ignore_not_found
patch_if_out_of_date answer (update_error e) = record { sent = none; error = some e }
patch_if_out_of_date answer (update desired false) = record { sent = none; error = none }
patch_if_out_of_date answer (update desired true) = record {
  sent = some desired;
  error = ignore_not_found answer;
}

pub data Got : Type 0 where
  got : Node → Got
  get_error : ApiError → Got

unfoldable pub patch_node_labels : Observer → Got → (answer : Option ApiError) → LabelPatch
unfolding get_label_update patch_if_out_of_date
patch_node_labels o (get_error e) answer = record { sent = none; error = some e }
patch_node_labels o (got n) answer = patch_if_out_of_date answer (get_label_update o n)

-- The node as the API server has it with the label.
abbrev pub with_label : (value : String) → Node → Node
with_label value n = record n { labels = insert configuration_label_key value n.labels }

-- What processQueueForNodeUpdates asks of the queue for one name, before Done.
pub data QueueCall : Type 0 where
  forget : QueueCall
  add_rate_limited : QueueCall
  nothing : QueueCall

unfoldable pub queue_call : (requeue_count : ℕ) → Option ApiError → QueueCall
queue_call requeue_count none = forget
queue_call requeue_count (some not_found) = nothing
queue_call requeue_count (some (other e)) =
    if ltb 10 requeue_count then forget else add_rate_limited

-- One turn of processQueueForNodeUpdates: the patch, if the limiter lets it through.
unfoldable pub process_node :
    Observer
    → (try_accept : Bool) → (requeue_count : ℕ) → Got
    → (answer : Option ApiError) → Option LabelPatch × QueueCall
unfolding patch_node_labels queue_call
process_node o try_accept requeue_count node answer =
    let patch = patch_node_labels o node answer in
    if try_accept
    then (some patch, queue_call requeue_count patch.error)
    else (none, add_rate_limited)

-- The nodes that a period of the observer puts in the queue.
abbrev pub is_out_of_date : LabelUpdate → Bool
is_out_of_date (update_error e) = false
is_out_of_date (update desired out_of_date) = out_of_date

unfoldable pub nodes_to_queue : Observer → List Node → List Node
unfolding get_label_update
nodes_to_queue o ns = keep_if (λ n. is_out_of_date (get_label_update o n)) ns

-- NodeInScopeWithConditionCheck.
unfoldable pub node_in_scope_with_condition_check : List SuppliedCondition → Node → Bool
unfolding at_least_one_condition_accepted
node_in_scope_with_condition_check conditions n =
    let value = lookup_text configuration_label_key n.labels in
    (not (str_eq value "") && not (str_eq value out_of_scope_label_value))
    && at_least_one_condition_accepted (get_conditions_types conditions) n
