-- ===== src/Groups.antt =====
-- internal/groups: key.go and runner.go. The key of a node's drain group, the annotations that keep
-- it, and the runners of the groups. The pods of a node, with the override annotation of the pod or
-- of its controller, come from the indexer and the object store.
mod Override
mod Runner
mod Reconciler
mod FromPod
mod Tests
use draino.Prelude.{
  ℕ, String, Bool, true, false, not, ◌&&◌, ◌||◌, List, [], ◌∷◌, ◌++◌, Option, none, some,
  if◌then◌else◌, str_eq, lookup, lookup_text, insert, delete, map,
}
use Prim.Native.String.{◌++◌ as append}
use draino.Prelude.Texts.{split, join}
use draino.K8s.{Node}
use draino.Taints.{TaintLib, get_nla_taint, taint_draining, taint_drained}

pub record GroupKeyFromMetadata : Type 0 where
  pub labels_keys : List String
  pub annotation_keys : List String
  pub group_override_annotation_key : String

abbrev pub drain_group_key : String
drain_group_key = "node-lifecycle.datadoghq.com/drain-group"

abbrev pub group_key_separator : String
group_key_separator = "#"

abbrev pub pod_suffix : String
pod_suffix = "-pod"

unfoldable pub get_value_or_empty : List (String × String) → List String → List String
get_value_or_empty m keys = map (λ key. lookup_text key m) keys

-- ValidateGroupKey, without the reason.
unfoldable pub validate_group_key : GroupKeyFromMetadata → Node → Bool
validate_group_key g n =
    if str_eq g.group_override_annotation_key ""
    then true
    else elim (lookup g.group_override_annotation_key n.annotations) [
      | none ↦ true
      | some override ↦ not (str_eq override "")
    ]

-- An override's value as a key.
unfoldable pub key_of_override : String → String
key_of_override override = join group_key_separator (split b',' override)

unfoldable pub get_group_override_annotation :
    GroupKeyFromMetadata → Node → (annotation_suffix : String) → String × Bool
unfolding key_of_override
get_group_override_annotation g n annotation_suffix =
    if str_eq g.group_override_annotation_key ""
    then ("", false)
    else elim (lookup (append g.group_override_annotation_key annotation_suffix) n.annotations) [
      | none ↦ ("", false)
      | some override ↦ if str_eq override "" then ("", false) else (key_of_override override, true)
    ]

unfoldable pub get_group_key : GroupKeyFromMetadata → Node → String
unfolding get_group_override_annotation get_value_or_empty
get_group_key g n =
    let of_node = get_group_override_annotation g n "" in
    let of_pod = get_group_override_annotation g n pod_suffix in
    if of_node.1
    then of_node.0
    else if of_pod.1
    then of_pod.0
    else join group_key_separator (
        get_value_or_empty n.labels g.labels_keys
        ++ get_value_or_empty n.annotations g.annotation_keys)

-- The loop over the pods, from the override found so far; `none` is the return on two overrides.
unfoldable pub unique_override : String → List (Option String) → Option String
unique_override unique [] = some unique
unique_override unique (none ∷ pods) = unique_override unique pods
unique_override unique (some override ∷ pods) =
    let next = if str_eq unique "" then override else unique in
    let rest = unique_override next pods in if str_eq override next then rest else none

-- getGroupOverrideFromPods, by what each pod gives; `none` stands for no indexer or its error.
unfoldable pub get_group_override_from_pods : Option (List (Option String)) → String × Bool
unfolding unique_override key_of_override
get_group_override_from_pods none = ("", false)
get_group_override_from_pods (some pods) = elim (unique_override "" pods) [
  | none ↦ ("", false)
  | some override ↦ if str_eq override "" then ("", false) else (key_of_override override, true)
]

-- UpdateGroupKeyOnNode on the node as it was read: what the patch makes of the stored node. The
-- node in memory is not changed by a patch, since PatchNodeCR patches a copy.
unfoldable pub update_group_key_on_node : GroupKeyFromMetadata → (read stored : Node) → Node
update_group_key_on_node g read stored =
    let group_key = get_group_key g read in
    let patched : Node = record stored {
      annotations = insert drain_group_key group_key stored.annotations;
    } in
    elim (lookup drain_group_key read.annotations) [
      | none ↦ patched
      | some node_key ↦ if str_eq node_key group_key then stored else patched
    ]

unfoldable pub is_in_drain : TaintLib → Node → Bool
is_in_drain lib n = elim (get_nla_taint lib n) [
  | none ↦ false
  | some taint ↦ str_eq taint.value taint_draining || str_eq taint.value taint_drained
]

abbrev pub same_bool : Bool → Bool → Bool
same_bool a b = if a then b else not b

-- What UpdatePodGroupOverrideAnnotation does with the override of the pods. The group key is
-- computed from the node as it was before the annotation was patched.
unfoldable pub store_pod_override : GroupKeyFromMetadata → String × Bool → Node → Node
unfolding get_group_override_annotation update_group_key_on_node
store_pod_override g of_pods n =
    let of_node = get_group_override_annotation g n pod_suffix in
    let key = append g.group_override_annotation_key pod_suffix in
    if str_eq of_pods.0 of_node.0 && same_bool of_pods.1 of_node.1
    then n
    else if not of_pods.1 && of_node.1
    then update_group_key_on_node g n (record n { annotations = delete key n.annotations })
    else update_group_key_on_node g n
        (record n { annotations = insert key of_pods.0 n.annotations })

-- UpdatePodGroupOverrideAnnotation when no patch fails and the node that
-- was read is the stored one: the node that is left in the store.
unfoldable pub update_pod_group_override_annotation :
    TaintLib → GroupKeyFromMetadata → Option (List (Option String)) → Node → Node
unfolding get_group_override_from_pods store_pod_override
update_pod_group_override_annotation lib g pods n =
    if is_in_drain lib n then n else store_pod_override g (get_group_override_from_pods pods) n
