-- ===== src/Metadata.antt =====
-- internal/kubernetes/metadata_search.go: looking for an annotation on a node, on its pods and on
-- their controllers. The result is a map from the text of a value to the items that have it.
pub mod Flags
mod Tests
use Prim.Native.String.{◌++◌ as append}
use draino.Prelude.{
  String, Bool, true, false, not, ◌&&◌, List, [], ◌∷◌, ◌++◌, Option, none, some, if◌then◌else◌,
  Dict, lookup, insert, keep_if, str_eq,
}
use draino.Prelude.Texts.{starts_with}
use draino.K8s.{Node, Pod}
use draino.Pods.{
  RuntimeStore, Controller, ControllerResult, has_controller, no_controller, panics,
  get_controller_for_pod,
}

-- `value` is none where the conversion failed. An empty id stands for an object of another kind.
pub record Item (T : Type 0) : Type 0 where
  pub key : String
  pub value : Option T
  pub node_id : String
  pub pod_id : String
  pub on_controller : Bool

abbrev pub Found : Type 0 → Type 0
Found T = Dict (List (Item T))

-- A MetadataGetterFunc on annotations, by what it returns; nothing is "not there".
abbrev pub Getter : Type 0
Getter = Dict String → String → List (String × String)

unfoldable pub value_at : String → Option String → List (String × String)
value_at key none = []
value_at key (some v) = (key, v) ∷ []

unfoldable pub get_exact_annotation : Getter
unfolding value_at
get_exact_annotation annotations key = value_at key (lookup key annotations)

unfoldable pub get_prefixed_annotation : Getter
unfolding keep_if
get_prefixed_annotation annotations prefix = keep_if (λ e. starts_with prefix e.0) annotations

abbrev pub is_there : {A : Type 0} → List A → Bool
is_there [] = false
is_there (x ∷ xs) = true

module _ {T : Type 0} (converter : String → Option T) where
  unfoldable pub add_item : String → Item T → Found T → Found T
  add_item text item found =
      insert text (elim (lookup text found) [ none ↦ item ∷ [] | some l ↦ l ++ item ∷ [] ]) found

  -- One item for each value, all of the same object.
  unfoldable pub add_values :
      List (String × String)
      → (node_id pod_id : String) → (on_controller : Bool) → Found T
      → Found T
  unfolding add_item
  add_values [] node_id pod_id on_controller found = found
  add_values ((key, text) ∷ vs) node_id pod_id on_controller found =
      add_values vs node_id pod_id on_controller (
        add_item text
          (record {
            key = key;
            value = converter text;
            node_id = node_id;
            pod_id = pod_id;
            on_controller = on_controller;
          })
          found)

  module _ (getter : Getter) (store : RuntimeStore) (key : String) where
    unfoldable pub process_node : Node → Found T → Found T
    unfolding add_values
    process_node n found = add_values (getter n.annotations key) n.name "" false found

    -- `none` is a panic of GetControllerForPod.
    unfoldable pub process_controller : Pod → ControllerResult → Found T → Option (Found T)
    unfolding add_values
    process_controller p no_controller found = some found
    process_controller p panics found = none
    process_controller p (has_controller c) found = some (
        add_values (getter c.annotations key) "" (append p.namespace (append "/" p.name)) true
          found)

    unfoldable pub process_pod : (stop_if_found_on_pod : Bool) → Pod → Found T → Option (Found T)
    unfolding process_controller
    process_pod stop_if_found_on_pod p found =
        let values = getter p.annotations key in
        let found' = add_values values "" (append p.namespace (append "/" p.name)) false found in
        if is_there values && stop_if_found_on_pod
        then some found'
        else process_controller p (get_controller_for_pod store p) found'

    unfoldable pub process_pods :
        (stop_if_found_on_pod : Bool) → List Pod → Found T → Option (Found T)
    unfolding process_pod
    process_pods stop_if_found_on_pod [] found = some found
    process_pods stop_if_found_on_pod (p ∷ ps) found =
        elim (process_pod stop_if_found_on_pod p found) [
          | none ↦ none
          | some found' ↦ process_pods stop_if_found_on_pod ps found'
        ]

    -- `pods` is what the index answers; `none` is an error, or a panic.
    unfoldable pub new_search :
        (stop_if_found_on_node stop_if_found_on_pod : Bool)
        → Option (List Pod)
        → Node
        → Option (Found T)
    unfolding process_node process_pods
    new_search stop_if_found_on_node stop_if_found_on_pod pods n =
        let on_node = process_node n [] in
        if is_there on_node && stop_if_found_on_node
        then some on_node
        else elim pods [ none ↦ none | some ps ↦ process_pods stop_if_found_on_pod ps on_node ]

  -- The last two arguments of the call are the other way round.
  unfoldable pub search_annotation_from_node_and_then_pod_or_controller :
      RuntimeStore
      → (key : String) → (stop_if_found_on_node stop_if_found_on_pod : Bool) → Option (List Pod)
      → Node
      → Option (Found T)
  unfolding new_search get_exact_annotation
  search_annotation_from_node_and_then_pod_or_controller store key stop_if_found_on_node
        stop_if_found_on_pod =
      new_search get_exact_annotation store key stop_if_found_on_pod stop_if_found_on_node

module _ {T : Type 0} where
  abbrev pub good_items : List (Item T) → List (Item T)
  good_items [] = []
  good_items (i ∷ is) = elim i.value [ none ↦ good_items is | some v ↦ i ∷ good_items is ]

  unfoldable pub results : Found T → List (Item T)
  results [] = []
  results ((text, items) ∷ m) = good_items items ++ results m

  abbrev pub first_value : List (Item T) → List T
  first_value [] = []
  first_value (i ∷ is) = elim i.value [ none ↦ first_value is | some v ↦ v ∷ [] ]

  unfoldable pub values_without_dupe : Found T → List T
  values_without_dupe [] = []
  values_without_dupe ((text, items) ∷ m) = first_value items ++ values_without_dupe m

  unfoldable pub get_item_id : Item T → String
  get_item_id i =
      if not (str_eq i.node_id "")
      then i.node_id
      else if not (str_eq i.pod_id "")
      then append (if i.on_controller then "ctrl-" else "") i.pod_id
      else "not_available"
