-- ===== src/Labels.antt =====
-- internal/kubernetes/nodefilters.go: ConvertLabelsToFilterExpr, which turns the deprecated list of
-- labels into an expression, and the filter of the nodes that were seen before. sort.Strings is a
-- parameter.
pub mod Kept
mod Tests
use Prim.Native.String.{◌++◌ as append}
use draino.Prelude.{
  String, Bool, true, false, not, ◌&&◌, List, [], ◌∷◌, Option, none, some, if◌then◌else◌, str_eq,
  Dict, lookup, lookup_text, insert, map,
}
use draino.Prelude.Texts.{join}
use draino.Conditions.{split_once}

-- The labels as a map, the error on two values for a key, or the panic on a label without "=".
pub data Labels : Type 0 where
  labels : Dict String → Labels
  two_values : (old new : String) → Labels
  panics : Labels

-- One label, by its two parts and by what the map has under its key.
unfoldable pub add_label : (found : Option String) → (key value : String) → Dict String → Labels
add_label none key value m = labels (insert key value m)
add_label (some v) key value m =
    if str_eq v value then labels (insert key value m) else two_values v value

unfoldable pub add_parts : Option (String × String) → Dict String → Labels
unfolding add_label
add_parts none m = panics
add_parts (some (key, value)) m = add_label (lookup key m) key value m

unfoldable pub collect_labels : List String → Labels → Labels
unfolding add_parts
collect_labels [] m = m
collect_labels (l ∷ ls) (two_values old new) = two_values old new
collect_labels (l ∷ ls) panics = panics
collect_labels (l ∷ ls) (labels m) = collect_labels ls (add_parts (split_once b'=' l) m)

-- A label without a value asks for the key alone.
unfoldable pub term : Dict String → (key : String) → String
term m key =
    let value = lookup_text key m in
    if not (str_eq key "") && str_eq value ""
    then append "'" (append key "' in metadata.labels")
    else append "metadata.labels['" (append key (append "'] == '" (append value "'")))

unfoldable pub keys_of : Dict String → List String
keys_of m = map (λ e. e.0) m

pub data Converted : Type 0 where
  expression : String → Converted
  conflict : (old new : String) → Converted
  crash : Converted

unfoldable pub expression_of : (sort : List String → List String) → Labels → Converted
unfolding term keys_of
expression_of sort panics = crash
expression_of sort (two_values old new) = conflict old new
expression_of sort (labels m) = expression (join " && " (map (term m) (sort (keys_of m))))

unfoldable pub convert_labels_to_filter_expr :
    (sort : List String → List String) → List String → Converted
unfolding collect_labels expression_of
convert_labels_to_filter_expr sort ls = expression_of sort (collect_labels ls (labels []))

-- NodeProcessed.Filter on a node's UID: the UIDs seen, and whether the node is new.
unfoldable pub filter_processed : (uid : String) → Dict Bool → Dict Bool × Bool
filter_processed uid processed = elim (lookup uid processed) [
  | some true ↦ (processed, false)
  | some false ↦ (insert uid true processed, true)
  | none ↦ (insert uid true processed, true)
]
