-- ===== src/Drainer/Replacement.antt =====
-- drainer.go: ResetRetryAnnotation, and the requests for the replacement of a node, which set a
-- label that another program reads. A call that fails leaves the node.
use draino.Prelude.{
  ◌≡◌, String, Bool, true, false, Option, none, some, lookup, lookup_text, insert, delete,
  if◌then◌else◌, str_eq, arith, lookup-delete, Option-cases, inl, inr,
}
use draino.K8s.{Node}

abbrev pub replace_request_key : String
replace_request_key = "node.datadoghq.com/replace"

abbrev pub drain_retry_key : String
drain_retry_key = "draino/drain-retry"

abbrev pub drain_retry_failed_key : String
drain_retry_failed_key = "draino/drain-retry-failed"

-- The errors of the three patches, of which only the last is returned.
pub record ResetCalls : Type 0 where
  pub delete_label : Option String
  pub patch_annotation : Option String
  pub delete_annotation : Option String

-- A patch by its error.
unfoldable pub patched : (error : Option String) → (after before : Node) → Node
patched none after before = after
patched (some e) after before = before

unfoldable pub delete_found_label : (found : Option String) → (error : Option String) → Node → Node
delete_found_label none error n = n
delete_found_label (some v) error n =
    patched error (record n { labels = delete replace_request_key n.labels }) n

unfoldable pub reset_label : (error : Option String) → Node → Node
reset_label error n = delete_found_label (lookup replace_request_key n.labels) error n

-- The first keys of the annotations, before they were moved to a key of their own.
unfoldable pub reset_old_annotation : Option String → Node → Node
reset_old_annotation error n =
    if str_eq (lookup_text drain_retry_key n.annotations) "failed"
    then patched error (record n { annotations = insert drain_retry_key "true" n.annotations }) n
    else n

unfoldable pub reset_failed_annotation : Option String → Node → Node
reset_failed_annotation error n =
    patched error (record n { annotations = delete drain_retry_failed_key n.annotations }) n

-- The node as the API server has it after the call, and the error that is returned.
unfoldable pub reset_retry_annotation : ResetCalls → Node → Node × Option String
reset_retry_annotation calls n = (
  reset_failed_annotation calls.delete_annotation
      (reset_old_annotation calls.patch_annotation (reset_label calls.delete_label n)),
  calls.delete_annotation,
)

-- The answer of Get for the node. Its map of labels may be nil, on which an assignment panics.
pub data Fresh : Type 0 where
  fresh_node : (labels_are_nil : Bool) → Node → Fresh
  fresh_error : String → Fresh

-- A panic, an error before the update, or the node that the update sends with its error.
pub data Replacement : Type 0 where
  panics : Replacement
  not_sent : String → Replacement
  sent : Node → (error : Option String) → Replacement

-- On the errors of the two calls, without the text that wraps them.
unfoldable pub perform_node_replacement : Fresh → (update_error : Option String) → Replacement
perform_node_replacement (fresh_error e) update_error = not_sent e
perform_node_replacement (fresh_node true n) update_error = panics
perform_node_replacement (fresh_node false n) update_error =
    sent (record n { labels = insert replace_request_key "requested" n.labels }) update_error

-- The Boolean and the error that ReplaceNode returns; `none` is the panic.
unfoldable pub returned_by_replace_node : Replacement → Option (Bool × Option String)
returned_by_replace_node panics = none
returned_by_replace_node (not_sent e) = some (true, some e)
returned_by_replace_node (sent n none) = some (false, none)
returned_by_replace_node (sent n (some e)) = some (true, some e)

unfoldable pub replace_node : Fresh → (update_error : Option String) → Option (Bool × Option String)
replace_node fresh update_error =
    returned_by_replace_node (perform_node_replacement fresh update_error)

-- The status is the text of the label in the store, which is empty where the label is missing.
unfoldable pub get_replacement_status : Fresh → String × Option String
get_replacement_status (fresh_node labels_are_nil n) =
    (lookup_text replace_request_key n.labels, none)
get_replacement_status (fresh_error e) = ("", some e)

reset_label-clears : (n : Node) → lookup replace_request_key (reset_label none n).labels ≡ none
unfolding reset_label delete_found_label patched
reset_label-clears n = elim (Option-cases (lookup replace_request_key n.labels)) [
  | inl e ↦ rw e e
  | inr (v, e) ↦ rw e (lookup-delete replace_request_key replace_request_key n.labels)
]

failed_annotation-clears :
    (n : Node) → lookup drain_retry_failed_key (reset_failed_annotation none n).annotations ≡ none
unfolding reset_failed_annotation patched
failed_annotation-clears n =
    lookup-delete drain_retry_failed_key drain_retry_failed_key n.annotations

reset_annotations-labels :
    (old failed : Option String) (n : Node)
    → (reset_failed_annotation failed (reset_old_annotation old n)).labels ≡ n.labels
unfolding reset_failed_annotation reset_old_annotation patched
reset_annotations-labels old failed n = ground arith

-- If neither deletion fails, neither the label nor the annotation of a failed drain is left, and no
-- error is returned.
reset_retry_annotation-clears :
    (calls : ResetCalls) (n : Node)
    → calls.delete_label ≡ none
    → calls.delete_annotation ≡ none
    → (lookup replace_request_key (reset_retry_annotation calls n).0.labels ≡ none)
      × (lookup drain_retry_failed_key (reset_retry_annotation calls n).0.annotations ≡ none)
      × ((reset_retry_annotation calls n).1 ≡ none)
unfolding reset_retry_annotation
reset_retry_annotation-clears calls n h k = (
  rw (reset_annotations-labels calls.patch_annotation calls.delete_annotation _, h)
      (reset_label-clears n),
  rw k (failed_annotation-clears _),
  k,
)
