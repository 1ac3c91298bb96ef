-- ===== src/Patches.antt =====
-- internal/kubernetes/k8sclient/kube_patch.go: what the patches of nodes and pods send. The
-- encoding to JSON is encoding/json's, and a patch is the value that is encoded.
pub mod Pointer
mod Tests
use Prim.Native.Char.{Char, code}
use Prim.Native.String.{String, ◌++◌}
use draino.Prelude.{ℕ, Bool, true, false, Option, none, some, if◌then◌else◌, ◌==◌, Dict, ◌∷◌, []}
use draino.K8s.{Node, Condition}
use draino.Retry.Wall.{find_node_condition}

-- strings.ReplaceAll(_, "/", "~1").
unfoldable pub escape_slashes : String → String
escape_slashes String.[] = ""
escape_slashes (String.◌∷◌ c s) =
    let rest = escape_slashes s in
    if code c == b'/' then String.◌∷◌ "~" (String.◌∷◌ "1" rest) else String.◌∷◌ c rest

pub record JsonPatchValue : Type 0 where
  pub op : String
  pub path : String
  pub value : String

-- JSONAnnotationPatch.Data.
unfoldable pub json_annotation_patch : (key value : String) → JsonPatchValue
unfolding escape_slashes
json_annotation_patch key value = record {
  op = "replace";
  path = "/metadata/annotations/" ++ escape_slashes key;
  value = value;
}

-- What is sent: a list of JSON patches, or a merge patch, in which a key with `none` is null.
pub data Payload : Type 0 where
  json_patch : JsonPatchValue → Payload
  merge_annotations merge_labels : Dict (Option String) → Payload
  merge_condition : Condition → Payload

-- NodeConditionPatch.Data; `none` is the error for a node without the condition.
unfoldable pub node_condition_patch : (condition_type : String) → Node → Option Payload
node_condition_patch condition_type n = elim (find_node_condition condition_type n.conditions) [
  | none ↦ none
  | some (_, c) ↦ some (merge_condition c)
]

abbrev pub patch_node_annotation_key : (key value : String) → Payload
patch_node_annotation_key key value = merge_annotations ((key, some value) ∷ [])

abbrev pub patch_delete_node_annotation_key : (key : String) → Payload
patch_delete_node_annotation_key key = merge_annotations ((key, none) ∷ [])

abbrev pub patch_node_label_key : (key value : String) → Payload
patch_node_label_key key value = merge_labels ((key, some value) ∷ [])

abbrev pub patch_delete_node_label_key : (key : String) → Payload
patch_delete_node_label_key key = merge_labels ((key, none) ∷ [])
