-- ===== src/Taints.antt =====
-- internal/kubernetes/k8sclient/taints.go: the node-lifecycle taint. The package taints of
-- Kubernetes is not part of the repository: its calls are a parameter, with what they document.
pub mod Laws
pub mod Sample
use draino.Prelude.{
  ◌≡◌, String, Bool, true, false, List, [], ◌∷◌, Option, none, some, if◌then◌else◌, ltb_ℤ,
}
use draino.K8s.{Time, time_zero, Node, Taint}

-- MatchTaint, AddOrUpdateTaint and RemoveTaint: `none` is an error, the flag says whether the node
-- was changed.
pub record TaintLib : Type 0 where
  pub match_taint : Taint → Taint → Bool
  pub add_or_update_taint : Node → Taint → Option (Node × Bool)
  pub remove_taint : Node → Taint → Option (Node × Bool)

abbrev pub draino_taint_key : String
draino_taint_key = "node-lifecycle"

abbrev pub taint_drain_candidate : String
taint_drain_candidate = "drain-candidate"

abbrev pub taint_draining : String
taint_draining = "draining"

abbrev pub taint_drained : String
taint_drained = "drained"

abbrev pub create_nla_taint : String → Time → Taint
create_nla_taint value now = record {
  key = draino_taint_key;
  value = value;
  effect = "NoSchedule";
  time_added = some now;
}

-- The first taint that matches.
unfoldable pub find_taint : (Taint → Taint → Bool) → Taint → List Taint → Option Taint
find_taint match_taint search [] = none
find_taint match_taint search (t ∷ ts) =
    if match_taint t search then some t else find_taint match_taint search ts

unfoldable pub get_nla_taint : TaintLib → Node → Option Taint
get_nla_taint lib n =
    find_taint lib.match_taint (create_nla_taint taint_drain_candidate time_zero) n.taints

-- What a call returns (a nil node is `none`), and the node that it wrote to the API server.
pub record Updated : Type 0 where
  pub node : Option Node
  pub written : Option Node
  pub failed : Bool

-- By what the library answers; `fails` is the client's answer to Update.
unfoldable pub update_node : (fails : Bool) → Node → Option (Node × Bool) → Updated
update_node fails n none = record { node = none; written = none; failed = true }
update_node fails n (some (new_node, updated)) =
    if updated
    then record {
      node = some new_node;
      written = if fails then none else some new_node;
      failed = fails;
    }
    else record { node = some n; written = none; failed = false }

unfoldable pub add_nla_taint : TaintLib → (fails : Bool) → Node → Time → String → Updated
add_nla_taint lib fails n now value =
    update_node fails n (lib.add_or_update_taint n (create_nla_taint value now))

unfoldable pub remove_nla_taint : TaintLib → (fails : Bool) → Node → Updated
remove_nla_taint lib fails n =
    update_node fails n (lib.remove_taint n (create_nla_taint "whatever" time_zero))
