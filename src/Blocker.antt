-- ===== src/Blocker.antt =====
-- internal/kubernetes/blocker.go: the global blockers, with GetReadinessState of util.go. A Mutex is
-- left out: one call is one step. The period of a blocker and the metrics are left out.
pub mod Share
mod Tests
use draino.Prelude.{
  ℕ, ◌+◌, ◌*◌, String, Bool, true, false, not, ◌&&◌, ◌||◌, List, [], ◌∷◌, ◌++◌, Option, none, some,
  map, if◌then◌else◌, str_eq, ltb, leb, any, all, length, keep_if,
}
use draino.K8s.{Node, Taint, Condition}

-- `check` is what the check function would answer now.
pub record Blocker : Type 0 where
  pub name : String
  pub check : Bool
  pub block_state : Bool

pub record GlobalBlocksRunner : Type 0 where
  pub blockers : List Blocker
  pub started : Bool

abbrev pub new_global_blocker : GlobalBlocksRunner
new_global_blocker = record { blockers = []; started = false }

-- `none` is the error of a runner that was started.
unfoldable pub add_blocker : String → Bool → GlobalBlocksRunner → Option GlobalBlocksRunner
add_blocker name check g =
    if g.started
    then none
    else some (record g {
      blockers = g.blockers ++ record { name = name; check = check; block_state = false } ∷ [];
    })

abbrev pub update_block_state : Blocker → Blocker
update_block_state b = record b { block_state = b.check }

-- Run, up to the first round of every blocker.
unfoldable pub start : GlobalBlocksRunner → GlobalBlocksRunner
start g =
    if g.started || leb (length g.blockers) 0
    then g
    else record { blockers = map update_block_state g.blockers; started = true }

unfoldable pub first_blocked : List Blocker → Bool × String
first_blocked [] = (false, "")
first_blocked (b ∷ bs) =
    let rest = first_blocked bs in if b.block_state then (true, b.name) else rest

unfoldable pub is_blocked : GlobalBlocksRunner → Bool × String
unfolding first_blocked
is_blocked g = first_blocked g.blockers

-- One pass over the conditions: whether the node can be ready, and whether Ready was found.
unfoldable pub readiness_from : List Condition → (can_be_ready ready_found : Bool) → Bool × Bool
readiness_from [] can_be_ready ready_found = (can_be_ready, ready_found)
readiness_from (c ∷ cs) can_be_ready ready_found =
    let is_ready = str_eq c.kind "Ready" in
    let is_bad =
      if is_ready
      then str_eq c.status "False" || str_eq c.status "Unknown"
      else (str_eq c.kind "DiskPressure" || str_eq c.kind "NetworkUnavailable")
        && str_eq c.status "True" in
    readiness_from cs (if is_bad then false else can_be_ready)
      (if is_ready then true else ready_found)

abbrev pub is_not_ready_taint : Taint → Bool
is_not_ready_taint t =
    str_eq t.key "node.kubernetes.io/not-ready"
    || (str_eq t.key "node.kubernetes.io/disk-pressure"
        || str_eq t.key "node.kubernetes.io/network-unavailable")

-- The state, and whether there is an error.
unfoldable pub get_readiness_state : Node → Bool × Bool
unfolding readiness_from any
get_readiness_state n =
    let (can_be_ready, ready_found) = readiness_from n.conditions true false in
    if ready_found
    then (can_be_ready && not (any is_not_ready_taint n.taints), false)
    else (false, true)

-- `ceil(100 * part / whole) > max`, which in whole numbers is a comparison of products: a ceiling is
-- above a whole number exactly if the quotient is. A quotient of zeros is no number, and above none.
unfoldable pub exceeds : (percent : Bool) → (max part whole : ℕ) → Bool
exceeds percent max part whole = if percent then ltb (max * whole) (100 * part) else leb max part

-- `none` is an error of the index.
unfoldable pub max_not_ready_nodes : (percent : Bool) → (max : ℕ) → Option (List Node) → Bool
unfolding exceeds get_readiness_state keep_if
max_not_ready_nodes percent max none = false
max_not_ready_nodes percent max (some nodes) =
    exceeds percent max (length (keep_if (λ n. not (get_readiness_state n).0) nodes)) (length nodes)

unfoldable pub max_pending_pods : (percent : Bool) → (max : ℕ) → (total pending : Option ℕ) → Bool
unfolding exceeds
max_pending_pods percent max none pending = false
max_pending_pods percent max (some total) none = false
max_pending_pods percent max (some total) (some pending) = exceeds percent max pending total
