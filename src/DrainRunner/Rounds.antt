-- ===== src/DrainRunner/Rounds.antt =====
-- internal/drain_runner/runner.go: what a pass of the runner does around the candidates. The nodes
-- of the group come from the index, which is asked again before each part.
use draino.Prelude.{
  String, Bool, true, false, not, ◌&&◌, List, [], ◌∷◌, ◌++◌, Option, none, some, if◌then◌else◌,
  str_eq, ltb_ℤ, ◌-ℤ◌, any,
}
use draino.K8s.{Time, Duration, Node}
use draino.Taints.{TaintLib, taint_drain_candidate, taint_drained, get_nla_taint, remove_nla_taint}
use draino.Retry.Wall.{RetryWall, set_new_retry_wall_timestamp}
use draino.DrainBuffer.{DrainBuffer}
use draino.DrainRunner.{Action, patches_wall, emits, Calls, handle_candidate, write}

-- The taint is there and its value is one of the values.
unfoldable pub has_value : TaintLib → List String → Node → Bool
has_value lib values n = elim (get_nla_taint lib n) [
  | none ↦ false
  | some taint ↦ any (λ value. str_eq value taint.value) values
]

unfoldable pub nodes_with_value : TaintLib → List String → List Node → List Node
nodes_with_value lib values [] = []
nodes_with_value lib values (n ∷ ns) =
    let rest = nodes_with_value lib values ns in if has_value lib values n then n ∷ rest else rest

-- getNodesForNLATaint, by what the index gives; `none` is its error.
unfoldable pub get_nodes_for_nla_taint :
    TaintLib → List String → Option (List Node) → Option (List Node × Bool)
unfolding nodes_with_value
get_nodes_for_nla_taint lib values none = none
get_nodes_for_nla_taint lib values (some []) = some ([], false)
get_nodes_for_nla_taint lib values (some (n ∷ ns)) =
    some (nodes_with_value lib values (n ∷ ns), true)

-- How the loop over the stuck nodes ends: at its end, by its return, or in a call of RemoveTaint on
-- the nil node that updateRetryWallOnCandidate returns with its error.
pub data LoopEnd : Type 0 where
  completed : LoopEnd
  returned : LoopEnd
  removes_from_nil : LoopEnd

abbrev pub stuck_reason : String
stuck_reason = "Node stuck in draining (controller restart?)"

module _ (lib : TaintLib) (wall : RetryWall) (wall_fails remove_fails : Node → Bool)
    (now : Time) where
  -- handleLeftOverDraining, by the draining nodes of the group.
  unfoldable pub handle_left_over_draining : List Node → List Action × LoopEnd
  unfolding write
  handle_left_over_draining [] = ([], completed)
  handle_left_over_draining (n ∷ ns) =
      let updated_node = set_new_retry_wall_timestamp wall n stuck_reason now in
      let u = remove_nla_taint lib (remove_fails n) updated_node in
      let patched = patches_wall updated_node ∷ emits "DrainFailed" ∷ write u.written in
      let rest = handle_left_over_draining ns in
      if wall_fails n
      then ([], removes_from_nil)
      else if u.failed
      then (patched, returned)
      else (patched ++ rest.0, rest.1)

-- A drained node of handlePendingDrainedNodes is replaced once its taint is old enough.
unfoldable pub is_pending_too_long : TaintLib → Duration → Time → Node → Bool
is_pending_too_long lib max_duration now n = elim (get_nla_taint lib n) [
  | none ↦ false
  | some taint ↦ str_eq taint.value taint_drained && elim taint.time_added [
    | none ↦ false
    | some added ↦ not (ltb_ℤ (now -ℤ added) max_duration)
  ]
]

-- The nodes whose replacement is triggered.
unfoldable pub handle_pending_drained_nodes : TaintLib → Duration → Time → List Node → List Node
handle_pending_drained_nodes lib max_duration now [] = []
handle_pending_drained_nodes lib max_duration now (n ∷ ns) =
    let rest = handle_pending_drained_nodes lib max_duration now ns in
    if is_pending_too_long lib max_duration now n then n ∷ rest else rest

-- handlePVCProtection over the drained nodes; the protector answers with an error, or with whether
-- there are unscheduled pods bound to the node by a volume.
unfoldable pub handle_pvc_protection :
    TaintLib
    → (protector : Node → Option Bool) → (remove_fails : Node → Bool) → List Node
    → List Action
unfolding write
handle_pvc_protection lib protector remove_fails [] = []
handle_pvc_protection lib protector remove_fails (n ∷ ns) =
    let u = remove_nla_taint lib (remove_fails n) n in
    let rest = handle_pvc_protection lib protector remove_fails ns in
    elim (protector n) [
      | none ↦ rest
      | some has_pods ↦
          if not has_pods
          then rest
          else if u.failed
          then write u.written ++ rest
          else write u.written ++ emits "PendingPodWithLocalPV" ∷ rest
    ]

module _ (lib : TaintLib) (wall : RetryWall) (calls : Node → Calls) (key : String) where
  -- The candidates one after the other; an error of one does not stop the next.
  unfoldable pub handle_candidates : DrainBuffer → List Node → List Action × DrainBuffer
  handle_candidates buffer [] = ([], buffer)
  handle_candidates buffer (n ∷ ns) =
      let o = handle_candidate lib wall (calls n) key buffer n in
      let rest = handle_candidates o.buffer ns in (o.actions ++ rest.0, rest.1)

  -- handleGroup: the actions, the buffer, and whether the group is empty, which stops the runner.
  unfoldable pub handle_group : DrainBuffer → Option (List Node) → List Action × DrainBuffer × Bool
  unfolding handle_candidates get_nodes_for_nla_taint
  handle_group buffer nodes =
      elim (get_nodes_for_nla_taint lib (taint_drain_candidate ∷ []) nodes) [
        | none ↦ ([], buffer, false)
        | some (candidates, at_least_one) ↦ if not at_least_one then ([], buffer, true) else (
          (handle_candidates buffer candidates).0,
          (handle_candidates buffer candidates).1,
          false,
        )
      ]
