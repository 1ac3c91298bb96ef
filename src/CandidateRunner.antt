-- ===== src/CandidateRunner.antt =====
-- internal/candidate_runner/runner.go: one evaluation of the nodes of a group, and the cleanup pass.
-- The order of the nodes is given by the node iterator; the simulator, the rate limiters and the API
-- server answer through parameters. Logs, traces and timing data are left out.
mod Slots
mod RetryFlag
mod Tests
use draino.Prelude.{
  ℕ, suc, ◌-◌, String, Bool, true, false, not, ◌||◌, List, [], ◌∷◌, ◌++◌, Option, none, some, ltb,
  leb, length, if◌then◌else◌, str_eq, lookup, lookup_text, delete, eq_ℤ, pos, any,
}
use Prim.Native.String.{◌++◌ as append}
use draino.Utils.{join_errors}
use draino.K8s.{Time, Node}
use draino.Taints.{TaintLib, taint_drain_candidate, get_nla_taint, add_nla_taint}
use draino.Retry.Wall.{RetryWall, get_drain_retry_attempts_count, reset_retry_count}

abbrev pub has_taint : TaintLib → Node → Bool
has_taint lib n = elim (get_nla_taint lib n) [ none ↦ false | some _ ↦ true ]

-- What checkAlreadyCandidates returns.
pub record Checked : Type 0 where
  pub remaining : List Node
  pub already : List Node
  pub max_reached : Bool

-- The loop, from what it has appended so far.
unfoldable pub check_loop : TaintLib → ℕ → List Node → List Node → List Node → Checked
check_loop lib max remaining already [] = record {
  remaining = remaining;
  already = already;
  max_reached = false;
}
check_loop lib max remaining already (n ∷ ns) =
    let without = check_loop lib max (remaining ++ n ∷ []) already ns in
    let with_one = check_loop lib max remaining (already ++ n ∷ []) ns in
    if not (has_taint lib n)
    then without
    else if ltb 0 max
    then (if leb max (length (already ++ n ∷ []))
        then record { remaining = []; already = already ++ n ∷ []; max_reached = true }
        else with_one)
    else with_one

unfoldable pub check_already_candidates : TaintLib → ℕ → List Node → Checked
unfolding check_loop
check_already_candidates lib max nodes = check_loop lib max [] [] nodes

-- What SimulateDrain returns, as the loop reads it: errors, of which one may be the client's rate
-- limit, or whether the node can be drained.
pub data Simulated : Type 0 where
  rate_limited : Simulated
  simulation_error : Simulated
  simulated : (can_drain : Bool) → Simulated

pub record Answers : Type 0 where
  pub simulate_drain : Node → Simulated
  pub offending_conditions : Node → List String
  pub try_accept : String → Bool
  pub update_fails : Node → Bool
  pub now : Time
  pub dry_run : Bool

-- The first of the node's offending conditions whose limiter gives a token.
unfoldable pub has_condition_rate_limiting_capacity : Answers → Node → Bool
has_condition_rate_limiting_capacity answers n =
    any answers.try_accept (answers.offending_conditions n)

-- The nodes that were written with the candidate taint, the names of the new candidates, and the
-- names that the simulation and the rate limiters rejected.
pub record Round : Type 0 where
  pub written : List Node
  pub candidates_name : List String
  pub simulation_rejections : List String
  pub rate_limit_rejections : List String
  pub last_run_rate_limited : Bool

abbrev pub no_round : Round
no_round = record {
  written = [];
  candidates_name = [];
  simulation_rejections = [];
  rate_limit_rejections = [];
  last_run_rate_limited = false;
}

abbrev pub written_list : Option Node → List Node
written_list none = []
written_list (some n) = n ∷ []

module _ (lib : TaintLib) (answers : Answers) where
  -- `remain_slots` is what is left before a node is taken: the loop ends when it is used up. The
  -- counter of the code may start at or below zero, which ends the loop after one node, as one slot
  -- does.
  unfoldable pub group_iteration : (remain_slots : ℕ) → List Node → Round
  group_iteration remain_slots [] = no_round
  group_iteration remain_slots (n ∷ ns) =
      let u = add_nla_taint lib (answers.update_fails n) n answers.now taint_drain_candidate in
      let same = group_iteration remain_slots ns in
      let next = if ltb 1 remain_slots then group_iteration (remain_slots - 1) ns else no_round in
      elim (answers.simulate_drain n) [
        | rate_limited ↦ record no_round { last_run_rate_limited = true }
        | simulation_error ↦ record same {
          simulation_rejections = n.name ∷ same.simulation_rejections;
        }
        | simulated can_drain ↦
            if not can_drain
            then record same { simulation_rejections = n.name ∷ same.simulation_rejections }
            else if not (has_condition_rate_limiting_capacity answers n)
            then record same { rate_limit_rejections = n.name ∷ same.rate_limit_rejections }
            else if answers.dry_run
            then record next { candidates_name = n.name ∷ next.candidates_name }
            else if u.failed
            then record same { candidates_name = n.name ∷ same.candidates_name }
            else record next {
              written = written_list u.written ++ next.written;
              candidates_name = n.name ∷ next.candidates_name;
            }
      ]

  -- One evaluation: `filter` is the composite filter, `order` the node iterator.
  unfoldable pub evaluate_candidates :
      (max : ℕ) (filter order : List Node → List Node) → List Node → Round
  unfolding check_already_candidates group_iteration
  evaluate_candidates max filter order nodes =
      let c = check_already_candidates lib max nodes in
      if c.max_reached
      then no_round
      else group_iteration (max - length c.already) (order (filter c.remaining))

abbrev pub drain_retry_failed_key : String
drain_retry_failed_key = "draino/drain-retry-failed"

abbrev pub replace_request_key : String
replace_request_key = "node.datadoghq.com/replace"

-- The errors of the three patches that one node may need.
pub record FlagCalls : Type 0 where
  pub reset : Option String
  pub annotation : Option String
  pub label : Option String

-- A patch by its error: the node as the API server has it, and the error under its text.
unfoldable pub patch_node :
    (error : Option String) → (text : String → String) → (after before : Node) → Node × List String
patch_node none text after before = (after, [])
patch_node (some e) text after before = (before, text e ∷ [])

-- The reset is asked for only where there is an attempt to forget.
unfoldable pub reset_if_needed :
    RetryWall → (error : Option String) → Time → Node → Node × List String
unfolding patch_node
reset_if_needed wall error now n =
    if eq_ℤ (get_drain_retry_attempts_count wall n) (pos 0)
    then (n, [])
    else patch_node error
        (λ e. append "cannot reset retry wall on node '" (append n.name (append "': " e)))
        (reset_retry_count wall n now) n

unfoldable pub remove_flag : (error : Option String) → Node → Node × List String
unfolding patch_node
remove_flag error n =
    patch_node error
      (λ e.
        append "cannot remove retry wall annotation from node '" (append n.name (append "': " e)))
      (record n { annotations = delete drain_retry_failed_key n.annotations }) n

unfoldable pub remove_request :
    (found : Option String) → (error : Option String) → Node → Node × List String
unfolding patch_node
remove_request none error n = (n, [])
remove_request (some v) error n =
    patch_node error (λ e. e) (record n { labels = delete replace_request_key n.labels }) n

-- What is done for a node with the flag: each step is tried, whatever became of the one before.
unfoldable pub restart_node : RetryWall → FlagCalls → Time → Node → Node × List String
restart_node wall calls now n =
    let reset = reset_if_needed wall calls.reset now n in
    let unflagged = remove_flag calls.annotation reset.0 in
    let last = remove_request (lookup replace_request_key n.labels) calls.label unflagged.0 in
    (last.0, reset.1 ++ (unflagged.1 ++ last.1))

unfoldable pub is_flagged : Node → Bool
is_flagged n = elim (lookup drain_retry_failed_key n.annotations) [
  | none ↦ false
  | some val ↦ str_eq val "restart"
]

-- handleRetryFlagOnNodes on one node: the node as the API server has it after the calls, and the
-- errors.
unfoldable pub handle_retry_flag :
    TaintLib → RetryWall → FlagCalls → Time → Node → Node × List String
handle_retry_flag lib wall calls now n =
    if has_taint lib n
    then (n, [])
    else if is_flagged n
    then restart_node wall calls now n
    else (n, [])

-- handleRetryFlagOnNodes: one node's errors do not keep the others from their turn.
unfoldable pub handle_retry_flags :
    TaintLib → RetryWall → (calls : Node → FlagCalls) → Time → List Node → List Node × List String
handle_retry_flags lib wall calls now [] = ([], [])
handle_retry_flags lib wall calls now (n ∷ ns) =
    let here = handle_retry_flag lib wall (calls n) now n in
    let rest = handle_retry_flags lib wall calls now ns in (here.0 ∷ rest.0, here.1 ++ rest.1)

unfoldable pub handle_retry_flag_on_nodes :
    TaintLib → RetryWall → (calls : Node → FlagCalls) → Time → List Node → List Node × Option String
unfolding handle_retry_flags join_errors
handle_retry_flag_on_nodes lib wall calls now ns =
    let r = handle_retry_flags lib wall calls now ns in (r.0, join_errors r.1 "|")
