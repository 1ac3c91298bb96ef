-- ===== src/CandidateRunner/Tests.antt =====
-- The evaluation of a group of two nodes, one of which is a candidate, and a concrete instance of
-- each theorem.
use draino.Prelude.{
  ◌-◌, ◌≤◌, ◌≡◌, refl, true, false, List, [], ◌∷◌, none, some, pos, arith, length, lookup,
}
use draino.K8s.{Node}
use draino.Taints.{create_nla_taint, get_nla_taint, find_taint}
use draino.Taints.Sample.{plain_lib}
use draino.Retry.Wall.{get_drain_retry_attempts_count, get_retry}
use draino.Retry.Message.{unserialize}
use draino.Prelude.Texts.{join, split, parse_int}
use draino.Retry.Wall.{find_node_condition}
use draino.Retry.Tests.{wall, failing_node, midnight_lacks}
use draino.Utils.{join_errors}
use draino.CandidateRunner.{
  simulated, Answers, evaluate_candidates, has_taint, drain_retry_failed_key, replace_request_key,
  FlagCalls, patch_node, reset_if_needed, remove_flag, remove_request, restart_node, is_flagged,
  handle_retry_flag, handle_retry_flags, handle_retry_flag_on_nodes,
}
use draino.CandidateRunner.Slots.{count_tainted, evaluate_candidates-bound}
use draino.CandidateRunner.RetryFlag.{no_errors, handle_retry_flag-restart, handle_retry_flag-lost}

abbrev tainted_node : Node
tainted_node = record failing_node { taints = create_nla_taint "drain-candidate" (pos 500) ∷ [] }

abbrev group : List Node
group = tainted_node ∷ failing_node ∷ failing_node ∷ []

abbrev answers : Answers
answers = record {
  simulate_drain = λ n. simulated true;
  offending_conditions = λ n. "Ready" ∷ [];
  try_accept = λ c. true;
  update_fails = λ n. false;
  now = pos 900;
  dry_run = false;
}

evaluate_candidates-bound_example :
    length (evaluate_candidates plain_lib answers 2 (λ ns. ns) (λ ns. ns) group).written
    ≤ 2 - count_tainted plain_lib group
evaluate_candidates-bound_example =
    evaluate_candidates-bound plain_lib answers 2 (λ ns. ns) (λ ns. ns) group (omega arith)

abbrev flagged_node : Node
flagged_node = record failing_node { annotations = ("draino/drain-retry-failed", "restart") ∷ [] }

flagged_untainted : has_taint plain_lib flagged_node ≡ false
unfolding get_nla_taint find_taint
flagged_untainted = refl

flagged : is_flagged flagged_node ≡ true
unfolding is_flagged lookup
flagged = refl

handle_retry_flag-restart_example :
    (get_drain_retry_attempts_count wall
        (handle_retry_flag plain_lib wall no_errors (pos 900) flagged_node).0
      ≡ pos 0)
    × (lookup drain_retry_failed_key
          (handle_retry_flag plain_lib wall no_errors (pos 900) flagged_node).0.annotations
        ≡ none)
    × (lookup replace_request_key
          (handle_retry_flag plain_lib wall no_errors (pos 900) flagged_node).0.labels
        ≡ none)
    × ((handle_retry_flag plain_lib wall no_errors (pos 900) flagged_node).1 ≡ [])
handle_retry_flag-restart_example =
    handle_retry_flag-restart plain_lib wall (pos 900) flagged_node midnight_lacks flagged_untainted
      flagged

abbrev refused : FlagCalls
refused = record { reset = some "conflict"; annotation = none; label = none }

two_reports :
    (handle_retry_flag_on_nodes plain_lib wall
      (λ n. refused)
      (pos 900)
      (flagged_node ∷ failing_node ∷ flagged_node ∷ [])).1
    ≡ some
        "cannot reset retry wall on node 'n': conflict|cannot reset retry wall on node 'n': conflict"
unfolding handle_retry_flag_on_nodes handle_retry_flags handle_retry_flag is_flagged restart_node
    reset_if_needed remove_flag remove_request patch_node join_errors join lookup
    get_drain_retry_attempts_count get_retry unserialize find_node_condition split parse_int
    get_nla_taint find_taint
two_reports = refl

handle_retry_flag-lost_example :
    (get_drain_retry_attempts_count wall
        (handle_retry_flag plain_lib wall refused (pos 900) flagged_node).0
      ≡ get_drain_retry_attempts_count wall flagged_node)
    × (handle_retry_flag plain_lib wall no_errors
          (pos 950)
          (handle_retry_flag plain_lib wall refused (pos 900) flagged_node).0
        ≡ ((handle_retry_flag plain_lib wall refused (pos 900) flagged_node).0, []))
handle_retry_flag-lost_example =
    handle_retry_flag-lost plain_lib wall (pos 900) (pos 950) flagged_node "conflict" none no_errors
      flagged_untainted flagged
