-- ===== src/DrainRunner/Tests.antt =====
-- The runner on one candidate, with the sample of the package taints and the node of the tests of
-- the retry wall, and a concrete instance of each theorem.
use draino.Prelude.{
  ◌≡◌, refl, String, true, false, [], ◌∷◌, Option, none, some, pos, ◌+ℤ◌, arith, any,
}
use draino.Prelude.Texts.{occurs}
use draino.K8s.{Node}
use draino.Taints.{
  create_nla_taint, add_nla_taint, remove_nla_taint, find_taint, get_nla_taint, update_node,
}
use draino.Taints.Laws.{status}
use draino.Taints.Sample.{plain_lib, plain_lib-TaintLaws, drop_taint}
use draino.Retry.Wall.{
  get_retry, get_retry_delay, get_retry_wall_timestamp, get_drain_retry_attempts_count,
  set_new_retry_wall_timestamp,
}
use draino.Retry.Tests.{wall, failing_node, midnight_lacks, two_failures_read}
use draino.DrainBuffer.{DrainBuffer}
use draino.DrainRunner.{
  marks, patches_wall, resets_preprocessors, emits, found, Calls, check_preprocessors, conclude,
  handle_candidate, start_draining, write,
}
use draino.DrainRunner.Path.{is_path, handle_candidate-is_path}
use draino.DrainRunner.Failure.{writes_drained, handle_candidate-drained, conclude_failure}
use draino.DrainRunner.Rounds.{handle_left_over_draining, removes_from_nil, stuck_reason}
use draino.DrainRunner.Stuck.{handle_left_over_draining_nil}

abbrev candidate : Node
candidate = record failing_node { taints = create_nla_taint "drain-candidate" (pos 500) ∷ [] }

abbrev buffer : DrainBuffer
buffer = record {
  is_initialized = true;
  is_dirty = false;
  cache = [];
  default_drain_buffer = pos 60;
}

-- The filter keeps the node, the preprocessor is done, and the drainer answers as given.
abbrev calls : Option String → Calls
calls drain_error = record {
  keep = true;
  preprocessors = (λ n. record { is_done = true; reason = "processing"; failed = false }) ∷ [];
  remove_fails = false;
  wall_fails = false;
  draining_fails = false;
  drained_fails = false;
  drain_error = drain_error;
  refreshed = found candidate;
  buffer_configuration = pos 60;
  now = pos 2000;
  now_drained = pos 3000;
}

candidate_status : status plain_lib candidate ≡ some "drain-candidate"
unfolding status get_nla_taint find_taint
candidate_status = refl

handle_candidate-is_path_example :
    is_path plain_lib
      (some "drain-candidate")
      (handle_candidate plain_lib wall (calls none) "group" buffer candidate).actions
    ≡ true
handle_candidate-is_path_example =
    handle_candidate-is_path plain_lib plain_lib-TaintLaws wall (calls none) "group" buffer
      candidate candidate_status

candidate_drains :
    writes_drained plain_lib
      (handle_candidate plain_lib wall (calls none) "group" buffer candidate).actions
    ≡ true
unfolding writes_drained handle_candidate start_draining conclude check_preprocessors write
    add_nla_taint update_node status get_nla_taint find_taint drop_taint
candidate_drains = refl

handle_candidate-drained_example :
    ((calls none).keep ≡ true)
    × ((check_preprocessors (calls none).preprocessors candidate).should_abort ≡ false)
    × ((check_preprocessors (calls none).preprocessors candidate).all_done ≡ true)
    × ((calls none).drain_error ≡ none)
handle_candidate-drained_example =
    handle_candidate-drained plain_lib plain_lib-TaintLaws wall (calls none) "group" buffer
      candidate candidate_drains

abbrev raised : Node
raised = set_new_retry_wall_timestamp wall candidate "timeout" (pos 2000)

abbrev freed : Node
freed = record raised { taints = drop_taint (create_nla_taint "whatever" (pos 0)) raised.taints }

freed_written : (remove_nla_taint plain_lib false raised).written ≡ some freed
unfolding remove_nla_taint update_node
freed_written = refl

candidate_read : get_retry wall candidate ≡ some (pos 2, pos 1000)
unfolding get_retry
candidate_read = two_failures_read

plain_error : occurs b'|' "timeout" ≡ 0
unfolding occurs
plain_error = refl

conclude_failure_example :
    ((conclude plain_lib wall
        (calls (some "timeout"))
        "group"
        buffer
        (found candidate)
        (some "timeout")).actions
      ≡ emits "DrainFailed"
        ∷ resets_preprocessors candidate
        ∷ patches_wall raised
        ∷ emits "DrainFailed"
        ∷ marks freed
        ∷ [])
    × (status plain_lib freed ≡ none)
    × (get_drain_retry_attempts_count wall freed ≡ pos 3)
    × (get_retry_wall_timestamp wall freed ≡ pos 2000 +ℤ get_retry_delay wall candidate (pos 3))
conclude_failure_example =
    conclude_failure plain_lib plain_lib-TaintLaws wall (calls (some "timeout")) "group" buffer
      candidate freed "timeout" 2 (pos 1000) refl freed_written candidate_read (omega arith)
      midnight_lacks plain_error

stuck_freed :
    (remove_nla_taint plain_lib false
      (set_new_retry_wall_timestamp wall candidate stuck_reason (pos 2000))).failed
    ≡ false
unfolding remove_nla_taint update_node
stuck_freed = refl

two_stuck : any (λ n. true) (candidate ∷ []) ≡ true
unfolding any
two_stuck = refl

handle_left_over_draining_nil_example :
    (handle_left_over_draining plain_lib wall
      (λ n. true)
      (λ n. false)
      (pos 2000)
      (candidate ∷ [])).1
    ≡ removes_from_nil
handle_left_over_draining_nil_example =
    handle_left_over_draining_nil plain_lib wall (λ n. true) (λ n. false) (pos 2000)
      (candidate ∷ []) two_stuck (stuck_freed, tt)
