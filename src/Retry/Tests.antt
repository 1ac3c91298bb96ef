-- ===== src/Retry/Tests.antt =====
-- The retry wall on one node: a printer of times, the strategies of the command line, and a
-- concrete instance of each theorem.
use draino.Prelude.{◌≡◌, refl, String, [], ◌∷◌, none, some, pos, arith, negsuc, ◌+ℤ◌}
use draino.Prelude.Texts.{occurs, split, parse_int}
use draino.K8s.{Time, Node, Condition, minute, time_zero}
use draino.Retry.Message.{unserialize}
use draino.Retry.Strategy.{exponential, exponential_delay}
use draino.Retry.Wall.{
  RetryWall, find_node_condition, get_retry, get_retry_delay, get_retry_wall_timestamp,
  get_drain_retry_attempts_count, set_new_retry_wall_timestamp,
}
use draino.Retry.Count.{set_new-increments, set_new_separator}
use draino.Retry.Delay.{exponential_delay_overflow}

abbrev pub midnight : Time → String
midnight t = "2023-01-01T00:00:00Z"

abbrev pub two_failures : Condition
two_failures = record {
  kind = "DrainFailure";
  status = "True";
  last_heartbeat_time = pos 1000;
  last_transition_time = pos 0;
  reason = "DrainRetryWall";
  message = "2|2023-01-01T00:00:00Z|pdb";
}

abbrev pub failing_node : Node
failing_node = record {
  name = "n";
  labels = [];
  annotations = [];
  taints = [];
  conditions = two_failures ∷ [];
  deletion_timestamp = none;
}

abbrev pub wall : RetryWall
wall = record {
  parse_duration = λ _. none;
  format_time = midnight;
  float_to_int = λ _. pos 0;
  default_strategy = exponential (pos 7) (pos minute);
  strategies = [];
}

pub two_failures_read : get_retry wall failing_node ≡ some (pos 2, pos 1000)
unfolding get_retry unserialize find_node_condition split parse_int
two_failures_read = refl

pub midnight_lacks : (t : Time) → occurs b'|' (midnight t) ≡ 0
unfolding occurs
midnight_lacks t = refl

plain_reason : occurs b'|' "blocked by a budget" ≡ 0
unfolding occurs
plain_reason = refl

piped_reason : occurs b'|' "a|b" ≡ 1
unfolding occurs
piped_reason = refl

abbrev after_failure : Node
after_failure = set_new_retry_wall_timestamp wall failing_node "blocked by a budget" (pos 2000)

set_new-increments_example :
    (get_drain_retry_attempts_count wall after_failure ≡ pos 3)
    × (get_retry_wall_timestamp wall after_failure
        ≡ pos 2000 +ℤ get_retry_delay wall failing_node (pos 3))
set_new-increments_example =
    set_new-increments wall failing_node "blocked by a budget" (pos 2000) 2 (pos 1000)
      two_failures_read (omega arith) midnight_lacks plain_reason

set_new_separator_example :
    (get_drain_retry_attempts_count wall
        (set_new_retry_wall_timestamp wall failing_node "a|b" (pos 2000))
      ≡ pos 0)
    × (get_retry_wall_timestamp wall
          (set_new_retry_wall_timestamp wall failing_node "a|b" (pos 2000))
        ≡ time_zero)
set_new_separator_example =
    set_new_separator wall failing_node "a|b" (pos 2000) 2 (pos 1000) two_failures_read
      (omega (arith, piped_reason))

exponential_delay_overflow_example :
    exponential_delay (λ _. pos 0) (pos 1_380_000_000_000) (pos 24)
    ≡ negsuc 6_870_465_033_709_551_615
exponential_delay_overflow_example =
    exponential_delay_overflow (λ _. pos 0) 1_380_000_000_000 23 (omega arith) (omega arith)
      (omega arith)
