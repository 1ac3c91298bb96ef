-- ===== src/Filters/Tests.antt =====
-- The filters of the factory on one node, and a concrete instance of each theorem.
use draino.Prelude.{◌≡◌, refl, true, false, List, [], ◌∷◌, some, ltb_ℤ, pos, lookup, ◌-ℤ◌}
use draino.K8s.{Time, Node}
use draino.Retry.Wall.{get_retry_wall_timestamp, find_node_condition, get_retry}
use draino.Retry.Tests.{wall, failing_node}
use draino.DrainBuffer.{next_drain}
use draino.Filters.{
  Filter, pod_answer, Config, filter_node_all, build_candidate_filter, terminating_filter,
  filter_from_function, filter_node_from, filter_node, condition_filter,
  get_node_offending_conditions, at_least_one_condition_accepted, pod_filter, label_filter,
  retry_filter, stability_filter, drain_buffer_filter, global_blocker_filter, pvc_bound_filter,
}
use draino.Filters.Agreement.{build_candidate_filter-keeps}

abbrev deleted_node : Node
deleted_node = record failing_node { deletion_timestamp = some (pos 5) }

abbrev two_filters : List Filter
two_filters = terminating_filter ∷ filter_from_function "labels" (λ n. true) ∷ []

rejected : (filter_node_all two_filters deleted_node).keep ≡ false
unfolding filter_node_all filter_node_from filter_node terminating_filter filter_from_function
rejected = refl

abbrev bad_node : Node
bad_node = record failing_node {
  conditions =
      record {
        kind = "KernelDeadlock";
        status = "True";
        last_heartbeat_time = pos 0;
        last_transition_time = pos 0;
        reason = "";
        message = "";
      }
      ∷ [];
}

abbrev config : Config
config = record {
  now = pos 5000;
  supplied_conditions =
      record {
        kind = "KernelDeadlock";
        status = "True";
        parsed_delay = pos 100;
        parsed_expected_resolution_time = pos 1000;
      }
      ∷ [];
  node_labels = λ n. true;
  list_pods = some (λ n. some []);
  pod_answer_of = λ p. pod_answer true "";
  wall = wall;
  accepts_drain = λ n t. true;
  buffer = record {
    is_initialized = true;
    is_dirty = false;
    cache = [];
    default_drain_buffer = pos 60;
  };
  group_key = λ n. "g";
  blocked = (false, "");
  pods_by_volume = λ n. some [];
  error_text = λ n. "";
}

kept : (filter_node_all (build_candidate_filter config) bad_node).keep ≡ true
unfolding filter_node_all filter_node_from filter_node build_candidate_filter condition_filter
    get_node_offending_conditions at_least_one_condition_accepted lookup pod_filter label_filter
    retry_filter terminating_filter stability_filter drain_buffer_filter global_blocker_filter
    pvc_bound_filter filter_from_function get_retry_wall_timestamp get_retry find_node_condition
    next_drain ◌-ℤ◌
kept = refl

build_candidate_filter-keeps_example :
    (ltb_ℤ (get_retry_wall_timestamp config.wall bad_node) config.now ≡ true)
    × ((t : Time) × (next_drain (config.group_key bad_node) config.buffer ≡ some t)
        × (ltb_ℤ t config.now ≡ true))
    × (config.blocked.0 ≡ false)
    × (config.node_labels bad_node ≡ true)
    × (config.accepts_drain bad_node config.now ≡ true)
    × (config.pods_by_volume bad_node ≡ some [])
build_candidate_filter-keeps_example = build_candidate_filter-keeps config bad_node kept
