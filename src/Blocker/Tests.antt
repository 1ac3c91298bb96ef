-- ===== src/Blocker/Tests.antt =====
-- Two nodes, one of which is not ready.
use draino.Prelude.{
  ◌*◌, ◌≡◌, refl, String, true, false, List, [], ◌∷◌, none, some, length, pos, keep_if,
}
use draino.K8s.{Node}
use draino.Blocker.{max_not_ready_nodes, get_readiness_state}
use draino.Blocker.Share.{unready, max_not_ready_nodes-at_bound}

abbrev node : String → Node
node ready = record {
  name = "n";
  labels = [];
  annotations = [];
  taints = [];
  conditions =
      record {
        kind = "Ready";
        status = ready;
        last_heartbeat_time = pos 0;
        last_transition_time = pos 0;
        reason = "";
        message = "";
      }
      ∷ [];
  deletion_timestamp = none;
}

abbrev nodes : List Node
nodes = node "True" ∷ node "Unknown" ∷ []

one_unready : unready nodes ≡ 1
unfolding get_readiness_state keep_if
one_unready = refl

half_unready : 100 * unready nodes ≡ 50 * length nodes
unfolding get_readiness_state keep_if
half_unready = refl

max_not_ready_nodes-at_bound_example :
    (max_not_ready_nodes false 1 (some nodes) ≡ true)
    × (max_not_ready_nodes true 50 (some nodes) ≡ false)
max_not_ready_nodes-at_bound_example =
    max_not_ready_nodes-at_bound 1 50 nodes one_unready half_unready
