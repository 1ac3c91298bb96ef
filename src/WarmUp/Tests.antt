-- ===== src/WarmUp/Tests.antt =====
-- A running pod of one container with a startup probe of 25 seconds.
use draino.Prelude.{
  ◌*◌, ◌≡◌, refl, true, false, [], ◌∷◌, none, some, pos, lookup, insert, ◌+ℤ◌, ◌-ℤ◌, ◌*ℤ◌, any, all,
}
use draino.K8s.{Duration, second}
use draino.WarmUp.{
  StartingPod, wrap_int32, get_probe_delay, get_max_probe_delay, get_container_warm_up_delay,
  warm_up_delays, delay_of, has_failed, has_image_failure_or_clb_container,
  all_main_containers_have_started_at_least_once, is_starting, is_warming_up_pod, add_blocking,
  blocking_pods_on_node,
}

abbrev pod : StartingPod
pod = record {
  phase = "Running";
  containers =
      record {
        name = "main";
        startup_probe = some (record {
          initial_delay_seconds = pos 5;
          period_seconds = pos 20;
          success_threshold = pos 1;
        });
        liveness_probe = none;
      }
      ∷ [];
  ephemeral_container_statuses = [];
  init_container_statuses = [];
  container_statuses =
      record {
        name = "main";
        restart_count = pos 0;
        waiting = none;
        running = some (pos 0);
        terminated = false;
        last_terminated = false;
      }
      ∷ [];
}

abbrev extension : Duration
extension = pos (30 * second)

warming_up : is_warming_up_pod extension (pos (54 * second)) pod ≡ true
unfolding is_warming_up_pod has_image_failure_or_clb_container has_failed warm_up_delays delay_of
    all_main_containers_have_started_at_least_once is_starting get_container_warm_up_delay
    get_max_probe_delay get_probe_delay wrap_int32 lookup insert any all ◌+ℤ◌ ◌-ℤ◌ ◌*ℤ◌
warming_up = refl

warmed_up : is_warming_up_pod extension (pos (55 * second)) pod ≡ false
unfolding is_warming_up_pod has_image_failure_or_clb_container has_failed warm_up_delays delay_of
    all_main_containers_have_started_at_least_once is_starting get_container_warm_up_delay
    get_max_probe_delay get_probe_delay wrap_int32 lookup insert any all ◌+ℤ◌ ◌-ℤ◌ ◌*ℤ◌
warmed_up = refl

blocking :
    blocking_pods_on_node (
      some (
        record { pod = "web-0"; is_ready = true; pdbs = none }
        ∷ record { pod = "web-1"; is_ready = false; pdbs = some ("ns/web" ∷ []) }
        ∷ []))
    ≡ some (record { pod = "web-1"; pdb = "ns/web" } ∷ [])
unfolding blocking_pods_on_node add_blocking
blocking = refl
