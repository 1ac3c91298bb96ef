-- ===== src/Options/Tests.antt =====
-- Options with one condition and a maximum of each kind.
use draino.Prelude.{
  ℕ, ◌≡◌, refl, String, true, false, [], ◌∷◌, Option, none, some, if◌then◌else◌, str_eq, ℤ, pos,
  insert,
}
use draino.K8s.{minute, second}
use draino.Conditions.{
  parse_conditions, parse_condition, condition_of_parts, condition_of_raw, with_durations,
  supplied_of, duration_or, add_condition, split_once,
}
use draino.Conditions.Tests.{lib, condition}
use draino.Options.{
  valid, invalid, bad_max_pending_pods, trim_percent, with_percent, parse_max_in_parameter,
  parse_maxima, Options, Settings, config_map_name, validate,
}

abbrev atoi : String → Option ℤ
atoi s = if str_eq s "10" then some (pos 10) else none

abbrev options : Options
options = record {
  config_name = "default";
  drain_buffer_config_map_name = "";
  max_not_ready_nodes = "10" ∷ [];
  max_pending_pods = "10%" ∷ [];
  conditions = "Old" ∷ [];
  group_runner_period = pos minute;
  pod_warmup_delay_extension = pos second;
}

abbrev settings : Settings ℕ
settings = record {
  drain_buffer_config_map_name = "draino-default-drain-buffer";
  max_not_ready_nodes_functions = ("10", (pos 10, false)) ∷ [];
  max_pending_pods_functions = ("10%", (pos 10, true)) ∷ [];
  supplied_conditions = condition "Old" 0 none ∷ [];
}

accepted : validate lib atoi (λ cs. cs) options ≡ valid settings
unfolding validate parse_maxima parse_max_in_parameter with_percent trim_percent insert
    config_map_name parse_conditions parse_condition condition_of_parts condition_of_raw
    with_durations supplied_of duration_or add_condition split_once
accepted = refl

refused :
    validate lib atoi (λ cs. cs) (record options { max_pending_pods = "ten" ∷ [] })
    ≡ invalid bad_max_pending_pods
unfolding validate parse_maxima parse_max_in_parameter with_percent trim_percent insert
refused = refl
