-- ===== src/Conditions/Tests.antt =====
-- A library that knows one JSON text, and two conditions of which one is given twice.
use draino.Prelude.{
  ℕ, ◌≡◌, refl, String, true, List, [], ◌∷◌, Option, none, some, if◌then◌else◌, str_eq, ℤ, pos,
  lookup, insert,
}
use draino.RateLimiters.{TokenBucket, TypedLimiter, or_default, new_limiter}
use draino.Conditions.{
  RawCondition, ParseLib, ParsedCondition, split_once, supplied_of, duration_or, with_durations,
  condition_of_raw, condition_of_parts, parse_condition, add_condition, parse_conditions,
  add_rate_limits, get_rate_limit_configuration, default_expected_resolution_time,
}
use draino.Conditions.Parsed.{qps_of, burst_of, last_rate_limit, new_limiter-of_conditions}

abbrev plain : RawCondition ℕ
plain = record {
  kind = "";
  status = "";
  delay = "";
  priority = pos 0;
  expected_resolution_time = "";
  rate_limit_qps = none;
  rate_limit_burst = none;
}

abbrev pub lib : ParseLib ℕ
lib = record {
  unmarshal = λ json.
      if str_eq json "{}"
      then some plain
      else if str_eq json "{\"delay\":\"10m\"}"
      then some (record plain { delay = "10m"; rate_limit_qps = some 3 })
      else none;
  unmarshal_list = λ json. none;
  parse_duration = λ text. if str_eq text "10m" then some (pos 600) else none;
}

abbrev pub condition : (kind : String) → (delay : ℕ) → Option ℕ → ParsedCondition ℕ
condition kind delay qps = record {
  supplied = record {
    kind = kind;
    status = "True";
    parsed_delay = pos delay;
    parsed_expected_resolution_time = default_expected_resolution_time;
  };
  priority = pos 0;
  rate_limit = record { qps = qps; burst = none };
}

abbrev texts : List String
texts = "Old" ∷ "Old={\"delay\":\"10m\"}" ∷ []

abbrev conditions : List (ParsedCondition ℕ)
conditions = condition "Old" 0 none ∷ condition "Old" 600 (some 3) ∷ []

accepted : parse_conditions lib texts ≡ some conditions
unfolding parse_conditions parse_condition condition_of_parts condition_of_raw with_durations
    supplied_of duration_or add_condition split_once
accepted = refl

refused : parse_conditions lib ("Old" ∷ "Old=" ∷ []) ≡ none
unfolding parse_conditions parse_condition condition_of_parts condition_of_raw with_durations
    supplied_of duration_or add_condition split_once
refused = refl

-- A limiter as its two numbers.
abbrev numbers : TokenBucket ℕ ℤ (ℕ × ℤ)
numbers = record { new = λ rate burst. (rate, burst); accept = λ now limiter. (true, limiter) }

abbrev limiters : TypedLimiter ℕ ℤ (ℕ × ℤ)
limiters = record {
  default_qps = 1;
  default_burst = pos 5;
  rl_configs = get_rate_limit_configuration conditions;
  rate_limiters = [];
}

last_counts : new_limiter numbers limiters "Old" ≡ (3, pos 5)
unfolding new_limiter or_default get_rate_limit_configuration add_rate_limits lookup insert
last_counts = refl

new_limiter-of_conditions_example :
    new_limiter numbers limiters "Old"
    ≡ numbers.new
        (or_default (qps_of (last_rate_limit "Old" conditions)) 1)
        (or_default (burst_of (last_rate_limit "Old" conditions)) (pos 5))
new_limiter-of_conditions_example = new_limiter-of_conditions numbers limiters conditions "Old" refl
