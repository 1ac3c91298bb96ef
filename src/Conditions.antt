-- ===== src/Conditions.antt =====
-- internal/kubernetes/conditions.go: the conditions that the command line gives, as texts such as
-- `Ready={"conditionStatus":"Unknown","delay":"10m"}`. encoding/json and time.ParseDuration are
-- parameters, and so is the type of a rate, which is a float32.
pub mod Parsed
pub mod Tests
use Prim.Native.Char.{code}
use draino.Prelude.{
  ℕ, String, Bool, true, false, List, [], ◌∷◌, Option, none, some, if◌then◌else◌, ◌==◌, str_eq, ℤ,
  pos, ◌*◌, Dict, insert, lookup_text, map,
}
use draino.K8s.{Duration, Node, minute}
use draino.Filters.{SuppliedCondition}
use draino.RateLimiters.{Configuration}

-- strings.SplitN(_, sep, 2), where the separator occurs.
unfoldable pub split_once : ℕ → String → Option (String × String)
split_once sep String.[] = none
split_once sep (String.◌∷◌ c s) =
    let rest : Option (String × String) = elim (split_once sep s) [
      | none ↦ none
      | some (before, after) ↦ some (String.◌∷◌ c before, after)
    ] in
    if code c == sep then some ("", s) else rest

module _ (Rate : Type 0) where
  -- What the JSON of a condition gives.
  pub record RawCondition : Type 0 where
    pub kind : String
    pub status : String
    pub delay : String
    pub priority : ℤ
    pub expected_resolution_time : String
    pub rate_limit_qps : Option Rate
    pub rate_limit_burst : Option ℤ

  pub record ParseLib : Type 0 where
    pub unmarshal : String → Option RawCondition
    pub unmarshal_list : String → Option (List RawCondition)
    pub parse_duration : String → Option Duration

  pub record ParsedCondition : Type 0 where
    pub supplied : SuppliedCondition
    pub priority : ℤ
    pub rate_limit : Configuration Rate ℤ

-- Seven days.
abbrev pub default_expected_resolution_time : Duration
default_expected_resolution_time = pos (7 * 24 * 60 * minute)

module _ {Rate : Type 0} (lib : ParseLib Rate) where
  -- A text that is empty stands for the default, and is not parsed.
  unfoldable pub duration_or : (default : Duration) → String → Option Duration
  duration_or default text = if str_eq text "" then some default else lib.parse_duration text

  unfoldable pub supplied_of :
      (kind : String) → RawCondition Rate → (delay expected : Duration) → ParsedCondition Rate
  supplied_of kind raw delay expected = record {
    supplied = record {
      kind = kind;
      status = if str_eq raw.status "" then "True" else raw.status;
      parsed_delay = delay;
      parsed_expected_resolution_time = expected;
    };
    priority = raw.priority;
    rate_limit = record { qps = raw.rate_limit_qps; burst = raw.rate_limit_burst };
  }

  -- By the two durations, of which either may be an error.
  unfoldable pub with_durations :
      (kind : String)
      → RawCondition Rate
      → (delay expected : Option Duration) → Option (ParsedCondition Rate)
  unfolding supplied_of
  with_durations kind raw none expected = none
  with_durations kind raw (some delay) none = none
  with_durations kind raw (some delay) (some expected) = some (supplied_of kind raw delay expected)

  unfoldable pub condition_of_raw :
      (kind : String) → Option (RawCondition Rate) → Option (ParsedCondition Rate)
  unfolding duration_or with_durations
  condition_of_raw kind none = none
  condition_of_raw kind (some raw) =
      with_durations kind raw (duration_or (pos 0) raw.delay)
        (duration_or default_expected_resolution_time raw.expected_resolution_time)

  unfoldable pub condition_of_parts :
      (whole : String) → Option (String × String) → Option (ParsedCondition Rate)
  unfolding condition_of_raw
  condition_of_parts whole none = condition_of_raw whole (lib.unmarshal "{}")
  condition_of_parts whole (some (kind, json)) = condition_of_raw kind (lib.unmarshal json)

  -- A text without "=" is the type of the condition alone. The type in the JSON is not used.
  unfoldable pub parse_condition : String → Option (ParsedCondition Rate)
  unfolding condition_of_parts split_once
  parse_condition c = condition_of_parts c (split_once b'=' c)

  -- The first error is returned.
  unfoldable pub add_condition :
      Option (ParsedCondition Rate)
      → (rest : Option (List (ParsedCondition Rate))) → Option (List (ParsedCondition Rate))
  add_condition none rest = none
  add_condition (some c) none = none
  add_condition (some c) (some cs) = some (c ∷ cs)

  unfoldable pub parse_conditions : List String → Option (List (ParsedCondition Rate))
  unfolding parse_condition add_condition
  parse_conditions [] = some []
  parse_conditions (c ∷ cs) = add_condition (parse_condition c) (parse_conditions cs)

  -- The conditions of a node's annotation, whose texts are not parsed any further; `none` is an
  -- error.
  unfoldable pub parse_conditions_from_annotation : Node → Option (List (RawCondition Rate))
  parse_conditions_from_annotation n =
      let text = lookup_text "draino.planet.com/conditions" n.annotations in
      if str_eq text "" then some [] else lib.unmarshal_list text

-- A type that is given twice has the configuration of its last condition.
unfoldable pub add_rate_limits :
    {Rate : Type 0}
    → List (ParsedCondition Rate)
    → Dict (Configuration Rate ℤ)
    → Dict (Configuration Rate ℤ)
add_rate_limits [] m = m
add_rate_limits (c ∷ cs) m = add_rate_limits cs (insert c.supplied.kind c.rate_limit m)

unfoldable pub get_rate_limit_configuration :
    {Rate : Type 0} → List (ParsedCondition Rate) → Dict (Configuration Rate ℤ)
unfolding add_rate_limits
get_rate_limit_configuration cs = add_rate_limits cs []
