-- ===== src/Retry/Strategy.antt =====
-- retry_strategies.go, and the annotation that GetNodeRetryMaxAttempt of drainer.go reads.
use draino.Prelude.{
  ℕ, zero, suc, ◌-◌, ◌%◌, ◌^◌, String, Bool, true, false, Option, none, some, ℤ, pos, negsuc, ◌*ℤ◌,
  ltb, ltb_ℤ, if◌then◌else◌, lookup,
}
use draino.Prelude.Texts.{parse_int}
use draino.K8s.{Duration, Node}

-- The value of an int64 after a multiplication that may wrap around.
unfoldable pub from_bits : ℕ → ℤ
from_bits m = if ltb m (2 ^ 63) then pos m else negsuc (2 ^ 64 - 1 - m)

unfoldable pub wrap_int64 : ℤ → ℤ
unfolding from_bits
wrap_int64 (pos n) = from_bits (n % 2 ^ 64)
wrap_int64 (negsuc n) = from_bits (2 ^ 64 - 1 - n % 2 ^ 64)

pub data RetryStrategy : Type 0 where
  static : (alert_threshold : ℤ) (delay : Duration) → RetryStrategy
  exponential : (alert_threshold : ℤ) (delay : Duration) → RetryStrategy
  node_annotation :
      (alert_threshold : Option ℤ) (delay : Option Duration) (default_strategy : RetryStrategy)
      → RetryStrategy

unfoldable pub get_name : RetryStrategy → String
get_name (static _ _) = "StaticRetryStrategy"
get_name (exponential _ _) = "ExponentialRetryStrategy"
get_name (node_annotation _ _ _) = "NodeAnnotationRetryStrategy"

unfoldable pub get_alert_threshold : RetryStrategy → ℤ
get_alert_threshold (static a _) = a
get_alert_threshold (exponential a _) = a
get_alert_threshold (node_annotation none _ s) = get_alert_threshold s
get_alert_threshold (node_annotation (some a) _ s) = a

-- int64(math.Pow(2, float64(retries))): powers of two are exact floats.
unfoldable pub power : (float_to_int : ℕ → ℤ) → ℕ → ℤ
power float_to_int retries =
    if ltb retries 63 then pos (2 ^ retries) else float_to_int (2 ^ retries)

unfoldable pub exponential_delay : (float_to_int : ℕ → ℤ) → Duration → ℤ → Duration
unfolding power wrap_int64
exponential_delay float_to_int delay (pos zero) = pos 0
exponential_delay float_to_int delay (pos (suc retries)) =
    wrap_int64 (power float_to_int retries *ℤ delay)
exponential_delay float_to_int delay (negsuc _) = pos 0

unfoldable pub get_delay : (float_to_int : ℕ → ℤ) → RetryStrategy → ℤ → Duration
unfolding exponential_delay
get_delay float_to_int (static _ delay) retries = delay
get_delay float_to_int (exponential _ delay) retries = exponential_delay float_to_int delay retries
get_delay float_to_int (node_annotation _ none s) retries = get_delay float_to_int s retries
get_delay float_to_int (node_annotation _ (some delay) s) retries = delay

-- What GetNodeRetryMaxAttempt returns: the value, whether to use the default, and whether there is
-- an error.
pub record MaxAttempt : Type 0 where
  pub custom_value : ℤ
  pub used_default : Bool
  pub failed : Bool

-- By the parsed value of the annotation.
unfoldable pub max_attempt_of : Option ℤ → MaxAttempt
max_attempt_of none = record { custom_value = pos 0; used_default = true; failed = true }
max_attempt_of (some max_value) =
    if ltb_ℤ max_value (pos 1)
    then record { custom_value = pos 0; used_default = true; failed = true }
    else if ltb_ℤ (pos 100) max_value
    then record { custom_value = pos 100; used_default = false; failed = true }
    else record { custom_value = max_value; used_default = false; failed = false }

abbrev pub max_attempt_key : String
max_attempt_key = "draino/retry-max-attempt"

abbrev pub retry_delay_key : String
retry_delay_key = "draino/retry-delay"

abbrev pub retry_strategy_key : String
retry_strategy_key = "draino/retry-strategy"

unfoldable pub get_node_retry_max_attempt : Node → MaxAttempt
unfolding max_attempt_of
get_node_retry_max_attempt n = elim (lookup max_attempt_key n.annotations) [
  | none ↦ record { custom_value = pos 0; used_default = true; failed = false }
  | some max_str ↦ max_attempt_of (parse_int (2 ^ 63) max_str)
]

-- GetMaxDrainAttemptsBeforeFail of the APIDrainer, whose own maximum is the first argument.
unfoldable pub get_max_drain_attempts_before_fail : ℤ → Node → ℤ
get_max_drain_attempts_before_fail max_drain_attempts n =
    let m = get_node_retry_max_attempt n in
    if m.used_default then max_drain_attempts else m.custom_value

unfoldable pub threshold_of : MaxAttempt → Option ℤ
threshold_of m = if m.failed then none else if m.used_default then none else some m.custom_value

-- The strategy and whether there was an error.
unfoldable pub build_node_annotation_strategy :
    (parse_duration : String → Option Duration) → Node → RetryStrategy → RetryStrategy × Bool
unfolding threshold_of
build_node_annotation_strategy parse_duration n default_strategy =
    let m = get_node_retry_max_attempt n in
    let threshold = threshold_of m in
    elim (lookup retry_delay_key n.annotations) [
      | none ↦ (node_annotation threshold none default_strategy, m.failed)
      | some val ↦ elim (parse_duration val) [
        | none ↦ (node_annotation threshold none default_strategy, true)
        | some d ↦ (node_annotation threshold (some d) default_strategy, m.failed)
      ]
    ]
