-- ===== src/Retry/Wall.antt =====
-- retry_wall.go: the retry wall over the conditions of a node.
use draino.Prelude.{
  ℕ, zero, suc, String, Bool, false, not, List, [], ◌∷◌, ◌++◌, Option, none, some, ℤ, pos, ◌+ℤ◌,
  ltb_ℤ, length, if◌then◌else◌, lookup, insert, Dict, str_eq, eq_ℤ,
}
use draino.K8s.{Time, Duration, time_zero, Node, Condition}
use draino.Retry.Message.{serialize, unserialize}
use draino.Retry.Strategy.{
  RetryStrategy, get_name, get_alert_threshold, get_delay, build_node_annotation_strategy,
  retry_strategy_key,
}

-- utils.FindNodeCondition: the position and the condition; the last match wins.
unfoldable pub find_node_condition : String → List Condition → Option (ℕ × Condition)
find_node_condition kind [] = none
find_node_condition kind (c ∷ cs) = elim (find_node_condition kind cs) [
  | none ↦ if str_eq c.kind kind then some (0, c) else none
  | some (pos_of_last, d) ↦ some (suc pos_of_last, d)
]

abbrev pub retry_wall_condition : String
retry_wall_condition = "DrainFailure"

-- The library calls of the package, and the wall's own fields.
pub record RetryWall : Type 0 where
  pub parse_duration : String → Option Duration
  pub format_time : Time → String
  pub float_to_int : ℕ → ℤ
  pub default_strategy : RetryStrategy
  pub strategies : Dict RetryStrategy

unfoldable pub register : List RetryStrategy → Dict RetryStrategy → Dict RetryStrategy
register [] m = m
register (s ∷ ss) m = register ss (insert (get_name s) s m)

-- NewRetryWall: `none` is the error for no strategy.
unfoldable pub new_retry_wall :
    (String → Option Duration) → (Time → String) → (ℕ → ℤ) → List RetryStrategy → Option RetryWall
unfolding register
new_retry_wall parse_duration format_time float_to_int [] = none
new_retry_wall parse_duration format_time float_to_int (s ∷ ss) = some (record {
  parse_duration = parse_duration;
  format_time = format_time;
  float_to_int = float_to_int;
  default_strategy = s;
  strategies = register (s ∷ ss) [];
})

unfoldable pub new_condition : Time → Condition
new_condition now = record {
  kind = retry_wall_condition;
  status = "True";
  last_heartbeat_time = time_zero;
  last_transition_time = now;
  reason = "DrainRetryWall";
  message = "";
}

-- `conditions[pos] = ...`
unfoldable pub modify_at : ℕ → (Condition → Condition) → List Condition → List Condition
modify_at i f [] = []
modify_at zero f (c ∷ cs) = f c ∷ cs
modify_at (suc i) f (c ∷ cs) = c ∷ modify_at i f cs

unfoldable pub stamp : Time → String → Condition → Condition
stamp now message c = record c { last_heartbeat_time = now; message = message }

-- The conditions that patchRetryCountOnNode leaves on the node.
unfoldable pub patched_conditions : Time → String → List Condition → List Condition
unfolding new_condition modify_at stamp
patched_conditions now message cs = elim (find_node_condition retry_wall_condition cs) [
  | none ↦ modify_at (length cs) (stamp now message) (cs ++ new_condition now ∷ [])
  | some (p, condition) ↦ modify_at p (stamp now message) cs
]

module _ (wall : RetryWall) where
  unfoldable pub strategy_from_node : Node → RetryStrategy
  strategy_from_node n =
      let base : RetryStrategy = elim (lookup retry_strategy_key n.annotations) [
        | none ↦ wall.default_strategy
        | some val ↦ elim (lookup val wall.strategies) [
          | none ↦ wall.default_strategy
          | some strategy ↦ strategy
        ]
      ] in
      (build_node_annotation_strategy wall.parse_duration n base).0

  unfoldable pub get_retry_delay : Node → ℤ → Duration
  get_retry_delay n retries = get_delay wall.float_to_int (strategy_from_node n) retries

  -- getRetry: `none` is the error.
  unfoldable pub get_retry : Node → Option (ℤ × Time)
  get_retry n = elim (find_node_condition retry_wall_condition n.conditions) [
    | none ↦ some (pos 0, time_zero)
    | some (p, condition) ↦ elim (unserialize condition.message) [
      | none ↦ none
      | some retry_count ↦ some (retry_count, condition.last_heartbeat_time)
    ]
  ]

  unfoldable pub get_retry_wall_timestamp : Node → Time
  get_retry_wall_timestamp n = elim (get_retry n) [
    | none ↦ time_zero
    | some (retries, last_heartbeat) ↦
        if eq_ℤ retries (pos 0) then time_zero else last_heartbeat +ℤ get_retry_delay n retries
  ]

  unfoldable pub get_drain_retry_attempts_count : Node → ℤ
  get_drain_retry_attempts_count n = elim (get_retry n) [
    | none ↦ pos 0
    | some (retries, last_heartbeat) ↦ retries
  ]

  unfoldable pub is_above_alerting_threshold : Node → Bool
  is_above_alerting_threshold n = elim (get_retry n) [
    | none ↦ false
    | some (retries, last_heartbeat) ↦
        not (ltb_ℤ retries (get_alert_threshold (strategy_from_node n)))
  ]

  -- The new node. The status patch that is sent to the API server for it may fail, and the caller
  -- is given the node with the error.
  unfoldable pub patch_retry_count : Node → ℤ → String → Time → Node
  unfolding patched_conditions
  patch_retry_count n retry_count reason now =
      let blocked_until = now +ℤ get_retry_delay n retry_count in
      let message = serialize wall.format_time retry_count blocked_until reason in
      record n { conditions = patched_conditions now message n.conditions }

  unfoldable pub set_new_retry_wall_timestamp : Node → String → Time → Node
  set_new_retry_wall_timestamp n reason now =
      let retry_count : ℤ = elim (get_retry n) [ none ↦ pos 0 | some (count, _) ↦ count ] in
      patch_retry_count n (retry_count +ℤ pos 1) reason now

  unfoldable pub reset_retry_count : Node → Time → Node
  reset_retry_count n now = patch_retry_count n (pos 0) "Retry count was reset to zero" now
