-- ===== src/Drainer/Marks.antt =====
-- drainer.go, the condition that a drain leaves on its node: MarkDrain, MarkDrainDelete,
-- GetDrainConditionStatus and ResetRetryAnnotation, with RetryWithTimeout of util.go. The layout of a
-- time and fmt.Sscanf are parameters.
pub mod Status
use Prim.Native.String.{◌++◌ as append}
use draino.Prelude.{
  ℕ, ◌+◌, ◌*◌, ◌≡◌, String, Bool, true, false, not, ◌&&◌, ◌||◌, List, [], ◌∷◌, ◌++◌, Option, none,
  some, if◌then◌else◌, str_eq, any, keep_if, map, length, ◌==◌, ℤ, pos, ltb_ℤ, eq_ℤ, lookup,
  lookup_text, insert, delete,
}
use draino.Prelude.Texts.{print_int, starts_with, contains, first_part}
use draino.K8s.{Time, Duration, time_zero, second, Node, Condition}
use draino.Retry.Strategy.{get_max_drain_attempts_before_fail}
use draino.Drainer.Poll.{Poll, done, again, PollLib, PollRun, Got, found, missing, get_error}

abbrev pub condition_drained_scheduled : String
condition_drained_scheduled = "DrainScheduled"

abbrev pub failed_key : String
failed_key = "draino/drain-retry-failed"

-- RetryWithTimeout: any error of `f` is tried again.
unfoldable pub retry_with_timeout :
    PollLib → (fails : ℕ → Bool) → (retry_period timeout : Duration) → PollRun
retry_with_timeout lib fails retry_period timeout =
    lib.poll_immediate retry_period timeout (λ n. if fails n then again else done)

-- What one try meets, and what it does: the node that it writes, and whether it is to be repeated.
pub record Try : Type 0 where
  pub fresh : Got Node
  pub update_fails : Bool
  pub now : Time

pub record Tried : Type 0 where
  pub written : Option Node
  pub failed : Bool

unfoldable pub on_fresh : (Node → Option Node) → Try → Tried
on_fresh change t = elim t.fresh [
  | missing ↦ record { written = none; failed = false }
  | get_error e ↦ record { written = none; failed = true }
  | found n ↦ elim (change n) [
    | none ↦ record { written = none; failed = false }
    | some m ↦ record { written = if t.update_fails then none else some m; failed = t.update_fails }
  ]
]

abbrev pub is_drain_condition : Condition → Bool
is_drain_condition c = str_eq c.kind condition_drained_scheduled

unfoldable pub unmark : Node → Option Node
unmark n =
    let new_conditions = keep_if (λ c. not (is_drain_condition c)) n.conditions in
    if length new_conditions == length n.conditions
    then none
    else some (record n { conditions = new_conditions })

unfoldable pub mark_drain_delete : Try → Tried
unfolding on_fresh unmark
mark_drain_delete t = on_fresh unmark t

-- The arguments of MarkDrain. A finish of zero stands for a drain that is only scheduled.
pub record Mark : Type 0 where
  pub when : Time
  pub finish : Time
  pub failed : Bool
  pub fail_count : ℤ

abbrev pub is_finished : Mark → Bool
is_finished k = not (eq_ℤ k.finish time_zero)

abbrev pub mark_status : Mark → String
mark_status k = if is_finished k then "False" else "True"

-- `n` is the node that the caller has, whose annotation sets the maximum of the attempts.
unfoldable pub marked_annotations :
    (max_drain_attempts : ℤ) → Mark → (n fresh : Node) → List (String × String)
marked_annotations max_drain_attempts k n fresh =
    if is_finished k
      && (k.failed
          && not (ltb_ℤ k.fail_count (get_max_drain_attempts_before_fail max_drain_attempts n)))
    then insert failed_key "failed" fresh.annotations
    else fresh.annotations

module _ (format_time : Time → String) where
  unfoldable pub message_suffix : Mark → String
  message_suffix k =
      if is_finished k
      then append " | "
          (append (if k.failed then "Failed" else "Completed") (append ": " (format_time k.finish)))
      else ""

  unfoldable pub drain_message : Mark → String
  unfolding message_suffix
  drain_message k = append (append "[" (append (print_int k.fail_count) "]")) (
      append " | "
        (append "Drain activity scheduled " (append (format_time k.when) (message_suffix k))))

  unfoldable pub stamp_drain : Mark → Time → Condition → Condition
  unfolding drain_message
  stamp_drain k now c =
      if is_drain_condition c
      then record c { last_heartbeat_time = now; message = drain_message k; status = mark_status k }
      else c

  abbrev pub new_drain_condition : Mark → Time → Condition
  new_drain_condition k now = record {
    kind = condition_drained_scheduled;
    status = mark_status k;
    last_heartbeat_time = now;
    last_transition_time = now;
    reason = "Draino";
    message = drain_message k;
  }

  unfoldable pub stamped : Mark → Time → List Condition → List Condition
  unfolding stamp_drain
  stamped k now cs =
      if any is_drain_condition cs
      then map (stamp_drain k now) cs
      else cs ++ new_drain_condition k now ∷ []

  unfoldable pub marked : (max_drain_attempts : ℤ) → Mark → Time → (n fresh : Node) → Node
  unfolding stamped marked_annotations
  marked max_drain_attempts k now n fresh = record fresh {
    annotations = marked_annotations max_drain_attempts k n fresh;
    conditions = stamped k now fresh.conditions;
  }

  unfoldable pub mark_drain : (max_drain_attempts : ℤ) → Mark → Node → Try → Tried
  unfolding on_fresh marked
  mark_drain max_drain_attempts k n t =
      on_fresh (λ fresh. some (marked max_drain_attempts k t.now n fresh)) t

pub record DrainConditionStatus : Type 0 where
  pub marked : Bool
  pub completed : Bool
  pub failed : Bool
  pub failed_count : ℤ
  pub last_transition : Time

-- A status, and whether there is an error.
pub record StatusRead : Type 0 where
  pub status : DrainConditionStatus
  pub has_error : Bool

-- `scan` is Sscanf with "[%d]".
module _ (scan : String → Option ℤ) where
  unfoldable pub read_status : Condition → ℤ → StatusRead
  read_status c count =
      let status : DrainConditionStatus = record {
        marked = true;
        completed = false;
        failed = false;
        failed_count = count;
        last_transition = c.last_transition_time;
      } in
      if str_eq c.status "False"
      then if contains "Completed" c.message
        then record { status = record status { completed = true }; has_error = false }
        else if contains "Failed" c.message
        then record { status = record status { failed = true }; has_error = false }
        else record { status = status; has_error = true }
      else record { status = status; has_error = not (str_eq c.status "True") }

  unfoldable pub read_condition : Condition → StatusRead
  unfolding read_status
  read_condition c =
      let prefix = first_part " | " c.message in
      if starts_with "[" prefix
      then elim (scan prefix) [
        | some count ↦ read_status c count
        | none ↦ record {
          status = record {
            marked = true;
            completed = false;
            failed = false;
            failed_count = pos 0;
            last_transition = c.last_transition_time;
          };
          has_error = true;
        }
      ]
      else read_status c (pos 0)

  -- The first condition of the drain counts.
  unfoldable pub get_drain_condition_status : List Condition → StatusRead
  unfolding read_condition
  get_drain_condition_status [] = record {
    status = record {
      marked = false;
      completed = false;
      failed = false;
      failed_count = pos 0;
      last_transition = time_zero;
    };
    has_error = false;
  }
  get_drain_condition_status (c ∷ cs) =
      let rest = get_drain_condition_status cs in
      if is_drain_condition c then read_condition c else rest
