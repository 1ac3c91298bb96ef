-- ===== src/DrainRunner.antt =====
-- internal/drain_runner/runner.go: one candidate, from the filter to the drained taint. What the
-- API server, the drainer, the filter, the preprocessors and the clock answer during the call is the
-- record Calls. What the runner does to the world is the list of its actions, in order, and the
-- drain buffer. Logs, traces and metrics are left out.
pub mod Rounds
mod Path
mod Failure
mod Stuck
mod Tests
use draino.Prelude.{
  String, Bool, true, false, not, ◌&&◌, List, [], ◌∷◌, ◌++◌, Option, none, some, if◌then◌else◌,
  str_eq,
}
use draino.K8s.{Time, Duration, Node}
use draino.Taints.{
  TaintLib, Updated, taint_draining, taint_drained, add_nla_taint, remove_nla_taint,
}
use draino.Retry.Wall.{RetryWall, set_new_retry_wall_timestamp}
use draino.DrainBuffer.{DrainBuffer, store_drain_attempt}
use Prim.Native.String.{◌++◌ as append}

-- `marks` is an Update of the taints, `patches_wall` the status patch of the retry wall.
pub data Action : Type 0 where
  marks : Node → Action
  patches_wall : Node → Action
  resets_preprocessors : Node → Action
  drains : Node → Action
  emits : (reason : String) → Action

-- What a preprocessor's IsDone returns.
pub record Done : Type 0 where
  pub is_done : Bool
  pub reason : String
  pub failed : Bool

pub data Refreshed : Type 0 where
  found : Node → Refreshed
  not_found : Refreshed
  get_error : Refreshed

pub record Calls : Type 0 where
  pub keep : Bool
  pub preprocessors : List (Node → Done)
  pub remove_fails : Bool
  pub wall_fails : Bool
  pub draining_fails : Bool
  pub drained_fails : Bool
  pub drain_error : Option String
  pub refreshed : Refreshed
  pub buffer_configuration : Duration
  pub now : Time
  pub now_drained : Time

pub record Outcome : Type 0 where
  pub actions : List Action
  pub buffer : DrainBuffer
  pub failed : Bool

pub record Check : Type 0 where
  pub all_done : Bool
  pub should_abort : Bool
  pub abort_reason : String

abbrev pub is_abort : String → Bool
is_abort reason = not (str_eq reason "") && not (str_eq reason "processing")

unfoldable pub check_from : Bool → List (Node → Done) → Node → Check
check_from all_done [] candidate = record {
  all_done = all_done;
  should_abort = false;
  abort_reason = "";
}
check_from all_done (pre ∷ rest) candidate =
    let r = pre candidate in
    let next =
      check_from (if r.failed then false else if r.is_done then all_done else false) rest
        candidate in
    if r.failed
    then next
    else if is_abort r.reason
    then record { all_done = all_done; should_abort = true; abort_reason = r.reason }
    else next

unfoldable pub check_preprocessors : List (Node → Done) → Node → Check
unfolding check_from
check_preprocessors preprocessors candidate = check_from true preprocessors candidate

unfoldable pub write : Option Node → List Action
write none = []
write (some n) = marks n ∷ []

module _ (lib : TaintLib) (wall : RetryWall) (calls : Calls) (key : String) where
  -- RemoveNLATaint as the last call.
  unfoldable pub remove_last : DrainBuffer → Node → Outcome
  unfolding write
  remove_last buffer n =
      let u = remove_nla_taint lib calls.remove_fails n in
      record { actions = write u.written; buffer = buffer; failed = u.failed }

  -- updateRetryWallOnCandidate, then RemoveNLATaint on the node that it returns; `fails` says
  -- whether the caller returns an error all the same.
  unfoldable pub raise_wall_and_remove : (fails : Bool) → DrainBuffer → Node → String → Outcome
  unfolding remove_last
  raise_wall_and_remove fails buffer n reason =
      if calls.wall_fails
      then record { actions = []; buffer = buffer; failed = true }
      else let new_node = set_new_retry_wall_timestamp wall n reason calls.now in
        let o = remove_last buffer new_node in
        record {
          actions = patches_wall new_node ∷ emits "DrainFailed" ∷ o.actions;
          buffer = buffer;
          failed = if fails then true else o.failed;
        }

  unfoldable pub reject : DrainBuffer → Node → Outcome
  unfolding remove_last
  reject buffer candidate =
      let o = remove_last buffer candidate in
      record {
        actions = resets_preprocessors candidate ∷ o.actions;
        buffer = buffer;
        failed = o.failed;
      }

  unfoldable pub abort : DrainBuffer → Node → String → Outcome
  unfolding raise_wall_and_remove
  abort buffer candidate reason =
      let o =
        raise_wall_and_remove false buffer candidate (append "pre-conditions failed " reason) in
      record {
        actions = emits "DrainFailed" ∷ resets_preprocessors candidate ∷ o.actions;
        buffer = buffer;
        failed = o.failed;
      }

  -- After the drainer returned, by the node that refreshNode got.
  unfoldable pub conclude : DrainBuffer → Refreshed → Option String → Outcome
  unfolding raise_wall_and_remove write
  conclude buffer not_found _ = record { actions = []; buffer = buffer; failed = false }
  conclude buffer get_error _ = record { actions = []; buffer = buffer; failed = true }
  conclude buffer (found candidate) (some err) =
      let o = raise_wall_and_remove true buffer candidate err in
      record {
        actions = emits "DrainFailed" ∷ resets_preprocessors candidate ∷ o.actions;
        buffer = buffer;
        failed = true;
      }
  conclude buffer (found candidate) none =
      let u = add_nla_taint lib calls.drained_fails candidate calls.now_drained taint_drained in
      record {
        actions = write u.written ++ (if u.failed then [] else emits "DrainSucceeded" ∷ []);
        buffer = buffer;
        failed = u.failed;
      }

  -- drainCandidate stores the attempt whatever the drainer returned.
  unfoldable pub drain_candidate : DrainBuffer → DrainBuffer
  drain_candidate buffer =
      elim (store_drain_attempt key calls.buffer_configuration calls.now buffer) [
        | none ↦ buffer
        | some stored ↦ stored
      ]

  unfoldable pub start_draining : DrainBuffer → Node → Outcome
  unfolding drain_candidate conclude write
  start_draining buffer candidate =
      let u = add_nla_taint lib calls.draining_fails candidate calls.now taint_draining in
      if u.failed
      then record { actions = write u.written; buffer = buffer; failed = true }
      else elim u.node [
        | none ↦ record { actions = write u.written; buffer = buffer; failed = true }
        | some n ↦
            let o = conclude (drain_candidate buffer) calls.refreshed calls.drain_error in
            record {
              actions = write u.written ++ emits "DrainStarting" ∷ drains n ∷ o.actions;
              buffer = o.buffer;
              failed = o.failed;
            }
      ]

  unfoldable pub handle_candidate : DrainBuffer → Node → Outcome
  unfolding reject abort start_draining check_preprocessors
  handle_candidate buffer candidate =
      if not calls.keep
      then reject buffer candidate
      else let c = check_preprocessors calls.preprocessors candidate in
        if c.should_abort
        then abort buffer candidate c.abort_reason
        else if not c.all_done
        then record { actions = []; buffer = buffer; failed = false }
        else start_draining buffer candidate
