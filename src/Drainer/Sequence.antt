-- ===== src/Drainer/Sequence.antt =====
-- drainer.go, the eviction of one pod: evictionSequence, awaitDeletion and the grace periods. The
-- loop runs on fuel, one unit for each round. A round asks the environment for its answers; time is
-- counted from the start of the sequence, and the call context is done at the eviction timeout.
pub mod Rule
pub mod Deadline
pub mod Attempts
pub mod Gone
pub mod Scope
use draino.Prelude.{
  ℕ, zero, suc, ◌+◌, ◌-◌, ◌*◌, String, Bool, true, false, List, [], ◌∷◌, ◌++◌, Option, none, some,
  if◌then◌else◌, ltb, leb, ℤ, pos, ◌+ℤ◌, ltb_ℤ, ◌*ℤ◌, map, pos_part, ◌||◌, ◌&&◌, not,
}
use draino.K8s.{Time, Duration, second, minute}
use draino.Drainer.Errors.{
  DrainError, pod_deletion_timeout, eviction_aborted, pod_eviction_timeout, volume_cleanup, other,
}
use draino.Drainer.Poll.{PollLib, PollResult, met, timed_out, failed, Got, gone, poll_period}
use draino.Drainer.Volumes.{
  Claim, ClaimCalls, Deletion, Cleanup, VolumeConfig, get_in_scope_pvcs, delete_pvc_and_pv,
}

-- What an eviction function returns, by the classes that the loop tells apart.
pub data Attempt : Type 0 where
  accepted not_found : Attempt
  too_many_requests : (retry_after_seconds : Option ℤ) → Attempt
  refused : DrainError → Attempt

-- The pod, as the drainer read it when the drain began.
pub record Target : Type 0 where
  pub namespace : String
  pub name : String
  pub uid : String
  pub is_terminating : Bool
  pub termination_grace_period_seconds : Option ℤ
  pub cleanup_annotation : Option String
  pub eviction_url : Option String
  pub claim_names : List String

pub record DrainerConfig : Type 0 where
  pub min_eviction_timeout : Duration
  pub eviction_headroom : Duration
  pub volumes : VolumeConfig

-- What one round meets: whether the drain was aborted, whether Go's select takes that branch when
-- the time is over too, the claims that Get returns, the time that the round's calls take, and what
-- the pod's and the claims' deletion meets.
pub record Round : Type 0 where
  pub is_aborted : Bool
  pub takes_abort : Bool
  pub get_claim : String → Got Claim
  pub spends : ℕ
  pub polled_uid : ℕ → Got String
  pub claim_calls : Claim → ClaimCalls

-- What the drainer does to the cluster.
pub data Action : Type 0 where
  evicts : Action
  waits : (nanoseconds : ℕ) → Action
  deletes : Deletion → Action

-- `error` is what the function returns.
pub record Eviction : Type 0 where
  pub actions : List Action
  pub error : Option DrainError

-- core.DefaultTerminationGracePeriodSeconds.
abbrev pub default_termination_grace_period_seconds : ℤ
default_termination_grace_period_seconds = pos 30

unfoldable pub grace_period_with_headroom : DrainerConfig → Target → Duration
grace_period_with_headroom config pod =
    let grace_period : ℤ = elim pod.termination_grace_period_seconds [
      | none ↦ default_termination_grace_period_seconds
      | some s ↦ s
    ] in
    grace_period *ℤ pos second +ℤ config.eviction_headroom

unfoldable pub min_eviction_timeout_with_headroom : DrainerConfig → Target → Duration
min_eviction_timeout_with_headroom config pod =
    let grace_period : Duration = elim pod.termination_grace_period_seconds [
      | none ↦ config.min_eviction_timeout
      | some s ↦
          if ltb_ℤ config.min_eviction_timeout (s *ℤ pos second)
          then s *ℤ pos second
          else config.min_eviction_timeout
    ] in
    grace_period +ℤ config.eviction_headroom

unfoldable pub deletion_error : PollResult → Option DrainError
deletion_error met = none
deletion_error timed_out = some pod_deletion_timeout
deletion_error (failed e) = some (other e)

unfoldable pub await_deletion :
    PollLib
    → (uid : String) → (polled_uid : ℕ → Got String) → (timeout : Duration) → Option DrainError
unfolding gone poll_period deletion_error
await_deletion lib uid polled_uid timeout =
    deletion_error
      (lib.poll_immediate (poll_period timeout) timeout (λ n. gone uid (polled_uid n))).result

-- The proposed wait is taken if it is positive, the step of the backoff otherwise.
unfoldable pub wait_time : (backoff : ℕ) → Option ℤ → ℕ
wait_time backoff none = backoff
wait_time backoff (some proposed) =
    if ltb_ℤ (pos 0) proposed then pos_part proposed * second else backoff

-- select of time.After and the context's end.
unfoldable pub wait_until_done : (timeout now wait : ℕ) → ℕ
wait_until_done timeout now wait = if leb (now + wait) timeout then wait else timeout - now

unfoldable pub conclude_cleanup : Cleanup → Eviction
conclude_cleanup c = record {
  actions = map deletes c.deletions;
  error = elim c.error [ none ↦ none | some e ↦ some (volume_cleanup e) ];
}

unfoldable pub act : List Action → Option Eviction → Option Eviction
act before none = none
act before (some e) = some (record e { actions = before ++ e.actions })

abbrev pub timeout_ns : DrainerConfig → Target → ℕ
timeout_ns config pod = pos_part (min_eviction_timeout_with_headroom config pod)

unfoldable pub timeout_error : Target → DrainError
timeout_error pod = pod_eviction_timeout (elim pod.eviction_url [ none ↦ false | some url ↦ true ])

-- A pod that is already terminating is not evicted again.
abbrev pub evicts_once : Target → List Action
evicts_once pod = if pod.is_terminating then [] else evicts ∷ []

-- What the loop carries from round to round: `round_number` counts the rounds, `steps` those of the
-- backoff, and `kept` is what the eviction function keeps between its calls.
pub record Progress (State : Type 0) : Type 0 where
  pub round_number : ℕ
  pub steps : ℕ
  pub now : ℕ
  pub kept : State

pub data Next (State : Type 0) : Type 0 where
  returns : Eviction → Next State
  goes_on : (before : List Action) → Progress State → Next State

-- The loop after one turn, by what the later turns come to.
unfoldable pub continue_with :
    {State : Type 0} → (Progress State → Option Eviction) → Next State → Option Eviction
unfolding act
continue_with later (returns e) = some e
continue_with later (goes_on before p) = act before (later p)

-- The pod is gone: what is left to do for its claims.
unfoldable pub clean_up : PollLib → Target → Round → List Claim → Eviction
unfolding conclude_cleanup
clean_up lib pod r pvcs =
    conclude_cleanup (delete_pvc_and_pv lib r.claim_calls pod.namespace pod.name pvcs)

unfoldable pub after_deletion : PollLib → Target → Round → List Claim → Option DrainError → Eviction
unfolding clean_up
after_deletion lib pod r pvcs (some e) = record { actions = []; error = some e }
after_deletion lib pod r pvcs none = clean_up lib pod r pvcs

-- The eviction was accepted.
unfoldable pub confirm : PollLib → DrainerConfig → Target → Round → List Claim → Eviction
unfolding after_deletion
confirm lib config pod r pvcs =
    after_deletion lib pod r pvcs
      (await_deletion lib pod.uid r.polled_uid (grace_period_with_headroom config pod))

-- `step` is wait.Backoff.Step, by the number of its earlier calls.
module _ {State : Type 0} (lib : PollLib) (step : ℕ → ℕ) (config : DrainerConfig) (pod : Target)
    (evict : ℕ → State → State × Attempt) (handle : DrainError → Option DrainError)
    (rounds : ℕ → Round) where
  unfoldable pub attempt : Progress State → State × Attempt
  attempt p = if pod.is_terminating then (p.kept, accepted) else evict p.round_number p.kept

  -- By what the error handler returns.
  unfoldable pub after_refusal : Progress State → State → Option DrainError → Next State
  after_refusal p kept (some e) = returns (record { actions = evicts_once pod; error = some e })
  after_refusal p kept none = goes_on (evicts_once pod) (record {
    round_number = suc p.round_number;
    steps = p.steps;
    now = p.now + (rounds p.round_number).spends;
    kept = kept;
  })

  -- What follows the answer of the eviction function.
  unfoldable pub follow : Progress State → List Claim → State × Attempt → Next State
  unfolding confirm wait_time wait_until_done after_refusal
  follow p pvcs (kept, accepted) =
      let e = confirm lib config pod (rounds p.round_number) pvcs in
      returns (record e { actions = evicts_once pod ++ e.actions })
  follow p pvcs (kept, not_found) =
      let e = clean_up lib pod (rounds p.round_number) pvcs in
      returns (record e { actions = evicts_once pod ++ e.actions })
  follow p pvcs (kept, too_many_requests proposed) =
      let called = p.now + (rounds p.round_number).spends in
      let wait =
        wait_until_done (timeout_ns config pod) called (wait_time (step p.steps) proposed) in
      goes_on (evicts_once pod ++ waits wait ∷ []) (record {
        round_number = suc p.round_number;
        steps = suc p.steps;
        now = called + wait;
        kept = kept;
      })
  follow p pvcs (kept, refused e) = after_refusal p kept (handle e)

  -- When the claims cannot be read, the loop goes on at once.
  unfoldable pub with_claims : Progress State → Option (List Claim) → Next State
  unfolding follow attempt
  with_claims p none =
      goes_on [] (record p {
        round_number = suc p.round_number;
        now = p.now + (rounds p.round_number).spends;
      })
  with_claims p (some pvcs) = follow p pvcs (attempt p)

  -- One turn of the loop.
  unfoldable pub round : Progress State → Next State
  unfolding with_claims timeout_error
  round p =
      let r = rounds p.round_number in
      let is_done = leb (timeout_ns config pod) p.now in
      if r.is_aborted && (r.takes_abort || not is_done)
      then returns (record { actions = []; error = some eviction_aborted })
      else if is_done
      then returns (record { actions = []; error = some (timeout_error pod) })
      else with_claims p (
          get_in_scope_pvcs config.volumes pod.cleanup_annotation pod.eviction_url r.get_claim
            pod.claim_names)

  -- `none` is out of fuel.
  unfoldable pub eviction_sequence : (fuel : ℕ) → Progress State → Option Eviction
  unfolding round
  eviction_sequence zero p = none
  eviction_sequence (suc fuel) p = continue_with (eviction_sequence fuel) (round p)
