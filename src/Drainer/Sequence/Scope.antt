-- ===== src/Drainer/Sequence/Scope.antt =====
-- drainer.go, evictionSequence: which claims and volumes it may delete.
use draino.Prelude.{
  ℕ, ◌+◌, ◌≡◌, Bool, true, false, List, [], ◌∷◌, ◌++◌, Option, none, some, map, if◌then◌else◌, All,
  All-append, leb, not, ◌&&◌, ◌||◌,
}
use draino.Drainer.Errors.{DrainError, eviction_aborted}
use draino.Drainer.Poll.{PollLib}
use draino.Drainer.Volumes.{Claim, Deletion, get_in_scope_pvcs}
use draino.Drainer.Volumes.Scope.{
  For, GetsByName, delete_pvc_and_pv-For, InScope, AllInScope, get_in_scope_pvcs-AllInScope,
}
use draino.Drainer.Sequence.{
  Attempt, accepted, not_found, too_many_requests, refused, Target, DrainerConfig, Round, Action,
  evicts, waits, deletes, Eviction, eviction_sequence, Progress, returns, follow, after_refusal,
  after_deletion, round, clean_up, confirm, evicts_once, with_claims, timeout_ns, wait_until_done,
  wait_time, timeout_error,
}
use draino.Drainer.Sequence.Rule.{Ensures, Ensures-if, eviction_sequence_rule}

-- A claim that the round found in scope under the name of one of the pod's claims.
abbrev pub IsInScope : DrainerConfig → Target → Round → Claim → Type 0
IsInScope config pod r c =
    InScope config.volumes pod.cleanup_annotation pod.eviction_url r.get_claim pod.claim_names c

-- A deletion is made, in a round, for a claim in scope, for its own volume, or for the pod.
abbrev pub IsAllowed : DrainerConfig → Target → (rounds : ℕ → Round) → Action → Type 0
IsAllowed config pod rounds (deletes d) =
    (n : ℕ) × For (IsInScope config pod (rounds n)) (rounds n).claim_calls pod.namespace pod.name d
IsAllowed config pod rounds evicts = Unit
IsAllowed config pod rounds (waits n) = Unit

module _ {State : Type 0} (lib : PollLib) (step : ℕ → ℕ) (config : DrainerConfig) (pod : Target)
    (evict : ℕ → State → State × Attempt) (handle : DrainError → Option DrainError)
    (rounds : ℕ → Round) (gets : (n : ℕ) (c : Claim) → GetsByName ((rounds n).claim_calls c)) where
  abbrev Allowed : Progress State → Eviction → Type 0
  Allowed p e = All (IsAllowed config pod rounds) e.actions

  prefix-Allowed :
      (p p' : Progress State) (before : List Action)
      → All (IsAllowed config pod rounds) before
      → (e : Eviction) → Allowed p' e
      → Allowed p (record e { actions = before ++ e.actions })
  prefix-Allowed p p' before h e k = All-append (IsAllowed config pod rounds) before e.actions h k

  once-Allowed : All (IsAllowed config pod rounds) (evicts_once pod)
  once-Allowed = go pod.is_terminating
    where
      go : (b : Bool) → All (IsAllowed config pod rounds) (if b then [] else evicts ∷ [])
      go true = tt
      go false = (tt, tt)

  clean_up-Allowed :
      (p : Progress State) (n : ℕ) (pvcs : List Claim)
      → All (IsInScope config pod (rounds n)) pvcs
      → Allowed p (clean_up lib pod (rounds n) pvcs)
  unfolding clean_up
  clean_up-Allowed p n pvcs h = deletions_allowed _ (
      delete_pvc_and_pv-For (IsInScope config pod (rounds n)) (rounds n).claim_calls pod.namespace
        pod.name lib (gets n) pvcs h)
    where
      deletions_allowed :
          (ds : List Deletion)
          → All
              (For (IsInScope config pod (rounds n)) (rounds n).claim_calls pod.namespace pod.name)
              ds
          → All (IsAllowed config pod rounds) (map deletes ds)
      deletions_allowed [] k = tt
      deletions_allowed (d ∷ ds) (k, ks) = ((n, k), deletions_allowed ds ks)

  after_deletion-Allowed :
      (p : Progress State) (n : ℕ) (pvcs : List Claim) (o : Option DrainError)
      → All (IsInScope config pod (rounds n)) pvcs
      → Allowed p (after_deletion lib pod (rounds n) pvcs o)
  unfolding after_deletion
  after_deletion-Allowed p n pvcs (some e) h = tt
  after_deletion-Allowed p n pvcs none h = clean_up-Allowed p n pvcs h

  after_refusal-Allowed :
      (p : Progress State) (kept : State) (o : Option DrainError)
      → Ensures Allowed p (after_refusal lib step config pod evict handle rounds p kept o)
  unfolding after_refusal
  after_refusal-Allowed p kept (some e) = once-Allowed
  after_refusal-Allowed p kept none = prefix-Allowed p p (evicts_once pod) once-Allowed

  follow-Allowed :
      (p : Progress State) (pvcs : List Claim) (a : State × Attempt)
      → All (IsInScope config pod (rounds p.round_number)) pvcs
      → Ensures Allowed p (follow lib step config pod evict handle rounds p pvcs a)
  unfolding follow confirm
  follow-Allowed p pvcs (kept, accepted) h =
      let e = confirm lib config pod (rounds p.round_number) pvcs in
      All-append (IsAllowed config pod rounds) (evicts_once pod) e.actions once-Allowed
        (after_deletion-Allowed p p.round_number pvcs _ h)
  follow-Allowed p pvcs (kept, not_found) h =
      let e = clean_up lib pod (rounds p.round_number) pvcs in
      All-append (IsAllowed config pod rounds) (evicts_once pod) e.actions once-Allowed
        (clean_up-Allowed p p.round_number pvcs h)
  follow-Allowed p pvcs (kept, too_many_requests proposed) h = λ e k.
      let called = p.now + (rounds p.round_number).spends in
      let wait =
        wait_until_done (timeout_ns config pod) called (wait_time (step p.steps) proposed) in
      All-append (IsAllowed config pod rounds) (evicts_once pod ++ waits wait ∷ []) e.actions
        (All-append (IsAllowed config pod rounds) (evicts_once pod) (waits wait ∷ []) once-Allowed
          (tt, tt))
        k
  follow-Allowed p pvcs (kept, refused e) h = after_refusal-Allowed p kept (handle e)

  with_claims-Allowed :
      (p : Progress State) (claims : Option (List Claim))
      → AllInScope config.volumes pod.cleanup_annotation pod.eviction_url
          (rounds p.round_number).get_claim
          pod.claim_names
          claims
      → Ensures Allowed p (with_claims lib step config pod evict handle rounds p claims)
  unfolding with_claims
  with_claims-Allowed p none h = λ e k. k
  with_claims-Allowed p (some pvcs) h = follow-Allowed p pvcs _ h

  round-Allowed :
      (p : Progress State) → Ensures Allowed p (round lib step config pod evict handle rounds p)
  unfolding round
  round-Allowed p =
      let r = rounds p.round_number in
      let is_done = leb (timeout_ns config pod) p.now in
      Ensures-if Allowed p (r.is_aborted && (r.takes_abort || not is_done)) is_done
        (returns (record { actions = []; error = some eviction_aborted }))
        (returns (record { actions = []; error = some (timeout_error pod) }))
        (with_claims lib step config pod evict handle rounds p (
          get_in_scope_pvcs config.volumes pod.cleanup_annotation pod.eviction_url r.get_claim
            pod.claim_names))
        (tt {0}) (tt {0})
        (with_claims-Allowed p _ (
          get_in_scope_pvcs-AllInScope config.volumes pod.cleanup_annotation pod.eviction_url
            r.get_claim pod.claim_names))

  -- Where Get returns the volume of the name that it is asked for: whatever the drainer deletes
  -- while it evicts a pod is a claim in scope, the volume that such a claim names, or the pod itself
  -- for such a claim. A claim is in scope if the configuration names storage classes, the cleanup is
  -- on for the pod, and the round found the claim, with one of those classes, under the name of one
  -- of the pod's claims. Only where Get fails for the volume, the name that is deleted is empty.
  pub eviction_sequence-IsAllowed :
      (fuel : ℕ) (p : Progress State) (e : Eviction)
      → eviction_sequence lib step config pod evict handle rounds fuel p ≡ some e
      → All (IsAllowed config pod rounds) e.actions
  eviction_sequence-IsAllowed =
      eviction_sequence_rule Allowed lib step config pod evict handle rounds round-Allowed
