-- ===== src/Drainer/Sequence/Gone.antt =====
-- drainer.go, evictionSequence: what is known of the pod when the sequence succeeds, and when it
-- deletes claims and volumes.
use draino.Prelude.{
  ℕ, suc, ◌+◌, ◌<◌, ◌≡◌, ◌≢◌, ◌⊎◌, refl, String, List, [], ◌∷◌, ◌++◌, Option, none, some, inl, inr,
  arith,
}
use draino.K8s.{Duration}
use draino.Drainer.Errors.{DrainError}
use draino.Drainer.Poll.{
  done, PollResult, met, timed_out, failed, PollLib, PollLaws, Got, gone, poll_period,
}
use draino.Drainer.Volumes.{get_in_scope_pvcs, Claim}
use draino.Drainer.Sequence.{
  Attempt, accepted, not_found, too_many_requests, refused, Target, DrainerConfig, Round, Action,
  evicts, waits, deletes, Eviction, timeout_ns, attempt, eviction_sequence, wait_until_done,
  Progress, follow, round, confirm, evicts_once, await_deletion, with_claims, wait_time,
  after_deletion, after_refusal, deletion_error, grace_period_with_headroom,
}
use draino.Drainer.Sequence.Rule.{Ensures, eviction_sequence_rule}

abbrev pub deletions : List Action → ℕ
deletions [] = 0
deletions (evicts ∷ l) = deletions l
deletions (waits n ∷ l) = deletions l
deletions (deletes d ∷ l) = suc (deletions l)

deletions-append : (xs ys : List Action) → deletions (xs ++ ys) ≡ deletions xs + deletions ys
deletions-append [] ys = omega arith
deletions-append (evicts ∷ l) ys = deletions-append l ys
deletions-append (waits n ∷ l) ys = deletions-append l ys
deletions-append (deletes d ∷ l) ys = omega (arith, deletions-append l ys)

deletions_by_once : (pod : Target) → deletions (evicts_once pod) ≡ 0
deletions_by_once pod = ground arith

deletion_error_met : (r : PollResult) → deletion_error r ≡ none → r ≡ met
unfolding deletion_error
deletion_error_met met h = refl
deletion_error_met timed_out h = cc
deletion_error_met (failed e) h = cc

-- A wait for the pod's deletion that returns nil saw the pod gone.
await_deletion-gone :
    (lib : PollLib)
    → PollLaws lib
    → (uid : String) (polled : ℕ → Got String) (timeout : Duration)
    → await_deletion lib uid polled timeout ≡ none
    → (m : ℕ) × (gone uid (polled m) ≡ done)
unfolding await_deletion
await_deletion-gone lib laws uid polled timeout h =
    let (m, below, e) =
      laws.met_by_last (poll_period timeout) timeout (λ n. gone uid (polled n))
        (deletion_error_met _ h) in
    (m, e)

deletions_waits : (pod : Target) (n : ℕ) → deletions (evicts_once pod ++ waits n ∷ []) ≡ 0
deletions_waits pod n = ground arith

module _ {State : Type 0} (lib : PollLib) (step : ℕ → ℕ) (config : DrainerConfig) (pod : Target)
    (evict : ℕ → State → State × Attempt) (handle : DrainError → Option DrainError)
    (rounds : ℕ → Round) where
  -- The eviction function answered NotFound, or a Get after an eviction found no such pod.
  abbrev pub WasGone : Type 0
  WasGone =
      ((n : ℕ) × (s : State) × ((evict n s).1 ≡ not_found))
      ⊎ ((n : ℕ) × (m : ℕ) × (gone pod.uid ((rounds n).polled_uid m) ≡ done))

  abbrev Known : Progress State → Eviction → Type 0
  Known p e = WasGone ⊎ ((e.error ≢ none) × (deletions e.actions ≡ 0))

  prefix-Known :
      (p p' : Progress State) (before : List Action)
      → deletions before ≡ 0
      → (e : Eviction) → Known p' e
      → Known p (record e { actions = before ++ e.actions })
  prefix-Known p p' before h e (inl g) = inl g
  prefix-Known p p' before h e (inr (k, d)) =
      inr (k, omega (arith, deletions-append before e.actions))

  after_deletion-Known :
      PollLaws lib
      → (p : Progress State) (n : ℕ) (pvcs : List Claim) (o : Option DrainError)
      → await_deletion lib pod.uid (rounds n).polled_uid (grace_period_with_headroom config pod) ≡ o
      → Known p (after_deletion lib pod (rounds n) pvcs o)
  unfolding after_deletion
  after_deletion-Known laws p n pvcs (some e) h = inr (λ k. cc, refl)
  after_deletion-Known laws p n pvcs none h =
      let (m, seen) = await_deletion-gone lib laws pod.uid (rounds n).polled_uid _ h in
      inl (inr (n, m, seen))

  after_refusal-Known :
      (p : Progress State) (kept : State) (o : Option DrainError)
      → Ensures Known p (after_refusal lib step config pod evict handle rounds p kept o)
  unfolding after_refusal
  after_refusal-Known p kept (some e) = inr (λ k. cc, deletions_by_once pod)
  after_refusal-Known p kept none = prefix-Known p p (evicts_once pod) (deletions_by_once pod)

  follow-Known :
      PollLaws lib
      → (p : Progress State) (pvcs : List Claim) (a : State × Attempt)
      → attempt lib step config pod evict handle rounds p ≡ a
      → Ensures Known p (follow lib step config pod evict handle rounds p pvcs a)
  unfolding follow attempt confirm
  follow-Known laws p pvcs (kept, accepted) h =
      prefix-Known p p (evicts_once pod) (deletions_by_once pod) _
        (after_deletion-Known laws p p.round_number pvcs _ refl)
  follow-Known laws p pvcs (kept, not_found) h = inl (inl (p.round_number, p.kept, ground arith))
  follow-Known laws p pvcs (kept, too_many_requests proposed) h =
      let called = p.now + (rounds p.round_number).spends in
      let wait =
        wait_until_done (timeout_ns config pod) called (wait_time (step p.steps) proposed) in
      prefix-Known p p (evicts_once pod ++ waits wait ∷ []) (deletions_waits pod wait)
  follow-Known laws p pvcs (kept, refused e) h = after_refusal-Known p kept (handle e)

  with_claims-Known :
      PollLaws lib
      → (p : Progress State) (claims : Option (List Claim))
      → Ensures Known p (with_claims lib step config pod evict handle rounds p claims)
  unfolding with_claims
  with_claims-Known laws p none = λ e k. k
  with_claims-Known laws p (some pvcs) = follow-Known laws p pvcs _ refl

  round-Known :
      PollLaws lib
      → (p : Progress State) → Ensures Known p (round lib step config pod evict handle rounds p)
  unfolding round
  round-Known laws p = ground (
    arith,
    with_claims-Known laws p (
        get_in_scope_pvcs config.volumes pod.cleanup_annotation pod.eviction_url
          (rounds p.round_number).get_claim pod.claim_names),
  )

  -- The pod was seen gone in some round if its eviction returned no error, and also if it deleted
  -- anything, whether a claim, a volume or the pod that waits for its claim.
  pub evicted-WasGone :
      PollLaws lib
      → (fuel : ℕ) (p : Progress State) (e : Eviction)
      → eviction_sequence lib step config pod evict handle rounds fuel p ≡ some e
      → (e.error ≡ none) ⊎ (0 < deletions e.actions)
      → WasGone
  evicted-WasGone laws fuel p e h known =
      elim (eviction_sequence_rule Known lib step config pod evict handle rounds (round-Known laws)
        fuel p e h) [
          | inl g ↦ g
          | inr (k, d) ↦ elim known [ inl e ↦ absurd (k e) | inr more ↦ absurd (omega arith) ]
        ]
