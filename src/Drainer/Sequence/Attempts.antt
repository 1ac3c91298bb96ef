-- ===== src/Drainer/Sequence/Attempts.antt =====
-- drainer.go, the loop of evictionSequence: how often it asks for the eviction of a pod.
use draino.Prelude.{
  ℕ, suc, ◌+◌, ◌-◌, ◌*◌, ◌/◌, ◌<◌, ◌≤◌, ◌≡◌, ◌≢◌, refl, List, [], ◌∷◌, ◌++◌, Option, none, some,
  if◌then◌else◌, Option-cases, arith, ℤ, ltb, map,
}
use draino.K8s.{second}
use draino.Drainer.Errors.{DrainError}
use draino.Drainer.Poll.{PollLib}
use draino.Drainer.Volumes.{get_in_scope_pvcs, Deletion, Claim, delete_pvc_and_pv}
use draino.Drainer.Sequence.{
  Attempt, accepted, not_found, too_many_requests, refused, Target, DrainerConfig, Round, Action,
  evicts, waits, deletes, Eviction, timeout_ns, eviction_sequence, wait_until_done, Progress,
  follow, after_refusal, after_deletion, with_claims, round, wait_time, clean_up, confirm,
  evicts_once,
}
use draino.Drainer.Sequence.Rule.{Ensures, eviction_sequence_rule}

abbrev pub evictions : List Action → ℕ
evictions [] = 0
evictions (evicts ∷ l) = suc (evictions l)
evictions (waits n ∷ l) = evictions l
evictions (deletes d ∷ l) = evictions l

evictions-append : (xs ys : List Action) → evictions (xs ++ ys) ≡ evictions xs + evictions ys
evictions-append [] ys = omega arith
evictions-append (evicts ∷ l) ys = omega (arith, evictions-append l ys)
evictions-append (waits n ∷ l) ys = evictions-append l ys
evictions-append (deletes d ∷ l) ys = evictions-append l ys

evictions_of_deletions : (ds : List Deletion) → evictions (map deletes ds) ≡ 0
evictions_of_deletions [] = refl
evictions_of_deletions (d ∷ ds) = evictions_of_deletions ds

wait_time-ge : (k : ℕ) (proposed : Option ℤ) → second ≤ k → second ≤ wait_time k proposed
unfolding wait_time
wait_time-ge k none h = h
wait_time-ge k (some z) h = ground arith

evictions-clean_up :
    (lib : PollLib) (pod : Target) (r : Round) (pvcs : List Claim)
    → evictions (clean_up lib pod r pvcs).actions ≡ 0
unfolding clean_up
evictions-clean_up lib pod r pvcs =
    evictions_of_deletions
      (delete_pvc_and_pv lib r.claim_calls pod.namespace pod.name pvcs).deletions

evictions-confirm :
    (lib : PollLib) (config : DrainerConfig) (pod : Target) (r : Round) (pvcs : List Claim)
    → evictions (confirm lib config pod r pvcs).actions ≡ 0
unfolding confirm after_deletion
evictions-confirm lib config pod r pvcs = ground (arith, evictions-clean_up lib pod r pvcs)

evictions_by_once :
    (pod : Target) (l : List Action) → evictions l ≡ 0 → evictions (evicts_once pod ++ l) ≤ 1
evictions_by_once pod l h = ground (arith)

module _ {State : Type 0} (lib : PollLib) (step : ℕ → ℕ) (config : DrainerConfig) (pod : Target)
    (evict : ℕ → State → State × Attempt) (handle : DrainError → Option DrainError)
    (rounds : ℕ → Round) where
  -- No eviction once the time is over, and one for each second before it.
  abbrev Few : Progress State → Eviction → Type 0
  Few p e =
      evictions e.actions * second
      ≤ (if ltb p.now (timeout_ns config pod) then timeout_ns config pod - p.now + second else 0)

  follow-Few :
      ((k : ℕ) → second ≤ step k)
      → ((e : DrainError) → handle e ≢ none)
      → (p : Progress State) → p.now < timeout_ns config pod
      → (pvcs : List Claim) (a : State × Attempt)
      → Ensures Few p (follow lib step config pod evict handle rounds p pvcs a)
  unfolding follow after_refusal wait_until_done
  follow-Few long final p h pvcs (kept, accepted) =
      let e = confirm lib config pod (rounds p.round_number) pvcs in
      ground (
        arith,
        evictions_by_once pod e.actions
            (evictions-confirm lib config pod (rounds p.round_number) pvcs),
      )
  follow-Few long final p h pvcs (kept, not_found) =
      let e = clean_up lib pod (rounds p.round_number) pvcs in
      ground (
        arith,
        evictions_by_once pod e.actions (evictions-clean_up lib pod (rounds p.round_number) pvcs),
      )
  follow-Few long final p h pvcs (kept, too_many_requests proposed) =
      λ e few. ground (arith, wait_time-ge (step p.steps) proposed (long p.steps))
  follow-Few long final p h pvcs (kept, refused e) =
      ground (arith, Option-cases (handle e), final e)

  with_claims-Few :
      ((k : ℕ) → second ≤ step k)
      → ((e : DrainError) → handle e ≢ none)
      → (p : Progress State) → p.now < timeout_ns config pod
      → (claims : Option (List Claim))
      → Ensures Few p (with_claims lib step config pod evict handle rounds p claims)
  unfolding with_claims
  with_claims-Few long final p h none = λ e few. ground arith
  with_claims-Few long final p h (some pvcs) = follow-Few long final p h pvcs _

  round-Few :
      ((k : ℕ) → second ≤ step k)
      → ((e : DrainError) → handle e ≢ none)
      → (p : Progress State) → Ensures Few p (round lib step config pod evict handle rounds p)
  unfolding round
  round-Few long final p = ground (
    arith,
    λ (h : p.now < timeout_ns config pod). with_claims-Few long final p h (
        get_in_scope_pvcs config.volumes pod.cleanup_annotation pod.eviction_url
          (rounds p.round_number).get_claim pod.claim_names),
  )

  -- If every step of the backoff is a second at least, and every refusal is final, the API is asked
  -- for the eviction of a pod once for each second of its timeout at most, and once more.
  pub evictions_bounded :
      ((k : ℕ) → second ≤ step k)
      → ((e : DrainError) → handle e ≢ none)
      → (fuel : ℕ) (s : State) (e : Eviction)
      → eviction_sequence lib step config pod evict handle rounds fuel
          (record { round_number = 0; steps = 0; now = 0; kept = s })
        ≡ some e
      → evictions e.actions ≤ timeout_ns config pod / second + 1
  evictions_bounded long final fuel s e h = ground (
    arith,
    eviction_sequence_rule Few lib step config pod evict handle rounds (round-Few long final) fuel _
        e h,
  )
