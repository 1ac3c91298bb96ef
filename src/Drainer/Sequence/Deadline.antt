-- ===== src/Drainer/Sequence/Deadline.antt =====
-- drainer.go, the loop of evictionSequence: it ends by its timeout, and how often it asks for the
-- eviction before.
use draino.Prelude.{
  ℕ, zero, suc, ◌+◌, ◌<◌, ◌≤◌, ◌≡◌, refl, List, ◌++◌, Option, some, Option-cases, arith,
}
use draino.Drainer.Errors.{DrainError}
use draino.Drainer.Poll.{PollLib}
use draino.Drainer.Sequence.{
  Attempt, accepted, not_found, too_many_requests, refused, Target, DrainerConfig, Round, Eviction,
  timeout_ns, eviction_sequence, Progress, Next, returns, goes_on, continue_with, follow,
  after_refusal, round,
}

module _ {State : Type 0} (lib : PollLib) (step : ℕ → ℕ) (config : DrainerConfig) (pod : Target)
    (evict : ℕ → State → State × Attempt) (handle : DrainError → Option DrainError)
    (rounds : ℕ → Round) where
  -- A turn that goes on was taken before the timeout, and the clock moves by its calls at least.
  abbrev MovesOn : Progress State → Next State → Type 0
  MovesOn p (returns e) = Unit
  MovesOn p (goes_on before p') =
      (p.now < timeout_ns config pod) × (p.now + (rounds p.round_number).spends ≤ p'.now)

  follow-MovesOn :
      (p : Progress State)
      → p.now < timeout_ns config pod
      → (pvcs : List _) (a : State × Attempt)
      → MovesOn p (follow lib step config pod evict handle rounds p pvcs a)
  unfolding follow after_refusal
  follow-MovesOn p h pvcs (kept, accepted) = tt
  follow-MovesOn p h pvcs (kept, not_found) = tt
  follow-MovesOn p h pvcs (kept, too_many_requests proposed) = omega arith
  follow-MovesOn p h pvcs (kept, refused e) = ground (arith, Option-cases (handle e))

  round-MovesOn : (p : Progress State) → MovesOn p (round lib step config pod evict handle rounds p)
  unfolding round
  round-MovesOn p = ground (arith)

  -- If the calls of every round take some time, the eviction of a pod returns within as many rounds
  -- as its timeout has nanoseconds, whatever the API server answers.
  pub eviction_sequence_returns :
      ((n : ℕ) → 0 < (rounds n).spends)
      → (fuel : ℕ) (p : Progress State) → 0 < fuel
      → timeout_ns config pod < fuel + p.now
      → (e : Eviction) × (eviction_sequence lib step config pod evict handle rounds fuel p ≡ some e)
  unfolding eviction_sequence continue_with
  eviction_sequence_returns time_passes zero p h enough = absurd (omega arith)
  eviction_sequence_returns time_passes (suc fuel) p h enough = turn _ (round-MovesOn p) λ p' m.
      eviction_sequence_returns time_passes fuel p' (omega (arith, time_passes p.round_number))
        (omega (arith, time_passes p.round_number))
    where
      turn :
          (x : Next State)
          → MovesOn p x
          → ((p' : Progress State)
              → (p.now < timeout_ns config pod) × (p.now + (rounds p.round_number).spends ≤ p'.now)
              → (e : Eviction) × (eviction_sequence lib step config pod evict handle rounds fuel p'
                  ≡ some e))
          → (e : Eviction) × (continue_with
                (eviction_sequence lib step config pod evict handle rounds fuel)
                x
              ≡ some e)
      turn (returns e) m later = (e, refl)
      turn (goes_on before p') m later =
          let (e, r) = later p' m in (record e { actions = before ++ e.actions }, rw r refl)
