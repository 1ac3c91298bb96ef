-- ===== src/Drainer/Sequence/Rule.antt =====
-- drainer.go, the loop of evictionSequence: a postcondition that each turn hands on holds of what
-- the loop returns.
use draino.Prelude.{
  ℕ, zero, suc, ◌≡◌, refl, subst, ◌++◌, List, Option, none, some, Bool, true, false, if◌then◌else◌,
}
use draino.Drainer.Errors.{DrainError}
use draino.Drainer.Poll.{PollLib}
use draino.Drainer.Sequence.{
  Attempt, Target, DrainerConfig, Round, Action, Eviction, act, Progress, Next, returns, goes_on,
  continue_with, round, eviction_sequence,
}

module _ {State : Type 0} (Post : Progress State → Eviction → Type 0) where
  -- What a turn that begins at `p` has to give.
  abbrev pub Ensures : Progress State → Next State → Type 0
  Ensures p (returns e) = Post p e
  Ensures p (goes_on before p') =
      (e : Eviction) → Post p' e → Post p (record e { actions = before ++ e.actions })

  pub Ensures-if :
      (p : Progress State) (a b : Bool) (x y z : Next State)
      → Ensures p x
      → Ensures p y
      → Ensures p z
      → Ensures p (if a then x else if b then y else z)
  Ensures-if p true b x y z h k l = h
  Ensures-if p false true x y z h k l = k
  Ensures-if p false false x y z h k l = l

  pub eviction_sequence_rule :
      (lib : PollLib) (step : ℕ → ℕ) (config : DrainerConfig) (pod : Target)
      (evict : ℕ → State → State × Attempt) (handle : DrainError → Option DrainError)
      (rounds : ℕ → Round)
      → ((p : Progress State) → Ensures p (round lib step config pod evict handle rounds p))
      → (fuel : ℕ) (p : Progress State) (e : Eviction)
      → eviction_sequence lib step config pod evict handle rounds fuel p ≡ some e
      → Post p e
  unfolding eviction_sequence continue_with
  eviction_sequence_rule lib step config pod evict handle rounds turn zero p e h = cc
  eviction_sequence_rule lib step config pod evict handle rounds turn (suc fuel) p e h =
      go _ (turn p) (eviction_sequence_rule lib step config pod evict handle rounds turn fuel) h
    where
      handed_on :
          (before : List Action) (p' : Progress State) (o : Option Eviction)
          → ((e' : Eviction) → Post p' e' → Post p (record e' { actions = before ++ e'.actions }))
          → ((e' : Eviction) → o ≡ some e' → Post p' e')
          → act before o ≡ some e
          → Post p e
      handed_on before p' none m later k = cc
      handed_on before p' (some e') m later k = subst (λ r. Post p r) (cc) (m e' (later e' refl))

      go :
          (x : Next State)
          → Ensures p x
          → ((p' : Progress State) (e' : Eviction)
              → eviction_sequence lib step config pod evict handle rounds fuel p' ≡ some e'
              → Post p' e')
          → continue_with (eviction_sequence lib step config pod evict handle rounds fuel) x
            ≡ some e
          → Post p e
      go (returns e') m later k = subst (λ r. Post p r) (cc) m
      go (goes_on before p') m later k = handed_on before p' _ m (later p') k
