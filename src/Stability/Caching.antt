-- ===== src/Stability/Caching.antt =====
-- stability_period.go, StabilityPeriodAcceptsDrain: its answer, and what the cache has to do with it.
use draino.Prelude.{
  ◌≡◌, refl, inl, inr, ◌∙◌, String, Bool, false, not, ◌&&◌, List, [], ◌∷◌, Option, none, some, map,
  all, ltb_ℤ, ◌≤ℤ◌, Dict, lookup, Bool-cases,
}
use draino.K8s.{Time, time_zero}
use draino.Stability.{
  Configuration, Call, verdict, is_recovering, conclude, accept_by_key, verdicts,
  stability_period_accepts_drain, RecoveryEstimationDate, StabilityPeriodInfo, Budget,
}
use draino.Stability.Judgement.{is_clear, judge-all}
use draino.Stability.Settled.{has_settled, verdict-settled}

abbrev all_settled : Dict StabilityPeriodInfo → Option (List (String × List Budget)) → Time → Bool
all_settled periods none now = false
all_settled periods (some pods) now = all (has_settled periods now) pods

-- What the answer is without a cache: there is no error, and the budgets of every pod have settled.
abbrev pub answer : Call → Time → Bool
answer call now = elim call.cache_key [
  | none ↦ false
  | some key ↦ all_settled call.periods call.budgets now
]

abbrev pub is_ahead : Time → Option RecoveryEstimationDate → Bool
is_ahead now none = false
is_ahead now (some r) = ltb_ℤ now r.estimated_recovery

-- The cache has an estimate under the key of the call that is still to come.
abbrev pub is_pending : Option String → Time → Dict RecoveryEstimationDate → Bool
is_pending none now cache = false
is_pending (some key) now cache = is_ahead now (lookup key cache)

pub is_recovering-ahead :
    (now : Time) (r : Option RecoveryEstimationDate) → is_recovering now r ≡ is_ahead now r
unfolding is_recovering
is_recovering-ahead now none = refl
is_recovering-ahead now (some r) = refl

pub all-clear :
    (periods : Dict StabilityPeriodInfo) (now : Time) (pods : List (String × List Budget))
    → all (is_clear now) (map (verdict periods) pods) ≡ all (has_settled periods now) pods
unfolding all
all-clear periods now [] = refl
all-clear periods now (p ∷ pods) =
    rw (verdict-settled periods now p, all-clear periods now pods) refl

-- A drain is accepted, whatever the cache holds, exactly if the cache has no estimate under the key of
-- the call that is still to come, there is no error, and for each pod the stability period is
-- switched off or: no budget of the pod forbids a disruption, one of them has changed at some time,
-- and none has changed within the period.
pub accepts_drain-answer :
    (config : Configuration) (call : Call) (now : Time) (cache : Dict RecoveryEstimationDate)
    → time_zero ≤ℤ now
    → (stability_period_accepts_drain config call now cache).0
      ≡ not (is_pending call.cache_key now cache) && answer call now
unfolding stability_period_accepts_drain verdicts
accepts_drain-answer config call now cache h = go call.cache_key call.budgets
  where
    go :
        (key : Option String) (budgets : Option (List (String × List Budget)))
        → (accept_by_key config key now
            (verdicts (record call { cache_key = key; budgets = budgets }))
            cache).0
          ≡ not (is_pending key now cache)
            && answer (record call { cache_key = key; budgets = budgets }) now
    go none budgets = refl
    go (some key) none = elim (Bool-cases (is_ahead now (lookup key cache))) [
      | inl e ↦
          rw (accept_by_key, is_recovering-ahead now (lookup key cache), conclude, e, is_pending)
            refl
      | inr e ↦
          rw (accept_by_key, is_recovering-ahead now (lookup key cache), conclude, e, is_pending)
            refl
    ]
    go (some key) (some pods) = elim (Bool-cases (is_ahead now (lookup key cache))) [
      | inl e ↦
          rw (accept_by_key, is_recovering-ahead now (lookup key cache), conclude, e, is_pending)
            refl
      | inr e ↦
          rw (accept_by_key, is_recovering-ahead now (lookup key cache), conclude, e, is_pending)
            (judge-all now (map (verdict call.periods) pods) h ∙ all-clear call.periods now pods)
    ]
