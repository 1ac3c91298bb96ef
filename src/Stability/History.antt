-- ===== src/Stability/History.antt =====
-- stability_period.go, the cache of StabilityPeriodAcceptsDrain after any calls of it and any passes of
-- runCacheCleanup, each call with the budgets and periods that it meets.
use draino.Prelude.{
  ◌≡◌, refl, inl, inr, sym, ◌∙◌, String, Bool, true, false, not, ◌&&◌, ◌||◌, List, [], ◌∷◌, Option,
  none, some, str_eq, eq_iff, eq_refl, map, all, keep_if, ltb_ℤ, ◌≤ℤ◌, ◌+ℤ◌, Dict, lookup, insert,
  arith, Bool-cases, Option-cases, ◌⊎◌,
}
use draino.K8s.{Time, time_zero}
use draino.Stability.{
  Configuration, Call, verdict, judge, unjudged, record_estimate, conclude, accept_by_key, verdicts,
  stability_period_accepts_drain, RecoveryEstimationDate, cleanup, Budget,
}
use draino.Stability.Judgement.{recorded_blocks}
use draino.Stability.Caching.{
  answer, is_ahead, is_recovering-ahead, is_pending, all-clear, accepts_drain-answer,
}

-- A call at a time, or a pass of the cleanup.
pub data CheckerEvent : Type 0 where
  asks : Call → Time → CheckerEvent
  cleans : Time → CheckerEvent

-- The cache after some events, the latest one first.
unfoldable pub cache_after : Configuration → List CheckerEvent → Dict RecoveryEstimationDate
unfolding stability_period_accepts_drain cleanup
cache_after config [] = []
cache_after config (asks call now ∷ events) =
    (stability_period_accepts_drain config call now (cache_after config events)).1
cache_after config (cleans now ∷ events) = cleanup now (cache_after config events)

abbrev is_key : String → Option String → Bool
is_key key none = false
is_key key (some other) = str_eq other key

-- One of the calls has been made under the key, with budgets that do not let the node drain at a time.
abbrev pub refused_under : String → Time → List CheckerEvent → Bool
refused_under key now [] = false
refused_under key now (asks call at ∷ events) =
    (is_key key call.cache_key && not (answer call now)) || refused_under key now events
refused_under key now (cleans at ∷ events) = refused_under key now events

abbrev pub refused_before : Option String → Time → List CheckerEvent → Bool
refused_before none now events = false
refused_before (some key) now events = refused_under key now events

-- The entry is over, or it is of a call that would be refused.
abbrev has_reason : Time → List CheckerEvent → String × RecoveryEstimationDate → Bool
has_reason now events e = not (ltb_ℤ now (e.1).estimated_recovery) || refused_under e.0 now events

module _ {A : Type 0} (f g : A → Bool) where
  all_mono : (xs : List A) → ((x : A) → f x ≡ true → g x ≡ true) → all f xs ≡ true → all g xs ≡ true
  unfolding all
  all_mono [] m h = refl
  all_mono (x ∷ xs) m h = ground (arith, h, m x, all_mono xs m)

  all-keep_if : (xs : List A) → all f xs ≡ true → all f (keep_if g xs) ≡ true
  unfolding all keep_if
  all-keep_if [] h = refl
  all-keep_if (x ∷ xs) h = ground (arith, h, all-keep_if xs)

module _ (f : String × RecoveryEstimationDate → Bool) (key : String) where
  all-insert :
      (r : RecoveryEstimationDate) (m : Dict RecoveryEstimationDate)
      → f (key, r) ≡ true
      → all f m ≡ true
      → all f (insert key r m) ≡ true
  unfolding all insert
  all-insert r [] k h = rw k refl
  all-insert r ((other, old) ∷ m) k h = ground (arith, k, h, all-insert r m k)

  all-lookup :
      (r : RecoveryEstimationDate) (m : Dict RecoveryEstimationDate)
      → all f m ≡ true
      → lookup key m ≡ some r
      → f (key, r) ≡ true
  unfolding all lookup
  all-lookup r [] h k = cc
  all-lookup r ((other, old) ∷ m) h k = grind (arith, h, k, all-lookup r m, eq_iff other key)

-- What a call leaves in the cache: nothing new, or an estimate before which the call is refused.
recorded_call :
    (config : Configuration) (call : Call) (at : Time) (cache : Dict RecoveryEstimationDate)
    → ((stability_period_accepts_drain config call at cache).1 ≡ cache)
      ⊎ (key : String) × (r : RecoveryEstimationDate) × (call.cache_key ≡ some key)
        × ((stability_period_accepts_drain config call at cache).1 ≡ insert key r cache)
        × ((now : Time) → ltb_ℤ now r.estimated_recovery ≡ true → answer call now ≡ false)
unfolding stability_period_accepts_drain verdicts
recorded_call config call at cache = go call.cache_key call.budgets
  where
    go :
        (key : Option String) (budgets : Option (List (String × List Budget)))
        → ((accept_by_key config key at
              (verdicts (record call { cache_key = key; budgets = budgets }))
              cache).1
            ≡ cache)
          ⊎ (k : String) × (r : RecoveryEstimationDate) × (key ≡ some k)
            × ((accept_by_key config key at
                  (verdicts (record call { cache_key = key; budgets = budgets }))
                  cache).1
                ≡ insert k r cache)
            × ((now : Time)
                → ltb_ℤ now r.estimated_recovery ≡ true
                → answer (record call { cache_key = key; budgets = budgets }) now ≡ false)
    go none budgets = inl refl
    go (some key) none = elim (Bool-cases (is_ahead at (lookup key cache))) [
      | inl e ↦
          inl (rw (accept_by_key, is_recovering-ahead at (lookup key cache), conclude, e) refl)
      | inr e ↦
          inl (rw (accept_by_key, is_recovering-ahead at (lookup key cache), conclude, e) refl)
    ]
    go (some key) (some pods) =
        let vs = map (verdict call.periods) pods in
        elim (Bool-cases (is_ahead at (lookup key cache))) [
          | inl e ↦
              inl (rw (accept_by_key, is_recovering-ahead at (lookup key cache), conclude, e) refl)
          | inr e ↦ elim (Option-cases (judge at vs unjudged).recorded) [
            | inl f ↦ inl (
                rw
                  (
                    accept_by_key,
                    is_recovering-ahead at (lookup key cache),
                    conclude,
                    e,
                    f,
                    record_estimate,
                  )
                  refl)
            | inr (t, f) ↦ inr (
              key,
              record { estimated_recovery = t; ttl = at +ℤ config.estimated_recovery_record_ttl },
              refl,
              rw
                  (
                    accept_by_key,
                    is_recovering-ahead at (lookup key cache),
                    conclude,
                    e,
                    f,
                    record_estimate,
                  )
                  refl,
              λ now l. sym (all-clear call.periods now pods) ∙ recorded_blocks at now t vs f l,
            )
          ]
        ]

-- Every estimate that is still to come is of a call that would be refused.
entries-has_reason :
    (config : Configuration) (now : Time) (events : List CheckerEvent)
    → all (has_reason now events) (cache_after config events) ≡ true
unfolding cache_after all cleanup
entries-has_reason config now [] = refl
entries-has_reason config now (cleans at ∷ events) =
    all-keep_if (has_reason now events)
      (λ e. not (ltb_ℤ (e.1).estimated_recovery at || ltb_ℤ (e.1).ttl at))
      (cache_after config events) (entries-has_reason config now events)
entries-has_reason config now (asks call at ∷ events) =
    let cache = cache_after config events in
    let more : List CheckerEvent = asks call at ∷ events in
    let kept =
      all_mono (has_reason now events) (has_reason now more) cache (λ e h. ground (arith, h))
        (entries-has_reason config now events) in
    elim (recorded_call config call at cache) [
      | inl e ↦ rw e kept
      | inr (key, r, keyed, e, refuses) ↦ rw e (
          all-insert (has_reason now more) key r cache
            (rw (keyed, eq_refl key) (ground (arith, refuses now))) kept)
    ]

ahead_entry :
    (now : Time) (o : Option RecoveryEstimationDate)
    → is_ahead now o ≡ true
    → (r : RecoveryEstimationDate) × (o ≡ some r) × (ltb_ℤ now r.estimated_recovery ≡ true)
ahead_entry now none h = cc
ahead_entry now (some r) h = (r, refl, h)

pending-refused :
    (config : Configuration) (events : List CheckerEvent) (now : Time) (key : Option String)
    → is_pending key now (cache_after config events) ≡ true
    → refused_before key now events ≡ true
pending-refused config events now none h = cc
pending-refused config events now (some key) h =
    let (r, e, ahead) = ahead_entry now (lookup key (cache_after config events)) h in
    let reason =
      all-lookup (has_reason now events) key r (cache_after config events)
        (entries-has_reason config now events) e in
    ground (arith, reason, ahead)

no_entry : (key : Option String) (now : Time) → is_pending key now [] ≡ false
unfolding lookup
no_entry none now = refl
no_entry (some key) now = refl

-- After any calls and passes of the cleanup, whatever budgets and periods those calls met, the cache
-- does not change the answer of a call at a time, unless that call itself meets budgets that let the
-- node drain and one of the earlier calls was made under the same key and met budgets that, at that
-- time, would still not let it drain.
pub accepts_drain-cached :
    (config : Configuration) (events : List CheckerEvent) (call : Call) (now : Time)
    → time_zero ≤ℤ now
    → refused_before call.cache_key now events && answer call now ≡ false
    → (stability_period_accepts_drain config call now (cache_after config events)).0
      ≡ (stability_period_accepts_drain config call now []).0
accepts_drain-cached config events call now h same =
    let cache = cache_after config events in
    let empty : is_pending call.cache_key now [] ≡ false = no_entry call.cache_key now in
    rw
      (
        accepts_drain-answer config call now cache h,
        accepts_drain-answer config call now [] h,
        empty,
      )
      (elim (Bool-cases (is_pending call.cache_key now cache)) [
        | inl e ↦ ground (arith, same, pending-refused config events now call.cache_key e)
        | inr e ↦ rw e refl
      ])
