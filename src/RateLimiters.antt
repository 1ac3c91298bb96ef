-- ===== src/RateLimiters.antt =====
-- internal/limit/rate_limiter.go: one rate limiter for each type, made when the type is first used.
-- The token bucket of client-go is a parameter: a limiter is made of a rate and a burst, and
-- answers at a time, by which it changes.
mod Tests
use draino.Prelude.{
  ◌≡◌, refl, String, Bool, true, false, Option, none, some, Dict, lookup, insert, str_eq, arith,
  if◌then◌else◌, lookup-insert, Bool-cases, inl, inr, ◌∙◌, ap,
}
use draino.K8s.{Time}

pub record Configuration (Rate Burst : Type 0) : Type 0 where
  pub qps : Option Rate
  pub burst : Option Burst

-- flowcontrol.NewTokenBucketRateLimiterWithClock and TryAccept.
pub record TokenBucket (Rate Burst Limiter : Type 0) : Type 0 where
  pub new : Rate → Burst → Limiter
  pub accept : Time → Limiter → Bool × Limiter

pub record TypedLimiter (Rate Burst Limiter : Type 0) : Type 0 where
  pub default_qps : Rate
  pub default_burst : Burst
  pub rl_configs : Dict (Configuration Rate Burst)
  pub rate_limiters : Dict Limiter

unfoldable pub or_default : {A : Type 0} → Option A → A → A
or_default none d = d
or_default (some a) d = a

module _ {Rate Burst Limiter : Type 0} (lib : TokenBucket Rate Burst Limiter) where
  -- A type without a configuration, or with a part of one, takes the defaults.
  unfoldable pub new_limiter : TypedLimiter Rate Burst Limiter → String → Limiter
  unfolding or_default
  new_limiter l t = elim (lookup t l.rl_configs) [
    | none ↦ lib.new l.default_qps l.default_burst
    | some c ↦ lib.new (or_default c.qps l.default_qps) (or_default c.burst l.default_burst)
  ]

  -- The limiter of a type, which getRateLimiter puts in the map when it is missing.
  unfoldable pub get_rate_limiter : TypedLimiter Rate Burst Limiter → String → Limiter
  get_rate_limiter l t = elim (lookup t l.rate_limiters) [
    | none ↦ new_limiter l t
    | some limiter ↦ limiter
  ]

  -- The limiter is shared by the map, so what it becomes is what the next call finds.
  unfoldable pub try_accept :
      Time → String → TypedLimiter Rate Burst Limiter → Bool × TypedLimiter Rate Burst Limiter
  unfolding get_rate_limiter
  try_accept now t l =
      let (answer, next) = lib.accept now (get_rate_limiter l t) in
      (answer, record l { rate_limiters = insert t next l.rate_limiters })

  try_accept-limiter :
      (now : Time) (t other : String) (l : TypedLimiter Rate Burst Limiter)
      → get_rate_limiter (try_accept now t l).1 other ≡ (
          if str_eq t other
          then (lib.accept now (get_rate_limiter l t)).1
          else get_rate_limiter l other)
  unfolding get_rate_limiter try_accept new_limiter
  try_accept-limiter now t other l =
      ground
        (arith, lookup-insert t other (lib.accept now (get_rate_limiter l t)).1 l.rate_limiters)

  -- After a request for type `t`, a request for `other` is answered as if the first had not been
  -- made, unless the two types are the same: then the limiter that the first request left answers.
  try_accept-isolated :
      (now later : Time) (t other : String) (l : TypedLimiter Rate Burst Limiter)
      → (try_accept later other (try_accept now t l).1).0 ≡ (
          if str_eq t other
          then (lib.accept later (lib.accept now (get_rate_limiter l t)).1).0
          else (try_accept later other l).0)
  unfolding try_accept
  try_accept-isolated now later t other l = elim (Bool-cases (str_eq t other)) [
    | inl e ↦ rw e (ap (λ k. (lib.accept later k).0) (try_accept-limiter now t other l ∙ rw e refl))
    | inr e ↦ rw e (ap (λ k. (lib.accept later k).0) (try_accept-limiter now t other l ∙ rw e refl))
  ]
