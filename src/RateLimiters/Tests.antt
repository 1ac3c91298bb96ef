-- ===== src/RateLimiters/Tests.antt =====
-- Limiters that have no rate and count their tokens down.
use draino.Prelude.{
  ℕ, zero, suc, ◌≡◌, refl, Bool, true, false, [], none, some, lookup, insert, pos, ◌∷◌,
}
use draino.RateLimiters.{
  TokenBucket, TypedLimiter, or_default, new_limiter, get_rate_limiter, try_accept,
}

abbrev take_token : ℕ → Bool × ℕ
take_token zero = (false, zero)
take_token (suc n) = (true, n)

abbrev bucket : TokenBucket ℕ ℕ ℕ
bucket = record { new = λ rate burst. burst; accept = λ now. take_token }

abbrev limits : TypedLimiter ℕ ℕ ℕ
limits = record {
  default_qps = 0;
  default_burst = 1;
  rl_configs = ("slow", record { qps = none; burst = some 0 }) ∷ [];
  rate_limiters = [];
}

-- The default burst of one token is used up by the first request.
second_refused : (try_accept bucket (pos 1) "a" (try_accept bucket (pos 0) "a" limits).1).0 ≡ false
unfolding try_accept get_rate_limiter new_limiter lookup insert
second_refused = refl

configured_burst : (try_accept bucket (pos 0) "slow" limits).0 ≡ false
unfolding try_accept get_rate_limiter new_limiter or_default lookup
configured_burst = refl
