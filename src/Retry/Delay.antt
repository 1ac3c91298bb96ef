-- ===== src/Retry/Delay.antt =====
-- What the exponential strategy waits, and the bounds of the annotation for the attempts.
use native.Mathlib.Nat.{mod-eq_of_lt}
use draino.Prelude.{
  ℕ, suc, ◌-◌, ◌*◌, ◌%◌, ◌^◌, ◌≤◌, ◌<◌, ◌≡◌, refl, ℤ, pos, negsuc, ◌*ℤ◌, ◌≤ℤ◌, lt→ltb, arith,
}
use draino.K8s.{Node}
use draino.Retry.Strategy.{
  from_bits, wrap_int64, exponential_delay, power, max_attempt_of, get_node_retry_max_attempt,
  get_max_drain_attempts_before_fail,
}

pos-product : (a b : ℕ) → pos a *ℤ pos b ≡ pos (a * b)
unfolding ◌*ℤ◌
pos-product a b = ground arith

wrap_of_product : (a b : ℕ) → wrap_int64 (pos a *ℤ pos b) ≡ from_bits ((a * b) % 2 ^ 64)
unfolding wrap_int64
wrap_of_product a b = rw (pos-product a b) refl

from_bits_small : (m : ℕ) → m < 2 ^ 63 → from_bits (m % 2 ^ 64) ≡ pos m
unfolding from_bits
from_bits_small m h = rw (mod-eq_of_lt {n = m} {m = 2 ^ 64} (omega (arith, h))) (ground arith)

from_bits_big : (m : ℕ) → 2 ^ 63 ≤ m → m < 2 ^ 64 → from_bits (m % 2 ^ 64) ≡ negsuc (2 ^ 64 - 1 - m)
unfolding from_bits
from_bits_big m h k = rw (mod-eq_of_lt {n = m} {m = 2 ^ 64} (omega (arith, h))) (ground arith)

-- The delay of attempt n + 1 is 2^n times the first one, as long as n is below 63 and the product
-- fits an int64.
exponential_delay-doubles :
    (float_to_int : ℕ → ℤ) (delay retries : ℕ)
    → retries < 63
    → 2 ^ retries * delay < 2 ^ 63
    → exponential_delay float_to_int (pos delay) (pos (suc retries)) ≡ pos (2 ^ retries * delay)
unfolding exponential_delay power
exponential_delay-doubles float_to_int delay retries h k =
    rw (lt→ltb retries 63 h, wrap_of_product (2 ^ retries) delay) (from_bits_small _ k)

-- Where 2^n times the first delay lies between 2^63 and 2^64 nanoseconds, and n is below 63, the
-- delay of attempt n + 1 is negative.
pub exponential_delay_overflow :
    (float_to_int : ℕ → ℤ) (delay retries : ℕ)
    → retries < 63
    → 2 ^ 63 ≤ 2 ^ retries * delay
    → 2 ^ retries * delay < 2 ^ 64
    → exponential_delay float_to_int (pos delay) (pos (suc retries))
      ≡ negsuc (2 ^ 64 - 1 - 2 ^ retries * delay)
unfolding exponential_delay power
exponential_delay_overflow float_to_int delay retries h k l =
    rw (lt→ltb retries 63 h, wrap_of_product (2 ^ retries) delay) (from_bits_big _ k l)

-- The maximum of attempts for a node lies between 1 and 100, whatever its annotation says, if the
-- drainer's own maximum does.
pub max_drain_attempts-bounds :
    (max_drain_attempts : ℤ) (n : Node)
    → pos 1 ≤ℤ max_drain_attempts
    → max_drain_attempts ≤ℤ pos 100
    → (pos 1 ≤ℤ get_max_drain_attempts_before_fail max_drain_attempts n)
      × (get_max_drain_attempts_before_fail max_drain_attempts n ≤ℤ pos 100)
unfolding get_max_drain_attempts_before_fail get_node_retry_max_attempt max_attempt_of
max_drain_attempts-bounds max_drain_attempts n h k = ground arith
