-- ===== src/Drainer/Poll.antt =====
-- How drainer.go waits for an object to be gone. wait.PollImmediate is of another repository: it is
-- a parameter, with what it documents, and it asks the condition of its n-th poll.
use draino.Prelude.{
  ℕ, ◌*◌, ◌/◌, ◌+◌, ◌<◌, ◌≡◌, String, if◌then◌else◌, ltb_ℤ, str_eq, pos, negsuc, ◌-ℤ◌,
}
use draino.K8s.{Duration, second, minute}

-- What a condition returns.
pub data Poll : Type 0 where
  done again : Poll
  fails : String → Poll

pub data PollResult : Type 0 where
  met timed_out : PollResult
  failed : String → PollResult

pub record PollRun : Type 0 where
  pub polls : ℕ
  pub result : PollResult

pub record PollLib : Type 0 where
  pub poll_immediate : (period timeout : Duration) → (ℕ → Poll) → PollRun

-- It asks at once, goes on while the answer is `again`, and returns nil only after a `done`.
pub record PollLaws (lib : PollLib) : Type 0 where
  pub asks_at_once : (p t : Duration) (c : ℕ → Poll) → 0 < (lib.poll_immediate p t c).polls
  pub met_at_once :
      (p t : Duration) (c : ℕ → Poll) → c 0 ≡ done → (lib.poll_immediate p t c).result ≡ met
  pub met_by_last :
      (p t : Duration) (c : ℕ → Poll)
      → (lib.poll_immediate p t c).result ≡ met
      → (n : ℕ) × (n < (lib.poll_immediate p t c).polls) × (c n ≡ done)

-- The answer of a Get.
pub data Got {ℓ} (A : Type ℓ) : Type ℓ where
  found : A → Got A
  missing : Got A
  get_error : String → Got A

-- An object is gone when the name is free or stands for an object with another UID.
unfoldable pub gone : (uid : String) → Got String → Poll
gone uid (found other) = if str_eq other uid then again else done
gone uid missing = done
gone uid (get_error e) = fails e

-- Go's division of an integer rounds towards zero.
unfoldable pub tenth : Duration → Duration
tenth (pos n) = pos (n / 10)
tenth (negsuc n) = pos 0 -ℤ pos ((n + 1) / 10)

unfoldable pub poll_period : (timeout : Duration) → Duration
unfolding tenth
poll_period timeout =
    let t = tenth timeout in
    if ltb_ℤ t (pos (6 * second))
    then pos (6 * second)
    else if ltb_ℤ (pos (2 * minute)) t
    then pos (2 * minute)
    else t
