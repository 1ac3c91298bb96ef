-- ===== src/Retry/Count.antt =====
-- What the retry wall reads back of what it wrote on a node.
use draino.Prelude.{
  ℕ, zero, suc, ◌^◌, ◌<◌, ◌≡◌, refl, String, List, [], ◌∷◌, ◌++◌, ap, ◌∙◌, none, some, ℤ, pos, ◌+ℤ◌,
  arith, length, Option-cases, inl, inr,
}
use draino.Prelude.Texts.{occurs}
use draino.K8s.{Time, time_zero, Node, Condition}
use draino.Retry.Message.{
  separator_code, serialize, unserialize, unserialize-serialize, unserialize_separator,
}
use draino.Retry.Strategy.{build_node_annotation_strategy, get_node_retry_max_attempt}
use draino.Retry.Wall.{
  RetryWall, retry_wall_condition, find_node_condition, modify_at, stamp, new_condition,
  patched_conditions, strategy_from_node, get_retry, get_retry_delay, get_retry_wall_timestamp,
  get_drain_retry_attempts_count, patch_retry_count, set_new_retry_wall_timestamp,
  reset_retry_count,
}

find-modify_at :
    (kind message : String) (now : Time) (cs : List Condition) {p : ℕ} {c : Condition}
    → find_node_condition kind cs ≡ some (p, c)
    → find_node_condition kind (modify_at p (stamp now message) cs) ≡ some (p, stamp now message c)
unfolding find_node_condition modify_at stamp
find-modify_at kind message now [] e = cc
find-modify_at kind message now (d ∷ cs) {p = zero} {c = c} e = ground arith
find-modify_at kind message now (d ∷ cs) {p = suc p} {c = c} e =
    ground (arith, find-modify_at kind message now cs {p = p} {c = c})

find-append :
    (now : Time) (message : String) (cs : List Condition)
    → find_node_condition retry_wall_condition cs ≡ none
    → find_node_condition retry_wall_condition
        (modify_at (length cs) (stamp now message) (cs ++ new_condition now ∷ []))
      ≡ some (length cs, stamp now message (new_condition now))
unfolding find_node_condition modify_at stamp new_condition
find-append now message [] e = refl
find-append now message (d ∷ cs) e = ground (arith, find-append now message cs)

-- The condition that a patch wrote is the one that is found.
record Holds (cs : List Condition) (now : Time) (text : String) : Type 0 where
  place : ℕ
  condition : Condition
  is_found : find_node_condition retry_wall_condition cs ≡ some (place, condition)
  has_message : condition.message ≡ text
  has_heartbeat : condition.last_heartbeat_time ≡ now

patched_conditions-Holds :
    (now : Time) (message : String) (cs : List Condition)
    → Holds (patched_conditions now message cs) now message
unfolding patched_conditions
patched_conditions-Holds now message cs =
    elim (Option-cases (find_node_condition retry_wall_condition cs)) [
      | inl e ↦
          rw (e, patched_conditions)
            (record {
              place = length cs;
              condition = stamp now message (new_condition now);
              is_found = find-append now message cs e;
              has_message = unfold stamp in refl;
              has_heartbeat = unfold stamp in refl;
            })
      | inr ((p, c), e) ↦
          rw (e, patched_conditions)
            (record {
              place = p;
              condition = stamp now message c;
              is_found = find-modify_at retry_wall_condition message now cs e;
              has_message = unfold stamp in refl;
              has_heartbeat = unfold stamp in refl;
            })
    ]

-- The message of a patch.
abbrev pub message_of : RetryWall → Node → ℤ → Time → String → String
message_of wall n count now reason =
    serialize wall.format_time count (now +ℤ get_retry_delay wall n count) reason

module _ (wall : RetryWall) (m : Node) (now : Time) (text : String)
    (h : Holds m.conditions now text) where
  get_retry-Holds : (k : ℤ) → unserialize text ≡ some k → get_retry wall m ≡ some (k, now)
  unfolding get_retry
  get_retry-Holds k e = ground (arith, h.is_found, h.has_message, h.has_heartbeat)

  get_retry-Holds_none : unserialize text ≡ none → get_retry wall m ≡ none
  unfolding get_retry
  get_retry-Holds_none e = ground (arith, h.is_found, h.has_message)

module _ (wall : RetryWall) (n : Node) (count : ℤ) (reason : String) (now : Time) where
  patch-Holds :
      Holds
        (patch_retry_count wall n count reason now).conditions
        now
        (message_of wall n count now reason)
  unfolding patch_retry_count
  patch-Holds = patched_conditions-Holds now (message_of wall n count now reason) n.conditions

  get_retry-patch :
      (k : ℤ)
      → unserialize (message_of wall n count now reason) ≡ some k
      → get_retry wall (patch_retry_count wall n count reason now) ≡ some (k, now)
  get_retry-patch = get_retry-Holds wall _ now _ patch-Holds

  get_retry-patch_none :
      unserialize (message_of wall n count now reason) ≡ none
      → get_retry wall (patch_retry_count wall n count reason now) ≡ none
  get_retry-patch_none = get_retry-Holds_none wall _ now _ patch-Holds

  patch_delay :
      (k : ℤ)
      → get_retry_delay wall (patch_retry_count wall n count reason now) k
        ≡ get_retry_delay wall n k
  unfolding patch_retry_count get_retry_delay strategy_from_node build_node_annotation_strategy
      get_node_retry_max_attempt
  patch_delay k = refl

-- The two readers, by what getRetry gives.
module _ (wall : RetryWall) (m : Node) where
  readers_at :
      (k : ℕ) (t : Time)
      → get_retry wall m ≡ some (pos (suc k), t)
      → (get_drain_retry_attempts_count wall m ≡ pos (suc k))
        × (get_retry_wall_timestamp wall m ≡ t +ℤ get_retry_delay wall m (pos (suc k)))
  unfolding get_drain_retry_attempts_count get_retry_wall_timestamp
  readers_at k t e = ground (arith, e)

  readers_at_zero :
      (t : Time)
      → get_retry wall m ≡ some (pos 0, t)
      → (get_drain_retry_attempts_count wall m ≡ pos 0)
        × (get_retry_wall_timestamp wall m ≡ time_zero)
  unfolding get_drain_retry_attempts_count get_retry_wall_timestamp
  readers_at_zero t e = ground (arith, e)

  readers_at_none :
      get_retry wall m ≡ none
      → (get_drain_retry_attempts_count wall m ≡ pos 0)
        × (get_retry_wall_timestamp wall m ≡ time_zero)
  unfolding get_drain_retry_attempts_count get_retry_wall_timestamp
  readers_at_none e = ground (arith, e)

suc_pos : (i : ℕ) → pos i +ℤ pos 1 ≡ pos (suc i)
unfolding ◌+ℤ◌
suc_pos i = ground arith

set_new-patch :
    (wall : RetryWall) (n : Node) (reason : String) (now : Time) (k : ℕ) (last : Time)
    → get_retry wall n ≡ some (pos k, last)
    → set_new_retry_wall_timestamp wall n reason now
      ≡ patch_retry_count wall n (pos (suc k)) reason now
unfolding set_new_retry_wall_timestamp
set_new-patch wall n reason now k last e =
    rw (e) (ap (λ c. patch_retry_count wall n c reason now) (suc_pos k))

-- A failed drain counts one more attempt, and the wall is raised by the delay of that attempt, if
-- the count could be read, the new one fits an int32, and neither the reason nor a printed time
-- holds a separator.
pub set_new-increments :
    (wall : RetryWall) (n : Node) (reason : String) (now : Time) (k : ℕ) (last : Time)
    → get_retry wall n ≡ some (pos k, last)
    → suc k < 2 ^ 31
    → ((t : Time) → occurs separator_code (wall.format_time t) ≡ 0)
    → occurs separator_code reason ≡ 0
    → (get_drain_retry_attempts_count wall (set_new_retry_wall_timestamp wall n reason now)
        ≡ pos (suc k))
      × (get_retry_wall_timestamp wall (set_new_retry_wall_timestamp wall n reason now)
          ≡ now +ℤ get_retry_delay wall n (pos (suc k)))
set_new-increments wall n reason now k last e h f g =
    let read =
      unserialize-serialize wall.format_time (suc k) (now +ℤ get_retry_delay wall n (pos (suc k)))
        reason h (f _) g in
    let readers =
      readers_at wall _ k now (get_retry-patch wall n (pos (suc k)) reason now _ read) in
    rw (set_new-patch wall n reason now k last e)
      (readers.0, readers.1 ∙ ap (λ d. now +ℤ d) (patch_delay wall n (pos (suc k)) reason now _))

-- A reset leaves no attempt and no wall, whatever the conditions of the node said, if a printed
-- time holds no separator.
pub reset-clears :
    (wall : RetryWall) (n : Node) (now : Time)
    → ((t : Time) → occurs separator_code (wall.format_time t) ≡ 0)
    → (get_drain_retry_attempts_count wall (reset_retry_count wall n now) ≡ pos 0)
      × (get_retry_wall_timestamp wall (reset_retry_count wall n now) ≡ time_zero)
unfolding reset_retry_count occurs
reset-clears wall n now f =
    let read =
      unserialize-serialize wall.format_time 0 (now +ℤ get_retry_delay wall n (pos 0))
        "Retry count was reset to zero" (omega arith) (f _) refl in
    readers_at_zero wall _ now (get_retry-patch wall n (pos 0) _ now _ read)

-- A failure whose reason holds a separator takes the wall away: if the count could be read, it then
-- reads as zero and the next drain may start at once, whatever was counted before.
pub set_new_separator :
    (wall : RetryWall) (n : Node) (reason : String) (now : Time) (k : ℕ) (last : Time)
    → get_retry wall n ≡ some (pos k, last)
    → 0 < occurs separator_code reason
    → (get_drain_retry_attempts_count wall (set_new_retry_wall_timestamp wall n reason now) ≡ pos 0)
      × (get_retry_wall_timestamp wall (set_new_retry_wall_timestamp wall n reason now) ≡ time_zero)
set_new_separator wall n reason now k last e h =
    let read =
      unserialize_separator wall.format_time (suc k) (now +ℤ get_retry_delay wall n (pos (suc k)))
        reason h in
    rw (set_new-patch wall n reason now k last e)
      (readers_at_none wall _ (get_retry-patch_none wall n (pos (suc k)) reason now read))
