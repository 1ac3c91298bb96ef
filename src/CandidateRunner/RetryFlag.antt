-- ===== src/CandidateRunner/RetryFlag.antt =====
-- The annotation by which a user restarts the attempts on a node.
use draino.Prelude.{
  ◌≡◌, refl, String, true, false, [], Option, none, some, pos, lookup, lookup-delete, arith, ap,
  ◌∙◌, eq_ℤ, Bool-cases, inl, inr,
}
use draino.Prelude.Texts.{occurs}
use draino.K8s.{Time, Node}
use draino.Taints.{TaintLib}
use draino.Retry.Wall.{
  RetryWall, get_retry, get_drain_retry_attempts_count, reset_retry_count, patch_retry_count,
}
use draino.Retry.Count.{reset-clears}
use draino.CandidateRunner.{
  has_taint, drain_retry_failed_key, replace_request_key, FlagCalls, patch_node, reset_if_needed,
  remove_flag, remove_request, restart_node, is_flagged, handle_retry_flag,
}

abbrev pub no_errors : FlagCalls
no_errors = record { reset = none; annotation = none; label = none }

reset_if_needed-count :
    (wall : RetryWall) (n : Node) (now : Time)
    → ((t : Time) → occurs b'|' (wall.format_time t) ≡ 0)
    → get_drain_retry_attempts_count wall (reset_if_needed wall none now n).0 ≡ pos 0
unfolding reset_if_needed patch_node
reset_if_needed-count wall n now f = ground (arith, (reset-clears wall n now f).0)

-- The steps after the reset leave the conditions, of which the count is read.
remove-count :
    (wall : RetryWall) (n : Node) (error found label : Option String)
    → get_drain_retry_attempts_count wall (remove_request found label (remove_flag error n).0).0
      ≡ get_drain_retry_attempts_count wall n
unfolding get_drain_retry_attempts_count get_retry remove_request remove_flag patch_node
remove-count wall n none none label = refl
remove-count wall n none (some v) none = refl
remove-count wall n none (some v) (some e) = refl
remove-count wall n (some d) none label = refl
remove-count wall n (some d) (some v) none = refl
remove-count wall n (some d) (some v) (some e) = refl

remove-flag :
    (n : Node) (found label : Option String)
    → lookup drain_retry_failed_key
        (remove_request found label (remove_flag none n).0).0.annotations
      ≡ none
unfolding remove_request remove_flag patch_node
remove-flag n none label = lookup-delete drain_retry_failed_key drain_retry_failed_key n.annotations
remove-flag n (some v) none =
    lookup-delete drain_retry_failed_key drain_retry_failed_key n.annotations
remove-flag n (some v) (some e) =
    lookup-delete drain_retry_failed_key drain_retry_failed_key n.annotations

remove-request :
    (found : Option String) (m : Node)
    → lookup replace_request_key m.labels ≡ found
    → lookup replace_request_key (remove_request found none m).0.labels ≡ none
unfolding remove_request patch_node
remove-request none m h = h
remove-request (some v) m h = lookup-delete replace_request_key replace_request_key m.labels

labels_before_removal :
    (wall : RetryWall) (n : Node) (now : Time) (reset error : Option String)
    → (remove_flag error (reset_if_needed wall reset now n).0).0.labels ≡ n.labels
unfolding remove_flag reset_if_needed patch_node reset_retry_count patch_retry_count
labels_before_removal wall n now none none = ground arith
labels_before_removal wall n now (some d) none = ground arith
labels_before_removal wall n now none (some e) = ground arith
labels_before_removal wall n now (some d) (some e) = ground arith

reset-fails :
    (wall : RetryWall) (n : Node) (now : Time) (error : String)
    → (reset_if_needed wall (some error) now n).0 ≡ n
unfolding reset_if_needed patch_node
reset-fails wall n now error =
    elim (Bool-cases (eq_ℤ (get_drain_retry_attempts_count wall n) (pos 0))) [
      | inl e ↦ rw e refl
      | inr e ↦ rw e refl
    ]

no_error-reported :
    (wall : RetryWall) (n : Node) (now : Time) → (restart_node wall no_errors now n).1 ≡ []
unfolding restart_node reset_if_needed remove_flag remove_request patch_node
no_error-reported wall n now = ground arith

not_flagged : (n : Node) → lookup drain_retry_failed_key n.annotations ≡ none → is_flagged n ≡ false
unfolding is_flagged
not_flagged n h = rw (h, is_flagged) refl

module _ (lib : TaintLib) (wall : RetryWall) (now : Time) where
  handle-restart :
      (n : Node) (calls : FlagCalls)
      → has_taint lib n ≡ false
      → is_flagged n ≡ true
      → handle_retry_flag lib wall calls now n ≡ restart_node wall calls now n
  unfolding handle_retry_flag
  handle-restart n calls h e = rw (h, e) refl

  handle-unflagged :
      (n : Node) (calls : FlagCalls)
      → is_flagged n ≡ false
      → handle_retry_flag lib wall calls now n ≡ (n, [])
  unfolding handle_retry_flag
  handle-unflagged n calls h = elim (Bool-cases (has_taint lib n)) [
    | inl e ↦ rw e refl
    | inr e ↦ rw (e, h) refl
  ]

-- A node that a user marked for a restart, and that is not on its way to be drained, is left with no
-- attempt, no mark and no replacement request, and no error is reported, if no call fails and no
-- printed time holds a separator.
pub handle_retry_flag-restart :
    (lib : TaintLib) (wall : RetryWall) (now : Time) (n : Node)
    → ((t : Time) → occurs b'|' (wall.format_time t) ≡ 0)
    → has_taint lib n ≡ false
    → is_flagged n ≡ true
    → (get_drain_retry_attempts_count wall (handle_retry_flag lib wall no_errors now n).0 ≡ pos 0)
      × (lookup drain_retry_failed_key (handle_retry_flag lib wall no_errors now n).0.annotations
          ≡ none)
      × (lookup replace_request_key (handle_retry_flag lib wall no_errors now n).0.labels ≡ none)
      × ((handle_retry_flag lib wall no_errors now n).1 ≡ [])
unfolding restart_node
handle_retry_flag-restart lib wall now n f h e =
    let reset = (reset_if_needed wall none now n).0 in
    rw (handle-restart lib wall now n no_errors h e) (
      remove-count wall reset none _ none ∙ reset_if_needed-count wall n now f,
      remove-flag reset _ none,
      remove-request _ _
          (ap (lookup replace_request_key) (labels_before_removal wall n now none none)),
      no_error-reported wall n now,
    )

-- If the reset fails and the removal of the mark does not, the attempts of the node stay, and its
-- mark is gone: no later round changes anything, whatever becomes of its patches.
pub handle_retry_flag-lost :
    (lib : TaintLib) (wall : RetryWall) (now then_now : Time) (n : Node)
    → (error : String) (label : Option String) (later : FlagCalls) → has_taint lib n ≡ false
    → is_flagged n ≡ true
    → let calls : FlagCalls = record { reset = some error; annotation = none; label = label } in
      let left = (handle_retry_flag lib wall calls now n).0 in
      (get_drain_retry_attempts_count wall left ≡ get_drain_retry_attempts_count wall n)
      × (handle_retry_flag lib wall later then_now left ≡ (left, []))
unfolding restart_node
handle_retry_flag-lost lib wall now then_now n error label later h e =
    let calls : FlagCalls = record { reset = some error; annotation = none; label = label } in
    let reset = (reset_if_needed wall (some error) now n).0 in
    rw (handle-restart lib wall now n calls h e) (
      remove-count wall reset none _ label
          ∙ ap (get_drain_retry_attempts_count wall) (reset-fails wall n now error),
      handle-unflagged lib wall then_now _ later (not_flagged _ (remove-flag reset _ label)),
    )
