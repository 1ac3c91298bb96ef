-- ===== src/DrainRunner/Failure.antt =====
-- When the runner declares a node drained, and what a failed drain leaves on the node.
use draino.Prelude.{
  ℕ, suc, ◌^◌, ◌<◌, ◌≡◌, refl, ◌∙◌, ap, String, Bool, true, false, ◌||◌, List, [], ◌∷◌, Option,
  none, some, str_eq, arith, pos, ◌+ℤ◌, Option-cases, inl, inr,
}
use draino.Prelude.Texts.{occurs}
use draino.K8s.{Time, Node}
use draino.Taints.{TaintLib, taint_draining, taint_drained, add_nla_taint, remove_nla_taint}
use draino.Taints.Laws.{TaintLaws, status, add-written, remove-written}
use draino.Retry.Strategy.{build_node_annotation_strategy, get_node_retry_max_attempt}
use draino.Retry.Wall.{
  RetryWall, get_retry, get_retry_delay, strategy_from_node, get_retry_wall_timestamp,
  get_drain_retry_attempts_count, set_new_retry_wall_timestamp,
}
use draino.Retry.Count.{set_new-increments}
use draino.DrainBuffer.{DrainBuffer}
use draino.DrainRunner.{
  Action, marks, patches_wall, resets_preprocessors, drains, emits, Refreshed, found, not_found,
  get_error, Calls, write, remove_last, raise_wall_and_remove, reject, abort, conclude,
  start_draining, handle_candidate, check_preprocessors, drain_candidate,
}
use Prim.Native.String.{◌++◌ as append}

unfoldable pub is_drained : Option String → Bool
is_drained none = false
is_drained (some value) = str_eq value taint_drained

-- Whether a list of actions gives a node the drained taint, and whether it drains.
unfoldable pub writes_drained : TaintLib → List Action → Bool
unfolding is_drained
writes_drained lib [] = false
writes_drained lib (marks n ∷ rest) = is_drained (status lib n) || writes_drained lib rest
writes_drained lib (patches_wall n ∷ rest) = writes_drained lib rest
writes_drained lib (resets_preprocessors n ∷ rest) = writes_drained lib rest
writes_drained lib (drains n ∷ rest) = writes_drained lib rest
writes_drained lib (emits e ∷ rest) = writes_drained lib rest

module _ (lib : TaintLib) (laws : TaintLaws lib) (wall : RetryWall) (calls : Calls)
    (key : String) where
  remove_last_lem :
      (buffer : DrainBuffer) (n : Node)
      → writes_drained lib (remove_last lib wall calls key buffer n).actions ≡ false
  unfolding remove_last write writes_drained
  remove_last_lem buffer n =
      elim (Option-cases (remove_nla_taint lib calls.remove_fails n).written) [
        | inl e ↦ rw (e) refl
        | inr (m, e) ↦ rw (e) (ground (arith, (remove-written lib laws calls.remove_fails n m e).0))
      ]

  raise_wall_and_remove_lem :
      (fails : Bool) (buffer : DrainBuffer) (n : Node) (reason : String)
      → writes_drained lib (raise_wall_and_remove lib wall calls key fails buffer n reason).actions
        ≡ false
  unfolding raise_wall_and_remove writes_drained
  raise_wall_and_remove_lem fails buffer n reason =
      ground (arith, remove_last_lem buffer (set_new_retry_wall_timestamp wall n reason calls.now))

  conclude_lem :
      (buffer : DrainBuffer) (refreshed : Refreshed) (err : Option String)
      → writes_drained lib (conclude lib wall calls key buffer refreshed err).actions ≡ true
      → err ≡ none
  unfolding conclude writes_drained
  conclude_lem buffer not_found err e = cc
  conclude_lem buffer get_error err e = cc
  conclude_lem buffer (found m) (some err) e =
      ground (arith, e, raise_wall_and_remove_lem true buffer m err)
  conclude_lem buffer (found m) none e = refl

  start_draining_lem :
      (buffer : DrainBuffer) (n : Node)
      → writes_drained lib (start_draining lib wall calls key buffer n).actions ≡ true
      → calls.drain_error ≡ none
  unfolding start_draining write writes_drained
  start_draining_lem buffer n h =
      let added = add_nla_taint lib calls.draining_fails n calls.now taint_draining in
      let after =
        conclude_lem (drain_candidate lib wall calls key buffer) calls.refreshed
          calls.drain_error in
      elim (Option-cases added.written) [
        | inl e ↦ ground (arith, e, h, after)
        | inr (k, e) ↦ ground (
          arith,
          e,
          h,
          after,
          (add-written lib laws calls.draining_fails n k calls.now taint_draining e).0,
        )
      ]

-- A node is given the drained taint only if the filter kept it, every preprocessor was done and none
-- aborted, and the drainer returned no error.
pub handle_candidate-drained :
    (lib : TaintLib) (laws : TaintLaws lib) (wall : RetryWall) (calls : Calls) (key : String)
    (buffer : DrainBuffer) (n : Node)
    → writes_drained lib (handle_candidate lib wall calls key buffer n).actions ≡ true
    → (calls.keep ≡ true)
      × ((check_preprocessors calls.preprocessors n).should_abort ≡ false)
      × ((check_preprocessors calls.preprocessors n).all_done ≡ true)
      × (calls.drain_error ≡ none)
unfolding handle_candidate reject abort writes_drained
handle_candidate-drained lib laws wall calls key buffer n h =
    let c = check_preprocessors calls.preprocessors n in
    let removed = remove_last_lem lib laws wall calls key buffer n in
    let raised =
      raise_wall_and_remove_lem lib laws wall calls key false buffer n
        (append "pre-conditions failed " c.abort_reason) in
    let drained = start_draining_lem lib laws wall calls key buffer n in
    (
      ground (arith, h, removed),
      ground (arith, h, removed, raised),
      ground (arith, h, removed, raised),
      ground (arith, h, removed, raised, drained),
    )

-- Taints play no part in the retry wall.
readers-taints :
    (wall : RetryWall) (f w : Node)
    → f ≡ record w { taints = f.taints }
    → (get_drain_retry_attempts_count wall f ≡ get_drain_retry_attempts_count wall w)
      × (get_retry_wall_timestamp wall f ≡ get_retry_wall_timestamp wall w)
unfolding get_drain_retry_attempts_count get_retry_wall_timestamp get_retry get_retry_delay
    strategy_from_node build_node_annotation_strategy get_node_retry_max_attempt
readers-taints wall f w e =
    (ap (get_drain_retry_attempts_count wall) e, ap (get_retry_wall_timestamp wall) e)

-- A drain that failed with an error that holds no separator, on a node that is still there: if the
-- wall was patched and the taint removed, the node that is written last has no taint, one more
-- attempt, and the wall raised by the delay of that attempt; the preprocessors were reset before.
pub conclude_failure :
    (lib : TaintLib) (laws : TaintLaws lib) (wall : RetryWall) (calls : Calls) (key : String)
    (buffer : DrainBuffer) (m f : Node) (err : String) (k : ℕ) (last : Time)
    → calls.wall_fails ≡ false
    → (remove_nla_taint lib calls.remove_fails
        (set_new_retry_wall_timestamp wall m err calls.now)).written
      ≡ some f
    → get_retry wall m ≡ some (pos k, last)
    → suc k < 2 ^ 31
    → ((t : Time) → occurs b'|' (wall.format_time t) ≡ 0)
    → occurs b'|' err ≡ 0
    → ((conclude lib wall calls key buffer (found m) (some err)).actions
        ≡ emits "DrainFailed"
          ∷ resets_preprocessors m
          ∷ patches_wall (set_new_retry_wall_timestamp wall m err calls.now)
          ∷ emits "DrainFailed"
          ∷ marks f
          ∷ [])
      × (status lib f ≡ none)
      × (get_drain_retry_attempts_count wall f ≡ pos (suc k))
      × (get_retry_wall_timestamp wall f ≡ calls.now +ℤ get_retry_delay wall m (pos (suc k)))
unfolding conclude raise_wall_and_remove remove_last write
conclude_failure lib laws wall calls key buffer m f err k last h e r b t o =
    let written = remove-written lib laws calls.remove_fails _ f e in
    let same = readers-taints wall f _ written.1 in
    let counted = set_new-increments wall m err calls.now k last r b t o in
    (rw (h, e) refl, written.0, same.0 ∙ counted.0, same.1 ∙ counted.1)
