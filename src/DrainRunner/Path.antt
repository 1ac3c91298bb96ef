-- ===== src/DrainRunner/Path.antt =====
-- The node-lifecycle taint during one candidate: the values that the runner writes, in order.
use draino.Prelude.{
  ◌≡◌, refl, String, Bool, true, false, ◌&&◌, List, [], ◌∷◌, Option, none, some, if◌then◌else◌,
  str_eq, arith, Option-cases, inl, inr,
}
use draino.K8s.{Node}
use draino.Taints.{
  TaintLib, taint_drain_candidate, taint_draining, taint_drained, add_nla_taint, remove_nla_taint,
}
use draino.Taints.Laws.{TaintLaws, status, add-written, add-kept, remove-written}
use draino.Retry.Wall.{RetryWall, set_new_retry_wall_timestamp}
use Prim.Native.String.{◌++◌ as append}
use draino.DrainBuffer.{DrainBuffer}
use draino.DrainRunner.{
  Action, marks, patches_wall, resets_preprocessors, drains, emits, Refreshed, found, not_found,
  get_error, Calls, write, remove_last, raise_wall_and_remove, reject, abort, conclude,
  start_draining, handle_candidate, check_preprocessors, drain_candidate,
}

-- candidate to draining or to no taint, draining to drained or to no taint, nothing else.
unfoldable pub may_follow : String → Option String → Bool
may_follow value none = true
may_follow value (some next) =
    if str_eq value taint_drain_candidate
    then str_eq next taint_draining
    else if str_eq value taint_draining
    then str_eq next taint_drained
    else false

-- Whether the taints that a list of actions writes are a path from a value of the taint.
unfoldable pub is_path : TaintLib → Option String → List Action → Bool
unfolding may_follow
is_path lib s [] = true
is_path lib none (marks n ∷ rest) = false
is_path lib (some value) (marks n ∷ rest) =
    may_follow value (status lib n) && is_path lib (status lib n) rest
is_path lib s (patches_wall n ∷ rest) = is_path lib s rest
is_path lib s (resets_preprocessors n ∷ rest) = is_path lib s rest
is_path lib s (drains n ∷ rest) = is_path lib s rest
is_path lib s (emits e ∷ rest) = is_path lib s rest

module _ (lib : TaintLib) (laws : TaintLaws lib) (wall : RetryWall) (calls : Calls)
    (key : String) where
  remove_last-path :
      (buffer : DrainBuffer) (n : Node) (value : String)
      → is_path lib (some value) (remove_last lib wall calls key buffer n).actions ≡ true
  unfolding remove_last write is_path
  remove_last-path buffer n value =
      elim (Option-cases (remove_nla_taint lib calls.remove_fails n).written) [
        | inl e ↦ rw (e) refl
        | inr (m, e) ↦ rw (e) (ground (arith, (remove-written lib laws calls.remove_fails n m e).0))
      ]

  raise_wall_and_remove-path :
      (fails : Bool) (buffer : DrainBuffer) (n : Node) (reason value : String)
      → is_path lib
          (some value)
          (raise_wall_and_remove lib wall calls key fails buffer n reason).actions
        ≡ true
  unfolding raise_wall_and_remove is_path
  raise_wall_and_remove-path fails buffer n reason value =
      ground (
        arith,
        remove_last-path buffer (set_new_retry_wall_timestamp wall n reason calls.now) value,
      )

  conclude-path :
      (buffer : DrainBuffer) (refreshed : Refreshed) (err : Option String)
      → is_path lib (some taint_draining) (conclude lib wall calls key buffer refreshed err).actions
        ≡ true
  unfolding conclude write is_path
  conclude-path buffer not_found err = refl
  conclude-path buffer get_error err = refl
  conclude-path buffer (found m) (some err) =
      raise_wall_and_remove-path true buffer m err taint_draining
  conclude-path buffer (found m) none =
      elim (Option-cases
        (add_nla_taint lib calls.drained_fails m calls.now_drained taint_drained).written) [
          | inl e ↦ rw (e) (ground (arith))
          | inr (k, e) ↦ rw (e) (
              ground (
                arith,
                (add-written lib laws calls.drained_fails m k calls.now_drained taint_drained e).0,
              ))
        ]

  start_draining-path :
      (buffer : DrainBuffer) (n : Node)
      → status lib n ≡ some taint_drain_candidate
      → is_path lib
          (some taint_drain_candidate)
          (start_draining lib wall calls key buffer n).actions
        ≡ true
  unfolding start_draining write is_path
  start_draining-path buffer n h =
      let added = add_nla_taint lib calls.draining_fails n calls.now taint_draining in
      let after =
        conclude-path (drain_candidate lib wall calls key buffer) calls.refreshed
          calls.drain_error in
      elim (Option-cases added.written) [
        | inl e ↦ ground (
          arith,
          e,
          h,
          after,
          add-kept lib laws calls.draining_fails n calls.now taint_draining e,
        )
        | inr (k, e) ↦ ground (
          arith,
          e,
          after,
          (add-written lib laws calls.draining_fails n k calls.now taint_draining e).0,
        )
      ]

-- Whatever the collaborators answer, the taints that the handling of a drain candidate writes are a
-- path of its life: candidate to draining or to no taint, draining to drained or to no taint.
pub handle_candidate-is_path :
    (lib : TaintLib) (laws : TaintLaws lib) (wall : RetryWall) (calls : Calls) (key : String)
    (buffer : DrainBuffer) (n : Node)
    → status lib n ≡ some taint_drain_candidate
    → is_path lib
        (some taint_drain_candidate)
        (handle_candidate lib wall calls key buffer n).actions
      ≡ true
unfolding handle_candidate reject abort is_path
handle_candidate-is_path lib laws wall calls key buffer n h =
    let c = check_preprocessors calls.preprocessors n in
    ground (
      arith,
      remove_last-path lib laws wall calls key buffer n taint_drain_candidate,
      raise_wall_and_remove-path lib laws wall calls key false buffer n
          (append "pre-conditions failed " c.abort_reason) taint_drain_candidate,
      start_draining-path lib laws wall calls key buffer n h,
    )
