-- ===== src/Drainer/Tests.antt =====
-- The drainer on a node with one pod that has a claim.
use mathlib.Core.List.{Mem, mem-cons, mem-cons_self, not-mem-nil}
use mathlib.Core.List.Perm
use mathlib.Core.Logic.Or
use native.Mathlib.Bridge.{le_prop}
use draino.Prelude.{
  ℕ, zero, suc, ◌+◌, ◌<◌, ◌≤◌, ◌≡◌, ◌≢◌, refl, sym, ap, subst, true, false, String, List, [], ◌∷◌,
  Option, none, some, ℤ, pos, arith, if◌then◌else◌, str_eq, All, any, ◌+ℤ◌, ◌/◌,
}
use draino.Prelude.Texts.{print_int, occurs}
use draino.K8s.{Time, second, Node}
use draino.Taints.{create_nla_taint, get_nla_taint, find_taint}
use draino.Taints.Sample.{plain_lib}
use draino.Drainer.Errors.{DrainError}
use draino.Drainer.Poll.{
  Poll, done, again, fails, met, timed_out, failed, PollRun, PollLib, PollLaws, Got, found, missing,
  get_error,
}
use draino.Drainer.Volumes.{
  Claim, ClaimCalls, deleted, deletes_pvc, deletes_pv, Volume, get_in_scope_pvcs, check_pvc,
  delete_pvc_and_pv,
}
use draino.Drainer.Volumes.Scope.{GetsByName}
use draino.Drainer.Sequence.{
  Target, DrainerConfig, Round, Eviction, timeout_ns, Progress, eviction_sequence, evicts, waits,
  deletes, continue_with, min_eviction_timeout_with_headroom, confirm, await_deletion,
}
use draino.Drainer.Sequence.Attempts.{evictions, evictions_bounded}
use draino.Drainer.Sequence.Scope.{IsAllowed, eviction_sequence-IsAllowed}
use draino.Drainer.Endpoint.{
  ApiReply, evicted, throttled, kubernetes_attempt, handle_kubernetes_error, bad_url, evict,
}
use draino.Drainer.Node.{PodRun, NodeRun, get_pods_to_drain, filter_pods, drain}
use draino.Drainer.Node.Gone.{PodSeenGone, Ends, drain_returns, drain-PodSeenGone}
use draino.Drainer.Marks.{Mark, stamped, get_drain_condition_status}
use draino.Drainer.Marks.Status.{Reads, bracketed, get_drain_condition_status-stamped}

-- A poll that asks once.
run_of : Poll → PollRun
run_of done = record { polls = 1; result = met }
run_of again = record { polls = 1; result = timed_out }
run_of (fails e) = record { polls = 1; result = failed e }

abbrev asks_once : PollLib
asks_once = record { poll_immediate = λ p t c. run_of (c 0) }

run_of-polls : (a : Poll) → 0 < (run_of a).polls
unfolding run_of
run_of-polls done = omega arith
run_of-polls again = omega arith
run_of-polls (fails e) = omega arith

run_of-met : (a : Poll) → (run_of a).result ≡ met → a ≡ done
unfolding run_of
run_of-met done h = refl
run_of-met again h = cc
run_of-met (fails e) h = cc

asks_once-PollLaws : PollLaws asks_once
unfolding run_of
asks_once-PollLaws = record {
  asks_at_once = λ p t c. run_of-polls (c 0);
  met_at_once = λ p t c h. rw h refl;
  met_by_last = λ p t c h. (0, run_of-polls (c 0), run_of-met (c 0) h);
}

abbrev config : DrainerConfig
config = record {
  min_eviction_timeout = pos 3_000_000_000;
  eviction_headroom = pos 0;
  volumes = record {
    storage_classes_allowing_pv_deletion = some ("local" ∷ []);
    pvc_management_enable_if_no_eviction_url = true;
  };
}

abbrev pod : Target
pod = record {
  namespace = "ns";
  name = "p";
  uid = "u";
  is_terminating = false;
  termination_grace_period_seconds = none;
  cleanup_annotation = none;
  eviction_url = none;
  claim_names = "data" ∷ [];
}

abbrev claim_calls : ClaimCalls
claim_calls = record {
  get_uid = found "c";
  delete = deleted;
  polled_uid = λ n. missing;
  get_volume = λ name. found (record { name = name; uid = "v" });
  delete_volume = deleted;
  polled_volume_uid = λ n. missing;
  recreated_uid = λ n. found "d";
  delete_pod = λ n. deleted;
}

abbrev round : ℕ → Round
round n = record {
  is_aborted = false;
  takes_abort = false;
  get_claim = λ name.
      found
        (record { name = name; uid = "c"; volume_name = "pv"; storage_class_name = some "local" });
  spends = 1;
  polled_uid = λ m. missing;
  claim_calls = λ c. claim_calls;
}

-- Too many requests at first.
abbrev api : ℕ → ApiReply
api zero = throttled (some (pos 1))
api (suc n) = evicted

abbrev backoff : ℕ → ℕ
backoff k = 10_000_000_000

abbrev begin : Progress (Unit {0})
begin = record { round_number = 0; steps = 0; now = 0; kept = tt }

abbrev claim : Claim
claim = record { name = "data"; uid = "c"; volume_name = "pv"; storage_class_name = some "local" }

-- One wait of a second between two evictions, and the claim goes with the pod.
abbrev result : Eviction
result = record {
  actions =
      evicts
      ∷ waits 1_000_000_000
      ∷ evicts
      ∷ deletes (deletes_pvc claim)
      ∷ deletes (deletes_pv "pv")
      ∷ [];
  error = none;
}

run :
    eviction_sequence asks_once backoff config pod
      (λ n s. (s, kubernetes_attempt (api n)))
      handle_kubernetes_error
      round
      5
      begin
    ≡ some result
unfolding eviction_sequence continue_with min_eviction_timeout_with_headroom get_in_scope_pvcs any
    kubernetes_attempt delete_pvc_and_pv confirm await_deletion run_of check_pvc ◌+ℤ◌
run = refl

handle_is_final : (e : DrainError) → handle_kubernetes_error e ≢ none
unfolding handle_kubernetes_error
handle_is_final e h = ground (arith, h)

evictions_bounded_example : evictions result.actions ≤ timeout_ns config pod / second + 1
evictions_bounded_example =
    evictions_bounded asks_once backoff config pod (λ n s. (s, kubernetes_attempt (api n)))
      handle_kubernetes_error round (λ k. omega arith) handle_is_final 5 tt result run

gets_by_name : (n : ℕ) (c : Claim) → GetsByName ((round n).claim_calls c)
gets_by_name n c name pv h = sym (found_name name pv h)
  where
    found_name :
        (name : String) (pv : Volume)
        → found (record { name = name; uid = "v" }) ≡ found pv
        → name ≡ pv.name
    found_name name pv e =
        ap (λ (g : Got Volume). elim g [ found v ↦ v.name | missing ↦ "" | get_error m ↦ "" ]) e

eviction_sequence-IsAllowed_example : All (IsAllowed config pod round) result.actions
eviction_sequence-IsAllowed_example =
    eviction_sequence-IsAllowed asks_once backoff config pod
      (λ n s. (s, kubernetes_attempt (api n))) handle_kubernetes_error round gets_by_name 5 begin
      result run

-- The node of the pod, tainted as draining.
abbrev node : Node
node = record {
  name = "n";
  labels = [];
  annotations = [];
  taints = create_nla_taint "draining" (pos 500) ∷ [];
  conditions = [];
  deletion_timestamp = none;
}

abbrev pod_run : PodRun
pod_run = record {
  target = pod;
  passes = some true;
  rounds = round;
  api = api;
  endpoint = λ n. bad_url;
  fuel = 3_000_000_001;
}

abbrev node_run : NodeRun
node_run = record {
  skip_drain = false;
  fresh = found node;
  pods = some (pod_run ∷ []);
  order = λ ps. ps;
}

drained : drain plain_lib asks_once backoff config node_run "n" ≡ some none
unfolding drain get_nla_taint find_taint evict filter_pods eviction_sequence continue_with
    min_eviction_timeout_with_headroom get_in_scope_pvcs any kubernetes_attempt delete_pvc_and_pv
    confirm await_deletion run_of check_pvc ◌+ℤ◌
drained = refl

drain-PodSeenGone_example : PodSeenGone pod_run
unfolding filter_pods get_pods_to_drain
drain-PodSeenGone_example =
    drain-PodSeenGone plain_lib asks_once backoff config asks_once-PollLaws node_run "n"
      (λ ps. Perm.refl ps) refl drained (pod_run ∷ []) refl pod_run mem-cons_self

pod_run-Ends : Ends config pod_run
unfolding min_eviction_timeout_with_headroom ◌+ℤ◌
pod_run-Ends = (λ n. omega arith, omega arith)

pods_end :
    (pods : List PodRun)
    → get_pods_to_drain node_run.pods ≡ some pods
    → (p : PodRun) → Mem p pods
    → Ends config p
unfolding get_pods_to_drain
pods_end pods h p m =
    let listed : pods ≡ pod_run ∷ [] = ground (arith, h) in
    let prop : IsProp (Ends config p) = hlevel (le_prop) in
    Or.elim prop (mem-cons.0 (subst (λ l. Mem p l) listed m)) (λ e. rw e pod_run-Ends)
      (λ k. absurd (not-mem-nil k))

drain_returns_example :
    (r : Option DrainError) × (drain plain_lib asks_once backoff config node_run "n" ≡ some r)
drain_returns_example =
    drain_returns plain_lib asks_once backoff config node_run "n" (λ ps. Perm.refl ps) pods_end

-- A drain that failed for the second time.
abbrev mark : Mark
mark = record { when = pos 10; finish = pos 20; failed = true; fail_count = pos 2 }

format_time : Time → String
format_time t = "12:00"

scan : String → Option ℤ
scan s = if str_eq s "[2]" then some (pos 2) else none

lacks_c : (t : Time) → occurs b'C' (format_time t) ≡ 0
unfolding occurs format_time
lacks_c t = refl

scanned : scan (bracketed 2) ≡ some (pos 2)
unfolding scan print_int
scanned = refl

get_drain_condition_status-stamped_example :
    Reads mark (get_drain_condition_status scan (stamped format_time mark (pos 30) []))
get_drain_condition_status-stamped_example =
    get_drain_condition_status-stamped format_time scan mark 2 (pos 30) [] refl scanned lacks_c
