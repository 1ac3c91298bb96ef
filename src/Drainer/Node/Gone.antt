-- ===== src/Drainer/Node/Gone.antt =====
-- drainer.go, Drain: it returns, and what is known of the pods of a node that was drained.
use mathlib.Core.List.{Mem, Perm, mem-cons, mem-cons_self, mem-cons_of_mem, not-mem-nil}
use mathlib.Core.List.Perm
use mathlib.Core.Logic.Or
use draino.Prelude.{
  ℕ, ◌<◌, ◌≡◌, refl, String, Bool, true, false, List, [], ◌∷◌, Option, none, some, if◌then◌else◌,
  map, Option-cases, inl, inr, arith, subst,
}
use draino.K8s.{Node}
use draino.Taints.{TaintLib, get_nla_taint}
use draino.Scheduler.Sorting.{bool_prop}
use draino.Drainer.Errors.{DrainError, node_has_not_draining_taint}
use draino.Drainer.Poll.{PollLib, PollLaws, Got, found, missing, get_error}
use draino.Drainer.Sequence.{DrainerConfig, Eviction, timeout_ns}
use draino.Drainer.Endpoint.Returns.{SeenGone, evict_returns, evict-SeenGone}
use draino.Drainer.Node.{
  PodRun, NodeRun, get_pods_to_drain, collect, is_draining, evict_pod, drain_pods, drain_fresh,
  drain,
}

unfoldable is_evicted : Option Eviction → Bool
is_evicted none = false
is_evicted (some e) = elim e.error [ none ↦ true | some err ↦ false ]

is_evicted_iff :
    (o : Option Eviction) → is_evicted o ≡ true → (e : Eviction) × (o ≡ some e) × (e.error ≡ none)
unfolding is_evicted
is_evicted_iff none h = cc
is_evicted_iff (some e) h = (e, refl, ground arith)

collect_head :
    (o : Option Eviction) (rest : List (Option Eviction))
    → collect (o ∷ rest) ≡ some none
    → (is_evicted o ≡ true) × (collect rest ≡ some none)
unfolding collect is_evicted
collect_head none rest h = cc
collect_head (some e) rest h = ground arith

-- What the goroutine of a pod meets lets it end.
abbrev pub Ends : DrainerConfig → PodRun → Type 0
Ends config p = ((n : ℕ) → 0 < (p.rounds n).spends) × (timeout_ns config p.target < p.fuel)

abbrev pub PodSeenGone : PodRun → Type 0
PodSeenGone p = SeenGone p.target p.rounds p.api p.endpoint

module _ (taints : TaintLib) (lib : PollLib) (step : ℕ → ℕ) (config : DrainerConfig) where
  collect_all :
      (ps : List PodRun)
      → collect (map (evict_pod taints lib step config) ps) ≡ some none
      → (p : PodRun) → Mem p ps
      → is_evicted (evict_pod taints lib step config p) ≡ true
  collect_all [] h p m = absurd (not-mem-nil m)
  collect_all (q ∷ qs) h p m =
      let (here, rest) = collect_head _ _ h in
      Or.elim (bool_prop _ _) (mem-cons.0 m) (λ e. rw e here) (collect_all qs rest p)

  collect-some :
      (ps : List PodRun)
      → ((p : PodRun) → Mem p ps → (e : Eviction) × (evict_pod taints lib step config p ≡ some e))
      → (r : Option DrainError) × (collect (map (evict_pod taints lib step config) ps) ≡ some r)
  unfolding collect
  collect-some [] h = (none, refl)
  collect-some (q ∷ qs) h =
      let (e, k) = h q mem-cons_self in
      let (r, l) = collect-some qs (λ p m. h p (mem-cons_of_mem q m)) in
      elim (Option-cases e.error) [
        | inl n ↦ (r, rw (k, n) l)
        | inr (err, n) ↦ (some err, rw (k, n) refl)
      ]

  -- If the calls of every round take some time, and the goroutines send in some order, the drain of
  -- a node returns, with an error or without.
  pub drain_returns :
      (run : NodeRun) (name : String)
      → ((ps : List PodRun) → Perm (run.order ps) ps)
      → ((pods : List PodRun)
          → get_pods_to_drain run.pods ≡ some pods
          → (p : PodRun) → Mem p pods
          → Ends config p)
      → (r : Option DrainError) × (drain taints lib step config run name ≡ some r)
  unfolding drain drain_fresh drain_pods evict_pod
  drain_returns run name order ends = go run.skip_drain run.fresh
    where
      sent :
          (o : Option (List PodRun))
          → get_pods_to_drain run.pods ≡ o
          → (r : Option DrainError) × (drain_pods taints lib step config run o ≡ some r)
      sent none e = (_, refl)
      sent (some pods) e = collect-some (run.order pods) λ p m.
          let (passes, enough) = ends pods e p (Perm.subset (order pods) p m) in
          evict_returns lib step config p.target p.rounds p.api p.endpoint passes p.fuel enough

      tested :
          (b : Bool)
          → (r : Option DrainError) × ((if b
                then drain_pods taints lib step config run (get_pods_to_drain run.pods)
                else some (some (node_has_not_draining_taint name)))
              ≡ some r)
      tested true = sent _ refl
      tested false = (_, refl)

      go :
          (b : Bool) (g : Got Node)
          → (r : Option DrainError) × ((if b
                then some none
                else drain_fresh taints lib step config run name g)
              ≡ some r)
      go true g = (none, refl)
      go false missing = (_, refl)
      go false (get_error e) = (_, refl)
      go false (found n) = tested (is_draining (get_nla_taint taints n))

  drained_pods :
      PollLaws lib
      → (run : NodeRun) (name : String) → ((ps : List PodRun) → Perm (run.order ps) ps)
      → run.skip_drain ≡ false
      → drain taints lib step config run name ≡ some none
      → (pods : List PodRun) × (get_pods_to_drain run.pods ≡ some pods)
        × ((p : PodRun) → Mem p pods → PodSeenGone p)
  unfolding drain drain_fresh drain_pods evict_pod
  drained_pods laws run name order skip h = go run.skip_drain run.fresh skip h
    where
      sent :
          (o : Option (List PodRun))
          → get_pods_to_drain run.pods ≡ o
          → drain_pods taints lib step config run o ≡ some none
          → (pods : List PodRun) × (get_pods_to_drain run.pods ≡ some pods)
            × ((p : PodRun) → Mem p pods → PodSeenGone p)
      sent none e k = cc
      sent (some pods) e k = (
        pods,
        e,
        λ p m.
            let (ev, r, ok) =
              is_evicted_iff _
                (collect_all (run.order pods) k p (Perm.subset (Perm.symm (order pods)) p m)) in
            evict-SeenGone lib step config p.target p.rounds p.api p.endpoint laws p.fuel ev r ok,
      )

      tested :
          (b : Bool)
          → (if b
              then drain_pods taints lib step config run (get_pods_to_drain run.pods)
              else some (some (node_has_not_draining_taint name)))
            ≡ some none
          → (pods : List PodRun) × (get_pods_to_drain run.pods ≡ some pods)
            × ((p : PodRun) → Mem p pods → PodSeenGone p)
      tested true k = sent _ refl k
      tested false k = cc

      go :
          (b : Bool) (g : Got Node)
          → b ≡ false
          → (if b then some none else drain_fresh taints lib step config run name g) ≡ some none
          → (pods : List PodRun) × (get_pods_to_drain run.pods ≡ some pods)
            × ((p : PodRun) → Mem p pods → PodSeenGone p)
      go true g e k = cc
      go false missing e k = cc
      go false (get_error m) e k = cc
      go false (found n) e k = tested (is_draining (get_nla_taint taints n)) k

  -- A drain that returns nil, where draining is not skipped, leaves no pod behind: each pod of the
  -- node that passes the filter was seen gone, whatever the order in which the pods went.
  pub drain-PodSeenGone :
      PollLaws lib
      → (run : NodeRun) (name : String) → ((ps : List PodRun) → Perm (run.order ps) ps)
      → run.skip_drain ≡ false
      → drain taints lib step config run name ≡ some none
      → (pods : List PodRun) → get_pods_to_drain run.pods ≡ some pods
      → (p : PodRun) → Mem p pods
      → PodSeenGone p
  drain-PodSeenGone laws run name order skip h pods e p m =
      let (listed, e', gone) = drained_pods laws run name order skip h in
      gone p (subst (λ l. Mem p l) (cc) m)
