-- ===== src/Simulator/Verdict.antt =====
-- When the simulation says that a node can be drained.
use draino.Prelude.{
  ◌≡◌, ◌⊎◌, refl, sym, subst, String, Bool, true, false, not, ◌&&◌, List, [], ◌∷◌, none, some,
  if◌then◌else◌, str_eq, eq_iff, arith, All, Option-cases, Bool-cases, inl, inr,
}
use draino.K8s.{Time}
use draino.Simulator.{
  cache_get, SimulationResult, Pdb, is_pdb_blocked_by_pod, filter_error, filter_answer, DryRun,
  accepted, rejected, dry_run_error, PodAnswers, Cache, positive_ttl, negative_ttl, write_pod_cache,
  simulate_eviction, rate_limited_eviction, simulate_budgets, simulate_uncached, simulate_pod_drain,
  simulate_pods, simulate_drain,
}
use draino.Simulator.Cache.{get-add}

abbrev budgets_allow : Bool → List Pdb → Bool
budgets_allow is_ready [] = true
budgets_allow is_ready (pdb ∷ []) = not (is_pdb_blocked_by_pod is_ready pdb)
budgets_allow is_ready (pdb ∷ other ∷ more) = false

abbrev is_accepted : DryRun → Bool
is_accepted accepted = true
is_accepted rejected = false
is_accepted dry_run_error = false

-- A pod that the drain skips, or that at most one budget covers, which leaves room for it, and whose
-- eviction the API server accepts.
unfoldable pub is_evictable : PodAnswers → Bool
is_evictable p = elim p.skip_filter [
  | filter_error ↦ false
  | filter_answer passes ↦ if not passes then true else elim p.pdbs [
    | none ↦ false
    | some pdbs ↦ budgets_allow p.is_ready pdbs && is_accepted p.dry_run
  ]
]

eviction-result :
    (now : Time) (cache : Cache) (p : PodAnswers)
    → (rate_limited_eviction now cache p).0.result ≡ true
    → is_accepted p.dry_run ≡ true
unfolding rate_limited_eviction simulate_eviction
eviction-result now cache p h = ground (arith, h)

budgets-result :
    (now : Time) (cache : Cache) (p : PodAnswers) (pdbs : List Pdb)
    → (simulate_budgets now cache p pdbs).0.result ≡ true
    → (budgets_allow p.is_ready pdbs && is_accepted p.dry_run) ≡ true
unfolding simulate_budgets
budgets-result now cache p [] h = eviction-result now cache p h
budgets-result now cache p (pdb ∷ []) h = ground (arith, h, eviction-result now cache p)
budgets-result now cache p (pdb ∷ other ∷ more) h = ground (arith, h)

uncached-result :
    (now : Time) (cache : Cache) (p : PodAnswers)
    → (simulate_uncached now cache p).0.result ≡ true
    → is_evictable p ≡ true
unfolding simulate_uncached is_evictable
uncached-result now cache p h = elim (Option-cases p.pdbs) [
  | inl e ↦ ground (arith, h, e)
  | inr (pdbs, e) ↦ ground (arith, h, e, budgets-result now cache p pdbs)
]

-- What a simulation leaves in the cache: nothing new, or its own result.
eviction-cache :
    (now : Time) (cache : Cache) (p : PodAnswers)
    → ((rate_limited_eviction now cache p).1 ≡ cache)
      ⊎ ((rate_limited_eviction now cache p).1
          ≡ write_pod_cache p (rate_limited_eviction now cache p).0 now cache)
unfolding rate_limited_eviction simulate_eviction
eviction-cache now cache p = ground arith

budgets-cache :
    (now : Time) (cache : Cache) (p : PodAnswers) (pdbs : List Pdb)
    → ((simulate_budgets now cache p pdbs).1 ≡ cache)
      ⊎ ((simulate_budgets now cache p pdbs).1
          ≡ write_pod_cache p (simulate_budgets now cache p pdbs).0 now cache)
unfolding simulate_budgets
budgets-cache now cache p [] = eviction-cache now cache p
budgets-cache now cache p (pdb ∷ []) = ground (arith, eviction-cache now cache p)
budgets-cache now cache p (pdb ∷ other ∷ more) = inr refl

uncached-cache :
    (now : Time) (cache : Cache) (p : PodAnswers)
    → ((simulate_uncached now cache p).1 ≡ cache)
      ⊎ ((simulate_uncached now cache p).1
          ≡ write_pod_cache p (simulate_uncached now cache p).0 now cache)
unfolding simulate_uncached
uncached-cache now cache p = elim (Option-cases p.pdbs) [
  | inl e ↦ ground (arith, e)
  | inr (pdbs, e) ↦ ground (arith, e, budgets-cache now cache p pdbs)
]

-- Every positive result in the cache is for a pod that is good.
abbrev pub IsSound : (String → Bool) → Time → Cache → Type 0
IsSound good now cache =
    (uid : String) (r : SimulationResult)
    → cache_get uid now cache ≡ some r
    → r.result ≡ true
    → good uid ≡ true

write-IsSound :
    (good : String → Bool) (now : Time) (cache : Cache) (p : PodAnswers) (r : SimulationResult)
    → IsSound good now cache
    → (r.result ≡ true → good p.uid ≡ true)
    → IsSound good now (write_pod_cache p r now cache)
unfolding write_pod_cache
write-IsSound good now cache p r sound h uid s e t =
    let got = get-add p.uid uid r (if r.result then positive_ttl else negative_ttl) now now cache in
    elim (Bool-cases (str_eq p.uid uid)) [
      | inl same ↦
          subst (λ u. good u ≡ true) ((eq_iff p.uid uid).0 same)
            (h (ground (arith, same, got, e, t)))
      | inr other ↦ sound uid s (ground (arith, other, got, e)) t
    ]

pod-uncached :
    (now : Time) (cache : Cache) (p : PodAnswers)
    → cache_get p.uid now cache ≡ none
    → simulate_pod_drain now cache p ≡ simulate_uncached now cache p
unfolding simulate_pod_drain
pod-uncached now cache p e = ground (arith, e)

pod-cached :
    (now : Time) (cache : Cache) (p : PodAnswers) (r : SimulationResult)
    → cache_get p.uid now cache ≡ some r
    → simulate_pod_drain now cache p ≡ (r, cache)
unfolding simulate_pod_drain
pod-cached now cache p r e = ground (arith, e)

module _ (good : String → Bool) (now : Time) where
  pod-IsSound :
      (cache : Cache) (p : PodAnswers)
      → IsSound good now cache
      → (is_evictable p ≡ true → good p.uid ≡ true)
      → ((simulate_pod_drain now cache p).0.result ≡ true → good p.uid ≡ true)
        × IsSound good now (simulate_pod_drain now cache p).1
  pod-IsSound cache p sound h = elim (Option-cases (cache_get p.uid now cache)) [
    | inl e ↦
        let good_if : (simulate_uncached now cache p).0.result ≡ true → good p.uid ≡ true =
          λ t. h (uncached-result now cache p t) in
        rw (pod-uncached now cache p e) (
          good_if,
          elim (uncached-cache now cache p) [
            | inl same ↦ subst (IsSound good now) (sym same) sound
            | inr written ↦
                subst (IsSound good now) (sym written)
                  (write-IsSound good now cache p _ sound good_if)
          ],
        )
    | inr (r, e) ↦ rw (pod-cached now cache p r e) (sound p.uid r e, sound)
  ]

  -- A simulation that says that all pods can be evicted is right about each of them.
  pods-IsSound :
      (all_evictable : Bool) (cache : Cache) (pods : List PodAnswers)
      → IsSound good now cache
      → All (λ p. is_evictable p ≡ true → good p.uid ≡ true) pods
      → (simulate_pods all_evictable now cache pods).0 ≡ true
      → (all_evictable ≡ true) × All (λ p. good p.uid ≡ true) pods
  unfolding simulate_pods
  pods-IsSound all_evictable cache [] sound h e = (e, tt)
  pods-IsSound all_evictable cache (p ∷ ps) sound h e =
      let r = simulate_pod_drain now cache p in
      let pod = pod-IsSound cache p sound h.0 in
      let next = if r.0.result then all_evictable else false in
      let rest = pods-IsSound next r.1 ps pod.1 h.1 (ground (arith, e)) in
      (ground (arith, rest.0), (pod.0 (ground (arith, rest.0)), rest.1))

-- A node that SimulateDrain lets be drained has only good pods: if every pod that is skipped, or
-- whose budget and dry run allow the eviction, is good, and the positive results in the cache are of
-- good pods, then all the pods of the node are.
pub simulate_drain-IsSound :
    (good : String → Bool) (now : Time) (cache : Cache) (pods : List PodAnswers)
    → IsSound good now cache
    → All (λ p. is_evictable p ≡ true → good p.uid ≡ true) pods
    → (simulate_drain now cache (some pods)).0 ≡ true
    → All (λ p. good p.uid ≡ true) pods
unfolding simulate_drain
simulate_drain-IsSound good now cache pods sound h e =
    (pods-IsSound good now true cache pods sound h (ground (arith, e))).1
