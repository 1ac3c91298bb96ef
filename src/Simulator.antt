-- ===== src/Simulator.antt =====
-- internal/kubernetes/drain/simulator.go, with the cache of internal/kubernetes/utils/cache.go and
-- IsPDBBlockedByPod of internal/kubernetes/analyser/pdb_analyser.go. What the pod filter, the index
-- of budgets, the rate limiter and the dry run of the API server answer for a pod is an argument.
mod Cache
mod Verdict
mod Tests
use draino.Prelude.{
  ℕ, ◌+◌, String, Bool, true, false, not, List, [], ◌∷◌, ◌++◌, Option, none, some, ◌+ℤ◌, ltb_ℤ, leb,
  if◌then◌else◌, Dict, lookup, insert, pos, ◌*◌,
}
use draino.K8s.{Time, Duration, minute}

pub record TtlEntry (T : Type 0) : Type 0 where
  pub expires : Time
  pub entry : T

-- Get also deletes an entry that has expired, which no later Get can tell.
unfoldable pub cache_get : {T : Type 0} → String → Time → Dict (TtlEntry T) → Option T
cache_get key now cache = elim (lookup key cache) [
  | none ↦ none
  | some e ↦ if ltb_ℤ e.expires now then none else some e.entry
]

unfoldable pub add_custom_ttl :
    {T : Type 0} → String → T → Duration → Time → Dict (TtlEntry T) → Dict (TtlEntry T)
add_custom_ttl key val ttl now cache =
    insert key (record { expires = now +ℤ ttl; entry = val }) cache

unfoldable pub cleanup : {T : Type 0} → Time → Dict (TtlEntry T) → Dict (TtlEntry T)
cleanup now [] = []
cleanup now ((key, e) ∷ m) =
    let rest = cleanup now m in if ltb_ℤ e.expires now then rest else (key, e) ∷ rest

-- A result, with whether there is an error in it. The texts of reasons and errors are left out.
pub record SimulationResult : Type 0 where
  pub result : Bool
  pub has_error : Bool

-- IsPDBBlockedByPod, by whether the pod is ready and by the status of the budget, whose counts are
-- not negative: `current + taking - desired <= 0`.
pub record Pdb : Type 0 where
  pub current_healthy : ℕ
  pub desired_healthy : ℕ

unfoldable pub is_pdb_blocked_by_pod : (is_ready : Bool) → Pdb → Bool
is_pdb_blocked_by_pod is_ready pdb =
    leb (pdb.current_healthy + (if is_ready then 0 else 1)) pdb.desired_healthy

pub data FilterAnswer : Type 0 where
  filter_error : FilterAnswer
  filter_answer : (passes : Bool) → FilterAnswer

-- The dry run: accepted, rejected by an admission or by too many requests, or another error.
pub data DryRun : Type 0 where
  accepted : DryRun
  rejected : DryRun
  dry_run_error : DryRun

pub record PodAnswers : Type 0 where
  pub uid : String
  pub is_ready : Bool
  pub skip_filter : FilterAnswer
  pub pdbs : Option (List Pdb)
  pub try_accept : Bool
  pub dry_run : DryRun

abbrev pub Cache : Type 0
Cache = Dict (TtlEntry SimulationResult)

abbrev pub ok : SimulationResult
ok = record { result = true; has_error = false }

abbrev pub refused : SimulationResult
refused = record { result = false; has_error = false }

abbrev pub failing : SimulationResult
failing = record { result = false; has_error = true }

abbrev pub positive_ttl : Duration
positive_ttl = pos minute

abbrev pub negative_ttl : Duration
negative_ttl = pos (3 * minute)

unfoldable pub write_pod_cache : PodAnswers → SimulationResult → Time → Cache → Cache
unfolding add_custom_ttl
write_pod_cache p r now cache =
    add_custom_ttl p.uid r (if r.result then positive_ttl else negative_ttl) now cache

-- The dry run and the write of its result.
unfoldable pub simulate_eviction : Time → Cache → PodAnswers → SimulationResult × Cache
simulate_eviction now cache p = elim p.dry_run [
  | accepted ↦ (ok, write_pod_cache p ok now cache)
  | rejected ↦ (refused, write_pod_cache p refused now cache)
  | dry_run_error ↦ (failing, write_pod_cache p failing now cache)
]

unfoldable pub rate_limited_eviction : Time → Cache → PodAnswers → SimulationResult × Cache
unfolding simulate_eviction
rate_limited_eviction now cache p =
    if not p.try_accept then (failing, cache) else simulate_eviction now cache p

-- From the budgets of the pod on.
unfoldable pub simulate_budgets : Time → Cache → PodAnswers → List Pdb → SimulationResult × Cache
unfolding rate_limited_eviction
simulate_budgets now cache p [] = rate_limited_eviction now cache p
simulate_budgets now cache p (pdb ∷ []) =
    if is_pdb_blocked_by_pod p.is_ready pdb
    then (refused, write_pod_cache p refused now cache)
    else rate_limited_eviction now cache p
simulate_budgets now cache p (pdb ∷ other ∷ more) = (refused, write_pod_cache p refused now cache)

unfoldable pub simulate_uncached : Time → Cache → PodAnswers → SimulationResult × Cache
unfolding simulate_budgets
simulate_uncached now cache p = elim p.skip_filter [
  | filter_error ↦ (failing, cache)
  | filter_answer passes ↦
      if not passes
      then (ok, write_pod_cache p ok now cache)
      else elim p.pdbs [ none ↦ (failing, cache) | some pdbs ↦ simulate_budgets now cache p pdbs ]
]

unfoldable pub simulate_pod_drain : Time → Cache → PodAnswers → SimulationResult × Cache
unfolding simulate_uncached
simulate_pod_drain now cache p = elim (cache_get p.uid now cache) [
  | none ↦ simulate_uncached now cache p
  | some r ↦ (r, cache)
]

-- Whether a pod has a negative result in the cache.
unfoldable pub has_negative : Time → Cache → List PodAnswers → Bool
has_negative now cache [] = false
has_negative now cache (p ∷ ps) =
    let rest = has_negative now cache ps in
    elim (cache_get p.uid now cache) [ none ↦ rest | some r ↦ if r.result then rest else true ]

-- The loop over the pods, from whether all could be evicted so far: an error ends it.
unfoldable pub simulate_pods : Bool → Time → Cache → List PodAnswers → Bool × Cache
simulate_pods all_evictable now cache [] = (all_evictable, cache)
simulate_pods all_evictable now cache (p ∷ ps) =
    let r = simulate_pod_drain now cache p in
    let rest = simulate_pods (if r.0.result then all_evictable else false) now r.1 ps in
    if r.0.has_error then (false, r.1) else rest

-- SimulateDrain at one time: whether the node can be drained, and the cache. `none` is the error of
-- the index of pods.
unfoldable pub simulate_drain : Time → Cache → Option (List PodAnswers) → Bool × Cache
unfolding simulate_pods has_negative
simulate_drain now cache none = (false, cache)
simulate_drain now cache (some pods) =
    if has_negative now cache pods then (false, cache) else simulate_pods true now cache pods
