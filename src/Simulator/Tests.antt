-- ===== src/Simulator/Tests.antt =====
-- Two pods, one without a budget and one in the cache, and a concrete instance of each theorem.
use draino.Prelude.{◌≡◌, refl, true, false, [], ◌∷◌, some, pos, All, lookup, str_eq}
use draino.Simulator.{
  cache_get, filter_answer, accepted, PodAnswers, Cache, simulate_drain, has_negative,
  simulate_pod_drain, simulate_uncached,
}
use draino.Simulator.Cache.{IsMap}
use draino.Simulator.Verdict.{IsSound, simulate_drain-IsSound}

abbrev plain_pod : PodAnswers
plain_pod = record {
  uid = "1";
  is_ready = true;
  skip_filter = filter_answer true;
  pdbs = some [];
  try_accept = true;
  dry_run = accepted;
}

abbrev one_result : Cache
one_result =
    ("2", record { expires = pos 900; entry = record { result = true; has_error = false } }) ∷ []

one_result-IsMap : IsMap one_result
unfolding lookup
one_result-IsMap = (refl, tt)

drainable : (simulate_drain (pos 800) [] (some (plain_pod ∷ []))).0 ≡ true
unfolding simulate_drain has_negative simulate_pod_drain simulate_uncached cache_get lookup
drainable = refl

empty-IsSound : IsSound (λ uid. str_eq uid "1") (pos 800) []
unfolding cache_get lookup
empty-IsSound uid r e t = cc

simulate_drain-IsSound_example : All (λ p. str_eq p.uid "1" ≡ true) (plain_pod ∷ [])
simulate_drain-IsSound_example =
    simulate_drain-IsSound (λ uid. str_eq uid "1") (pos 800) [] (plain_pod ∷ []) empty-IsSound
      ((λ _. refl), tt) drainable
