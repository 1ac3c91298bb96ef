-- ===== src/Drainer/Endpoint.antt =====
-- drainer.go, the two eviction functions: evictWithKubernetesAPI, evictWithOperatorAPI, and evict,
-- which takes the second for a pod with the annotation draino/eviction-api-url. The parser of URLs
-- and the HTTP client are of other repositories: what they answer is a value.
pub mod Returns
use draino.Prelude.{
  ℕ, zero, suc, ◌-◌, ◌<◌, ◌≤◌, ◌≡◌, ◌≢◌, refl, String, Bool, true, false, not, ◌&&◌, List, [], ◌∷◌,
  Option, none, some, if◌then◌else◌, ◌==◌, ltb, str_eq, ℤ, pos, arith,
}
use draino.Drainer.Errors.{
  DrainError, overlapping_disruption_budgets, eviction_endpoint, audience_not_found, api_status,
  other,
}
use draino.Drainer.Poll.{PollLib}
use draino.Drainer.Sequence.{
  Attempt, accepted, not_found, too_many_requests, refused, Target, DrainerConfig, Round, Eviction,
  Progress, eviction_sequence,
}

-- The answer of EvictV1, by the tests of apierrors.
pub data ApiReply : Type 0 where
  evicted pod_not_found : ApiReply
  throttled : (retry_after_seconds : Option ℤ) → ApiReply
  status : (code : ℕ) → ApiReply
  client_error : (message : String) → ApiReply

unfoldable pub kubernetes_attempt : ApiReply → Attempt
kubernetes_attempt evicted = accepted
kubernetes_attempt pod_not_found = not_found
kubernetes_attempt (throttled retry_after) = too_many_requests retry_after
kubernetes_attempt (status code) = refused (api_status code)
kubernetes_attempt (client_error message) = refused (other message)

-- A status of 500 stands for a pod with several disruption budgets.
unfoldable pub handle_kubernetes_error : DrainError → Option DrainError
handle_kubernetes_error (api_status code) =
    some (if code == 500 then overlapping_disruption_budgets else api_status code)
handle_kubernetes_error e = some e

-- What one call of the endpoint meets. `audience` is the parameter token-audience of the URL, and
-- the flags of an error are the tests that the code makes of it.
pub data EndpointReply : Type 0 where
  bad_url : EndpointReply
  no_response : (audience : String) → (vault_denies is_timeout : Bool) → EndpointReply
  response : (status_code : ℕ) → EndpointReply

abbrev pub max_retry_on_500 : ℕ
max_retry_on_500 = 4

-- `left` is maxRetryOn500, which the calls of one eviction share.
unfoldable pub operator_attempt : (left : ℕ) → EndpointReply → ℕ × Attempt
operator_attempt left bad_url = (left, refused (eviction_endpoint 0 false false))
operator_attempt left (no_response audience vault_denies is_timeout) = (
  left,
  refused (
      if not (str_eq audience "") && vault_denies
      then audience_not_found audience
      else eviction_endpoint 0 false is_timeout),
)
operator_attempt left (response status_code) =
    if status_code == 200
    then (left, accepted)
    else if status_code == 429
    then (left, too_many_requests (some (pos 10)))
    else if status_code == 404
    then (left, not_found)
    else if status_code == 503
    then (left, too_many_requests (some (pos 15)))
    else if status_code == 500
    then if ltb 0 left
      then (left - 1, too_many_requests (some (pos 20)))
      else (left, refused (eviction_endpoint 500 true false))
    else (left, refused (eviction_endpoint status_code false false))

module _ (lib : PollLib) (step : ℕ → ℕ) (config : DrainerConfig) (pod : Target)
    (rounds : ℕ → Round) where
  unfoldable pub evict_with_kubernetes_api : (ℕ → ApiReply) → (fuel : ℕ) → Option Eviction
  unfolding kubernetes_attempt handle_kubernetes_error
  evict_with_kubernetes_api replies fuel =
      eviction_sequence lib step config pod (λ n s. (s, kubernetes_attempt (replies n)))
        handle_kubernetes_error rounds fuel
        (record { round_number = 0; steps = 0; now = 0; kept = tt {0} })

  unfoldable pub evict_with_operator_api : (ℕ → EndpointReply) → (fuel : ℕ) → Option Eviction
  unfolding operator_attempt
  evict_with_operator_api replies fuel =
      eviction_sequence lib step config pod (λ n left. operator_attempt left (replies n)) some
        rounds fuel (record { round_number = 0; steps = 0; now = 0; kept = max_retry_on_500 })

  unfoldable pub evict : (ℕ → ApiReply) → (ℕ → EndpointReply) → (fuel : ℕ) → Option Eviction
  unfolding evict_with_kubernetes_api evict_with_operator_api
  evict api endpoint fuel = elim pod.eviction_url [
    | some url ↦ evict_with_operator_api endpoint fuel
    | none ↦ evict_with_kubernetes_api api fuel
  ]
