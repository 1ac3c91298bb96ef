-- ===== src/Drainer/Endpoint/Returns.antt =====
-- drainer.go, evict: the eviction of a pod returns, by either interface, and a pod whose eviction
-- returned nil was seen gone.
use draino.Prelude.{ℕ, ◌<◌, ◌≡◌, ◌⊎◌, refl, String, Option, none, some, inl, inr, arith}
use draino.Drainer.Poll.{done, PollLib, PollLaws, gone}
use draino.Drainer.Sequence.{not_found, Target, DrainerConfig, Round, Eviction, timeout_ns}
use draino.Drainer.Sequence.Deadline.{eviction_sequence_returns}
use draino.Drainer.Sequence.Gone.{evicted-WasGone}
use draino.Drainer.Endpoint.{
  ApiReply, evicted, pod_not_found, throttled, status, client_error, kubernetes_attempt,
  EndpointReply, bad_url, no_response, response, operator_attempt, evict_with_kubernetes_api,
  evict_with_operator_api, evict,
}

kubernetes_not_found : (r : ApiReply) → kubernetes_attempt r ≡ not_found → r ≡ pod_not_found
unfolding kubernetes_attempt
kubernetes_not_found evicted h = cc
kubernetes_not_found pod_not_found h = refl
kubernetes_not_found (throttled s) h = cc
kubernetes_not_found (status c) h = cc
kubernetes_not_found (client_error m) h = cc

operator_not_found :
    (left : ℕ) (r : EndpointReply) → (operator_attempt left r).1 ≡ not_found → r ≡ response 404
unfolding operator_attempt
operator_not_found left bad_url h = cc
operator_not_found left (no_response a v t) h = cc
operator_not_found left (response c) h = ground (arith)

-- The API, the endpoint or a later Get said that the pod is not there.
abbrev pub SeenGone : Target → (ℕ → Round) → (ℕ → ApiReply) → (ℕ → EndpointReply) → Type 0
SeenGone pod rounds api endpoint =
    ((n : ℕ) × (api n ≡ pod_not_found))
    ⊎ (((n : ℕ) × (endpoint n ≡ response 404))
        ⊎ ((n : ℕ) × (m : ℕ) × (gone pod.uid ((rounds n).polled_uid m) ≡ done)))

module _ (lib : PollLib) (step : ℕ → ℕ) (config : DrainerConfig) (pod : Target) (rounds : ℕ → Round)
    (api : ℕ → ApiReply) (endpoint : ℕ → EndpointReply) where
  pub evict_returns :
      ((n : ℕ) → 0 < (rounds n).spends)
      → (fuel : ℕ) → timeout_ns config pod < fuel
      → (e : Eviction) × (evict lib step config pod rounds api endpoint fuel ≡ some e)
  unfolding evict evict_with_kubernetes_api evict_with_operator_api
  evict_returns time_passes fuel enough = go pod.eviction_url
    where
      go :
          (url : Option String)
          → (e : Eviction) × (elim url [
            | some u ↦ evict_with_operator_api lib step config pod rounds endpoint fuel
            | none ↦ evict_with_kubernetes_api lib step config pod rounds api fuel
          ]
              ≡ some e)
      go none =
          eviction_sequence_returns lib step config pod _ _ rounds time_passes fuel _ (omega arith)
            (omega arith)
      go (some u) =
          eviction_sequence_returns lib step config pod _ _ rounds time_passes fuel _ (omega arith)
            (omega arith)

  pub evict-SeenGone :
      PollLaws lib
      → (fuel : ℕ) (e : Eviction) → evict lib step config pod rounds api endpoint fuel ≡ some e
      → e.error ≡ none
      → SeenGone pod rounds api endpoint
  unfolding evict evict_with_kubernetes_api evict_with_operator_api
  evict-SeenGone laws fuel e h ok = go pod.eviction_url h
    where
      go :
          (url : Option String)
          → elim url [
            | some u ↦ evict_with_operator_api lib step config pod rounds endpoint fuel
            | none ↦ evict_with_kubernetes_api lib step config pod rounds api fuel
          ]
            ≡ some e
          → SeenGone pod rounds api endpoint
      go none k = elim (evicted-WasGone lib step config pod _ _ rounds laws fuel _ e k (inl ok)) [
        | inl (n, s, a) ↦ inl (n, kubernetes_not_found (api n) a)
        | inr g ↦ inr (inr g)
      ]
      go (some u) k =
          elim (evicted-WasGone lib step config pod _ _ rounds laws fuel _ e k (inl ok)) [
            | inl (n, s, a) ↦ inr (inl (n, operator_not_found s (endpoint n) a))
            | inr g ↦ inr (inr g)
          ]
