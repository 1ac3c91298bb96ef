-- ===== src/Pods/Chain.antt =====
-- podfilters.go: which pods the chain of filters of the drainer lets pass.
use draino.Prelude.{
  ◌≡◌, refl, String, Bool, true, false, ◌&&◌, ◌||◌, List, [], ◌∷◌, Option, Dict, all, arith,
  Bool-cases, inl, inr,
}
use draino.K8s.{OwnerReference, Pod}
use draino.Pods.{
  RuntimeStore, FilterResult, passes, rejects, fails, crashes, PodFilter, is_completed,
  new_pod_filters, with_opt_in_first, ignore_short_lived_pods, ignore_completed_pods, FilterOptions,
  pod_or_controller_has_any_of_the_annotations, eviction_filters, opt_in_filter,
  drainer_skip_pod_filter,
}

abbrev pub is_pass : FilterResult → Bool
is_pass (passes reason) = true
is_pass (rejects reason) = false
is_pass fails = false
is_pass crashes = false

abbrev pub is_reject : FilterResult → Bool
is_reject (passes reason) = false
is_reject (rejects reason) = true
is_reject fails = false
is_reject crashes = false

new_pod_filters-all :
    (fs : List PodFilter) (p : Pod) → is_pass (new_pod_filters fs p) ≡ all (λ f. is_pass (f p)) fs
unfolding new_pod_filters all
new_pod_filters-all [] p = refl
new_pod_filters-all (f ∷ fs) p = ground (arith, new_pod_filters-all fs p)

with_opt_in_first-or :
    (opt_in filter : PodFilter) (p : Pod)
    → is_pass (with_opt_in_first opt_in filter p)
      ≡ (is_pass (opt_in p) || (is_reject (opt_in p) && is_pass (filter p)))
unfolding with_opt_in_first
with_opt_in_first-or opt_in filter p = ground arith

module _ (parse : String → Option (Dict String → Bool)) (store : RuntimeStore)
    (controller_of : Pod → Option OwnerReference) (to_lower : String → String)
    (describe : Pod → String) (options : FilterOptions) (p : Pod) where
  ignore_short_lived_pods-and :
      (filter : PodFilter) (annots : List String)
      → is_pass (ignore_short_lived_pods parse store filter annots p) ≡ (
          is_reject (pod_or_controller_has_any_of_the_annotations parse store annots p)
          && is_pass (filter p))
  unfolding ignore_short_lived_pods
  ignore_short_lived_pods-and filter annots = ground arith

  -- The drainer evicts a completed pod; any other only if it is not short-lived, and it is opted in
  -- or passes every filter, where an error or a panic of a lookup on the way is no pass.
  pub drainer_skip_pod_filter-pass :
      is_pass (drainer_skip_pod_filter parse store controller_of to_lower describe options p) ≡ (
        is_completed p
        || (is_reject (
              pod_or_controller_has_any_of_the_annotations parse store
                options.short_lived_pod_annotations p)
            && (is_pass (opt_in_filter parse store controller_of to_lower describe options p)
                || (is_reject (opt_in_filter parse store controller_of to_lower describe options p)
                    && all
                        (λ f. is_pass (f p))
                        (eviction_filters parse store controller_of to_lower describe options)))))
  unfolding drainer_skip_pod_filter ignore_completed_pods
  drainer_skip_pod_filter-pass =
      let opt_in = opt_in_filter parse store controller_of to_lower describe options in
      let filters = eviction_filters parse store controller_of to_lower describe options in
      let chain = with_opt_in_first opt_in (new_pod_filters filters) in
      elim (Bool-cases (is_completed p)) [
        | inl h ↦ rw h refl
        | inr h ↦
            rw
              (
                h,
                ignore_short_lived_pods-and chain options.short_lived_pod_annotations,
                with_opt_in_first-or opt_in (new_pod_filters filters) p,
                new_pod_filters-all filters p,
              )
              refl
      ]
