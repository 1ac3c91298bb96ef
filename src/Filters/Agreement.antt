-- ===== src/Filters/Agreement.antt =====
-- The two ways in which a composite filter is asked, and what a kept candidate is known to be.
use draino.Prelude.{
  ◌≡◌, ◌≢◌, refl, ◌∙◌, sym, ap, Bool, true, false, not, ◌&&◌, ◌||◌, List, [], ◌∷◌, ◌++◌, some,
  if◌then◌else◌, ltb_ℤ, keep_if, arith, Option-cases, inl, inr,
}
use draino.K8s.{Time, Node}
use draino.Retry.Wall.{get_retry_wall_timestamp}
use draino.DrainBuffer.{next_drain}
use draino.Filters.{
  CheckOutput, failing_checks, only_failing_checks, Filter, filter_node, filter_list, is_empty,
  filter_all, filter_node_from, filter_node_all, Config, build_candidate_filter, retry_filter,
  drain_buffer_filter, global_blocker_filter, pvc_bound_filter, label_filter, stability_filter,
  filter_from_function,
}

-- A node passes every filter.
unfoldable pub passes : List Filter → Node → Bool
passes [] n = true
passes (f ∷ fs) n = (f.f n).0 && passes fs n

filter_node_from-keep :
    (keep : Bool) (checks : List CheckOutput) (fs : List Filter) (n : Node)
    → (filter_node_from keep checks fs n).keep ≡ (keep && passes fs n)
unfolding filter_node_from passes filter_node
filter_node_from-keep keep checks [] n = ground arith
filter_node_from-keep keep checks (f ∷ fs) n = ground (
  arith,
  filter_node_from-keep (keep && (filter_node f n).keep) (checks ++ (filter_node f n).checks) fs n,
)

filter_all-step :
    (f : Filter) (fs : List Filter) (nodes : List Node)
    → keep_if (passes (f ∷ fs)) nodes ≡ keep_if (passes fs) (filter_list f nodes)
unfolding keep_if passes filter_list
filter_all-step f fs [] = refl
filter_all-step f fs (n ∷ ns) = ground (arith, filter_all-step f fs ns)

keep_all : (nodes : List Node) → keep_if (passes []) nodes ≡ nodes
unfolding keep_if passes
keep_all [] = refl
keep_all (n ∷ ns) = ap (λ ms. n ∷ ms) (keep_all ns)

stop_early :
    (fs : List Filter) (kept : List Node)
    → filter_all fs kept ≡ keep_if (passes fs) kept
    → (if is_empty kept then kept else filter_all fs kept) ≡ keep_if (passes fs) kept
unfolding keep_if
stop_early fs [] h = refl
stop_early fs (n ∷ ns) h = h

filter_all-passes :
    (fs : List Filter) (nodes : List Node) → filter_all fs nodes ≡ keep_if (passes fs) nodes
unfolding filter_all
filter_all-passes [] nodes = sym (keep_all nodes)
filter_all-passes (f ∷ fs) nodes =
    let kept = filter_list f nodes in
    stop_early fs kept (filter_all-passes fs kept) ∙ sym (filter_all-step f fs nodes)

keep_if-same :
    (p q : Node → Bool) (nodes : List Node)
    → ((n : Node) → p n ≡ q n)
    → keep_if p nodes ≡ keep_if q nodes
unfolding keep_if
keep_if-same p q [] h = refl
keep_if-same p q (n ∷ ns) h = ground (arith, h n, keep_if-same p q ns h)

-- A composite filter keeps of a list exactly the nodes, in their order, that it keeps when it is
-- asked about them one by one.
filter_all-filter_node_all :
    (fs : List Filter) (nodes : List Node)
    → filter_all fs nodes ≡ keep_if (λ n. (filter_node_all fs n).keep) nodes
unfolding filter_node_all
filter_all-filter_node_all fs nodes =
    filter_all-passes fs nodes
    ∙ keep_if-same (passes fs) _ nodes (λ n. sym (filter_node_from-keep true [] fs n))

unfoldable has_failing : List CheckOutput → Bool
has_failing [] = false
has_failing (c ∷ cs) = not c.keep || has_failing cs

has_failing-append :
    (xs : List CheckOutput) (c : CheckOutput)
    → has_failing (xs ++ c ∷ []) ≡ (has_failing xs || not c.keep)
unfolding has_failing
has_failing-append [] c = ground arith
has_failing-append (d ∷ xs) c = ground (arith, has_failing-append xs c)

has_failing-nonempty : (cs : List CheckOutput) → has_failing cs ≡ true → failing_checks cs ≢ []
unfolding has_failing failing_checks
has_failing-nonempty [] h = cc
has_failing-nonempty (c ∷ cs) h = ground (arith, h, has_failing-nonempty cs)

filter_node_from-failing :
    (keep : Bool) (checks : List CheckOutput) (fs : List Filter) (n : Node)
    → (keep ≡ false → has_failing checks ≡ true)
    → (filter_node_from keep checks fs n).keep ≡ false
    → has_failing (filter_node_from keep checks fs n).checks ≡ true
unfolding filter_node_from filter_node
filter_node_from-failing keep checks [] n h e = h e
filter_node_from-failing keep checks (f ∷ fs) n h e =
    let check : CheckOutput = record {
      filter_name = f.name;
      keep = (f.f n).0;
      reason = (f.f n).1;
    } in
    filter_node_from-failing (keep && (f.f n).0) (checks ++ check ∷ []) fs n
      (ground (arith, h, has_failing-append checks check)) e

-- A node that a composite filter rejects is given at least one failing check as the reason.
pub only_failing_checks-reason :
    (fs : List Filter) (n : Node)
    → (filter_node_all fs n).keep ≡ false
    → (only_failing_checks (filter_node_all fs n)).checks ≢ []
unfolding filter_node_all only_failing_checks
only_failing_checks-reason fs n e =
    rw (e) (has_failing-nonempty _ (filter_node_from-failing true [] fs n (ground arith) e))

-- A candidate that the filters of the factory keep has a retry wall and a drain buffer that have
-- passed, and nothing blocks every drain.
pub build_candidate_filter-keeps :
    (c : Config) (n : Node)
    → (filter_node_all (build_candidate_filter c) n).keep ≡ true
    → (ltb_ℤ (get_retry_wall_timestamp c.wall n) c.now ≡ true)
      × ((t : Time) × (next_drain (c.group_key n) c.buffer ≡ some t) × (ltb_ℤ t c.now ≡ true))
      × (c.blocked.0 ≡ false)
      × (c.node_labels n ≡ true)
      × (c.accepts_drain n c.now ≡ true)
      × (c.pods_by_volume n ≡ some [])
unfolding filter_node_all build_candidate_filter passes retry_filter drain_buffer_filter
    global_blocker_filter pvc_bound_filter label_filter stability_filter filter_from_function
build_candidate_filter-keeps c n e =
    let all_pass = sym (filter_node_from-keep true [] (build_candidate_filter c) n) ∙ e in
    (
      ground (arith, all_pass),
      elim (Option-cases (next_drain (c.group_key n) c.buffer)) [
        | inl f ↦ ground (arith, all_pass, f)
        | inr (t, f) ↦ (t, f, ground (arith, all_pass, f))
      ],
      ground (arith, all_pass),
      ground (arith, all_pass),
      ground (arith, all_pass),
      ground (arith, all_pass),
    )
