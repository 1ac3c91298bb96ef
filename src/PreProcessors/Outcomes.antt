-- ===== src/PreProcessors/Outcomes.antt =====
-- When the preprocessors let a drain start, and when they abort it.
use draino.Prelude.{
  ◌≡◌, refl, String, Bool, true, false, List, [], ◌∷◌, none, some, if◌then◌else◌, eq_iff, lookup,
  lookup_text, insert, lookup-insert, arith, All,
}
use draino.K8s.{Time, Node, Taint}
use draino.DrainRunner.{Done, check_from, check_preprocessors}
use draino.PreProcessors.{
  PreActivity, activities_done, done, not_done, processing, replace_request_key,
  trigger_node_replacement, replacement_state, has_preprovisioning_annotation, node_replacement,
}

check_from-flag :
    (all_done : Bool) (pres : List (Node → Done)) (n : Node)
    → (check_from all_done pres n).should_abort ≡ false
    → (check_from all_done pres n).all_done ≡ true
    → all_done ≡ true
unfolding check_from
check_from-flag all_done [] n a d = d
check_from-flag all_done (pre ∷ pres) n a d =
    let r = pre n in
    let next = if r.failed then false else if r.is_done then all_done else false in
    ground (arith, a, d, check_from-flag next pres n)

-- A loop that goes on from a preprocessor to the others.
check_from-step :
    (pre : Node → Done) (pres : List (Node → Done)) (n : Node)
    → (check_from true (pre ∷ pres) n).should_abort ≡ false
    → (check_from true (pre ∷ pres) n).all_done ≡ true
    → ((pre n).is_done ≡ true)
      × ((pre n).failed ≡ false)
      × ((check_from true pres n).should_abort ≡ false)
      × ((check_from true pres n).all_done ≡ true)
unfolding check_from
check_from-step pre pres n a d =
    let flag = check_from-flag false pres n in
    (
      ground (arith, a, d, flag),
      ground (arith, a, d, flag),
      ground (arith, a, d, flag),
      ground (arith, a, d, flag),
    )

check_from-done :
    (pres : List (Node → Done)) (n : Node)
    → (check_from true pres n).should_abort ≡ false
    → (check_from true pres n).all_done ≡ true
    → All (λ pre. ((pre n).is_done ≡ true) × ((pre n).failed ≡ false)) pres
check_from-done [] n a d = tt
check_from-done (pre ∷ pres) n a d =
    let s = check_from-step pre pres n a d in ((s.0, s.1), check_from-done pres n s.2 s.3)

-- If the loop over the preprocessors does not abort and reports that all are done, every one of them
-- says that it is done, without an error.
check_preprocessors-all_done :
    (pres : List (Node → Done)) (n : Node)
    → (check_preprocessors pres n).should_abort ≡ false
    → (check_preprocessors pres n).all_done ≡ true
    → All (λ pre. ((pre n).is_done ≡ true) × ((pre n).failed ≡ false)) pres
unfolding check_preprocessors
check_preprocessors-all_done pres n a d = check_from-done pres n a d

-- The activities of a candidate are done exactly if each of them is, in whatever order the map is
-- iterated.
activities_done_iff :
    (taint : Taint) (now : Time) (activities : List (String × PreActivity))
    → ((activities_done taint now activities).is_done ≡ true
        → All (λ a. a.1.state ≡ "done") activities)
      × (All (λ a. a.1.state ≡ "done") activities → activities_done taint now activities ≡ done)
unfolding activities_done
activities_done_iff taint now [] = (λ _. tt, λ _. refl)
activities_done_iff taint now ((key, entry) ∷ rest) =
    let ih = activities_done_iff taint now rest in
    (
      λ h. (ground (arith, h, eq_iff entry.state "done"), ih.0 (ground (arith, h))),
      λ h. ground (arith, (eq_iff entry.state "done").1 h.0, ih.1 h.1),
    )

abbrev labelled : Node → Node
labelled n = record n { labels = insert replace_request_key "requested" n.labels }

annotation-labels :
    (n : Node) (b : Bool)
    → has_preprovisioning_annotation (labelled n) b ≡ has_preprovisioning_annotation n b
unfolding has_preprovisioning_annotation
annotation-labels n b = refl

label_there : (n : Node) → lookup replace_request_key (labelled n).labels ≡ some "requested"
label_there n = lookup-insert replace_request_key replace_request_key "requested" n.labels

label_text : (n : Node) → lookup_text replace_request_key (labelled n).labels ≡ "requested"
unfolding lookup_text
label_text n = ground (arith, label_there n)

labelled-processing : (n : Node) → replacement_state (labelled n) ≡ not_done processing
unfolding replacement_state
labelled-processing n = rw (label_text n) refl

trigger-labelled :
    (fails : Bool) (n : Node) → trigger_node_replacement fails (labelled n) ≡ (labelled n, false)
unfolding trigger_node_replacement
trigger-labelled fails n = ground (arith, label_there n)

first_call :
    (b : Bool) (n : Node)
    → has_preprovisioning_annotation n b ≡ true
    → lookup replace_request_key n.labels ≡ none
    → node_replacement b false n ≡ (labelled n, not_done processing)
unfolding node_replacement trigger_node_replacement
first_call b n h e = ground (arith, h, e, labelled-processing n)

next_call :
    (b fails : Bool) (n : Node)
    → has_preprovisioning_annotation n b ≡ true
    → node_replacement b fails (labelled n) ≡ (labelled n, not_done processing)
unfolding node_replacement
next_call b fails n h =
    rw (annotation-labels n b, h, trigger-labelled fails n, labelled-processing n) refl

-- A node that asks for its replacement is labelled at the first call and is waited for, if the
-- patch does not fail; calls that follow change nothing.
node_replacement-requests :
    (all_nodes_by_default patch_fails : Bool) (n : Node)
    → has_preprovisioning_annotation n all_nodes_by_default ≡ true
    → lookup replace_request_key n.labels ≡ none
    → (lookup replace_request_key (node_replacement all_nodes_by_default false n).0.labels
        ≡ some "requested")
      × ((node_replacement all_nodes_by_default false n).1 ≡ not_done processing)
      × (node_replacement all_nodes_by_default patch_fails
            (node_replacement all_nodes_by_default false n).0
          ≡ node_replacement all_nodes_by_default false n)
node_replacement-requests all_nodes_by_default patch_fails n h e =
    rw (first_call all_nodes_by_default n h e)
      (label_there n, refl, next_call all_nodes_by_default patch_fails n h)
