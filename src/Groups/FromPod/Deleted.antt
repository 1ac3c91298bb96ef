-- ===== src/Groups/FromPod/Deleted.antt =====
-- internal/groups/group_from_pod.go: the node of a pod that is deleted.
use draino.Prelude.{
  ◌≡◌, refl, ◌∙◌, String, true, false, List, [], ◌∷◌, Option, none, some, str_eq, Dict, lookup,
  lookup-insert, lookup-delete, eq_refl, arith, Bool-cases, inl, inr, any,
}
use draino.K8s.{Pod}
use draino.Drainer.Poll.{Got, found, missing, get_error}
use draino.Groups.FromPod.{
  PodCalls, notify_key_getter, result_of, forget_pod, pod_gone, pod_seen, for_pod, reconcile_pod,
  after_turns,
}

module _ (req other : String) (differ : str_eq other req ≡ false) where
  forget_other :
      (error : Option String) (node_name : String) (m : Dict String)
      → lookup req (forget_pod other error node_name m).pod_to_node ≡ lookup req m
  unfolding forget_pod
  forget_other none node_name m = lookup-delete other req m ∙ ground (arith, differ)
  forget_other (some e) node_name m = refl

  gone_other :
      (calls : PodCalls) (known : Option String) (m : Dict String)
      → lookup req (pod_gone other calls known m).pod_to_node ≡ lookup req m
  unfolding pod_gone
  gone_other calls none m = refl
  gone_other calls (some node_name) m = forget_other (notify_key_getter calls node_name) node_name m

  seen_other :
      (calls : PodCalls) (p : Pod) (m : Dict String)
      → lookup req (pod_seen other calls p m).pod_to_node ≡ lookup req m
  unfolding pod_seen
  seen_other calls p m = ground (arith, differ, lookup-insert other req p.node_name m)

  for_other :
      (calls : PodCalls) (got : Got Pod) (m : Dict String)
      → lookup req (for_pod other calls got m).pod_to_node ≡ lookup req m
  unfolding for_pod
  for_other calls (found p) m = seen_other calls p m
  for_other calls missing m = gone_other calls (lookup other m) m
  for_other calls (get_error e) m = refl

  -- The call for one pod leaves what is known of another.
  reconcile_other :
      (calls : PodCalls) (m : Dict String)
      → lookup req (reconcile_pod other calls m).pod_to_node ≡ lookup req m
  unfolding reconcile_pod
  reconcile_other calls m = elim (Bool-cases calls.has_synced) [
    | inl e ↦ rw (reconcile_pod, e) (for_other calls calls.get_pod m)
    | inr e ↦ rw (reconcile_pod, e) refl
  ]

after_turns-keeps :
    (req : String) (turns : List (String × PodCalls)) (m : Dict String)
    → any (λ t. str_eq t.0 req) turns ≡ false
    → lookup req (after_turns turns m) ≡ lookup req m
unfolding after_turns any
after_turns-keeps req [] m h = refl
after_turns-keeps req ((other, calls) ∷ turns) m h =
    after_turns-keeps req turns _ (ground (arith, h))
    ∙ reconcile_other req other (ground (arith, h)) calls m

reconcile-seen :
    (req : String) (calls : PodCalls) (p : Pod) (m : Dict String)
    → calls.has_synced ≡ true
    → calls.get_pod ≡ found p
    → calls.pod_filter p ≡ true
    → str_eq p.node_name "" ≡ false
    → lookup req (reconcile_pod req calls m).pod_to_node ≡ some p.node_name
unfolding reconcile_pod for_pod pod_seen
reconcile-seen req calls p m s g k e =
    rw (reconcile_pod, s, g)
      (rw (k, e) (lookup-insert req req p.node_name m ∙ rw (eq_refl req) refl))

-- What becomes of the entry of a pod that is gone, by the error of the call for its node.
abbrev pub left_of : Option String → (node_name : String) → Option String
left_of none node_name = none
left_of (some e) node_name = some node_name

forgotten :
    (req node_name : String) (error : Option String) (m : Dict String)
    → lookup req m ≡ some node_name
    → ((forget_pod req error node_name m).notified ≡ node_name ∷ [])
      × ((forget_pod req error node_name m).result ≡ result_of error)
      × (lookup req (forget_pod req error node_name m).pod_to_node ≡ left_of error node_name)
unfolding forget_pod
forgotten req node_name none m h = (refl, refl, lookup-delete req req m ∙ rw (eq_refl req) refl)
forgotten req node_name (some e) m h = (refl, refl, h)

reconcile-gone :
    (req node_name : String) (calls : PodCalls) (m : Dict String)
    → calls.has_synced ≡ true
    → calls.get_pod ≡ missing
    → lookup req m ≡ some node_name
    → reconcile_pod req calls m ≡ forget_pod req (notify_key_getter calls node_name) node_name m
unfolding reconcile_pod for_pod pod_gone
reconcile-gone req node_name calls m s g h = rw (reconcile_pod, s, g) (rw (pod_gone, h) refl)

-- Once a pod that passes the filter was seen on a node, then whatever calls for other pods come
-- between, the call that finds the pod gone notifies this node, returns the error of that, and
-- keeps the node in the cache, to be notified again, exactly if there was an error.
pub reconcile_pod-notifies :
    (req : String) (seen gone : PodCalls) (p : Pod) (between : List (String × PodCalls))
    → (m : Dict String) → seen.has_synced ≡ true
    → seen.get_pod ≡ found p
    → seen.pod_filter p ≡ true
    → str_eq p.node_name "" ≡ false
    → any (λ t. str_eq t.0 req) between ≡ false
    → gone.has_synced ≡ true
    → gone.get_pod ≡ missing
    → ((reconcile_pod req gone (after_turns ((req, seen) ∷ between) m)).notified ≡ p.node_name ∷ [])
      × ((reconcile_pod req gone (after_turns ((req, seen) ∷ between) m)).result
          ≡ result_of (notify_key_getter gone p.node_name))
      × (lookup req (reconcile_pod req gone (after_turns ((req, seen) ∷ between) m)).pod_to_node
          ≡ left_of (notify_key_getter gone p.node_name) p.node_name)
unfolding after_turns
reconcile_pod-notifies req seen gone p between m s g k e others t l =
    let after = after_turns between (reconcile_pod req seen m).pod_to_node in
    let known : lookup req after ≡ some p.node_name =
      after_turns-keeps req between _ others ∙ reconcile-seen req seen p m s g k e in
    rw (reconcile-gone req p.node_name gone after t l known)
      (forgotten req p.node_name (notify_key_getter gone p.node_name) after known)
