-- ===== src/Groups/Reconciler/Registered.antt =====
-- internal/groups/reconciler.go: a node that is reconciled has one goroutine of each runner.
use draino.Prelude.{
  ◌≡◌, refl, String, true, false, List, [], ◌∷◌, Option, none, ltb_ℤ, Bool-cases, Option-cases, inl,
  inr, arith, eq_refl,
}
use draino.K8s.{Node}
use draino.Drainer.Poll.{Got, found, missing, get_error}
use draino.Groups.{GroupKeyFromMetadata, get_group_key}
use draino.Groups.Runner.{
  GroupsRunner, run_for_group, count_key, IsConsistent, run_for_group-IsConsistent,
  end_run-IsConsistent, empty-IsConsistent,
}
use draino.Groups.Reconciler.{
  GroupRegistry, ReconcileCalls, node_warm_up_delay, start_group, group_key_patch_error,
  start_if_patched, register_node, passes, reconcile_node, reconcile_got, reconcile, RegistryEvent,
  reconciles, drain_ends, candidate_ends, after_event, after_events, new_group_registry,
}

abbrev IsRegistry : GroupRegistry → Type 0
IsRegistry r = IsConsistent r.group_drain_runner × IsConsistent r.group_drain_candidate_runner

start_group-IsRegistry :
    (key : String) (r : GroupRegistry) → IsRegistry r → IsRegistry (start_group key r)
unfolding start_group
start_group-IsRegistry key r h =
    (run_for_group-IsConsistent key _ h.0, run_for_group-IsConsistent key _ h.1)

register_node-IsRegistry :
    (g : GroupKeyFromMetadata) (e : Option String) (n : Node) (r : GroupRegistry)
    → IsRegistry r
    → IsRegistry (register_node g e n r).registry
unfolding register_node start_if_patched
register_node-IsRegistry g e n r h = elim (Option-cases (group_key_patch_error g n e)) [
  | inl k ↦ rw k (start_group-IsRegistry (get_group_key g n) r h)
  | inr (err, k) ↦ rw k h
]

reconcile_node-IsRegistry :
    (g : GroupKeyFromMetadata) (calls : ReconcileCalls) (n : Node) (r : GroupRegistry)
    → IsRegistry r
    → IsRegistry (reconcile_node g calls n r).registry
unfolding reconcile_node
reconcile_node-IsRegistry g calls n r h = elim (Bool-cases (ltb_ℤ calls.age node_warm_up_delay)) [
  | inl young ↦ rw young h
  | inr old ↦ elim (Bool-cases (passes calls.node_filtering_func n)) [
    | inl in_scope ↦ rw (old, in_scope) (register_node-IsRegistry g calls.patch_error n r h)
    | inr out ↦ rw (old, out) h
  ]
]

reconcile_got-IsRegistry :
    (g : GroupKeyFromMetadata) (calls : ReconcileCalls) (got : Got Node) (r : GroupRegistry)
    → IsRegistry r
    → IsRegistry (reconcile_got g calls got r).registry
unfolding reconcile_got
reconcile_got-IsRegistry g calls (found n) r h = reconcile_node-IsRegistry g calls n r h
reconcile_got-IsRegistry g calls missing r h = h
reconcile_got-IsRegistry g calls (get_error e) r h = h

reconcile-IsRegistry :
    (g : GroupKeyFromMetadata) (calls : ReconcileCalls) (r : GroupRegistry)
    → IsRegistry r
    → IsRegistry (reconcile g calls r).registry
unfolding reconcile
reconcile-IsRegistry g calls r h = elim (Bool-cases calls.has_synced) [
  | inl synced ↦ rw synced (reconcile_got-IsRegistry g calls calls.get r h)
  | inr not_yet ↦ rw not_yet h
]

after_events-IsRegistry :
    (g : GroupKeyFromMetadata) (es : List RegistryEvent) (r : GroupRegistry)
    → IsRegistry r
    → IsRegistry (after_events g es r)
unfolding after_events after_event
after_events-IsRegistry g [] r h = h
after_events-IsRegistry g (reconciles calls ∷ es) r h =
    after_events-IsRegistry g es _ (reconcile-IsRegistry g calls r h)
after_events-IsRegistry g (drain_ends key ∷ es) r h =
    after_events-IsRegistry g es _ (end_run-IsConsistent key _ h.0, h.1)
after_events-IsRegistry g (candidate_ends key ∷ es) r h =
    after_events-IsRegistry g es _ (h.0, end_run-IsConsistent key _ h.1)

-- A started group has exactly one goroutine.
run_for_group-one :
    (key : String) (r : GroupsRunner)
    → IsConsistent r
    → count_key key (run_for_group key r).live ≡ 1
unfolding run_for_group count_key
run_for_group-one key r h = ground (arith, h key, eq_refl key)

register_node-starts :
    (g : GroupKeyFromMetadata) (e : Option String) (n : Node) (r : GroupRegistry)
    → group_key_patch_error g n e ≡ none
    → (register_node g e n r).registry ≡ start_group (get_group_key g n) r
unfolding register_node start_if_patched
register_node-starts g e n r h = rw h refl

reconcile-starts :
    (g : GroupKeyFromMetadata) (calls : ReconcileCalls) (n : Node) (r : GroupRegistry)
    → calls.has_synced ≡ true
    → calls.get ≡ found n
    → ltb_ℤ calls.age node_warm_up_delay ≡ false
    → passes calls.node_filtering_func n ≡ true
    → group_key_patch_error g n calls.patch_error ≡ none
    → (reconcile g calls r).registry ≡ start_group (get_group_key g n) r
unfolding reconcile reconcile_got reconcile_node
reconcile-starts g calls n r synced got old in_scope patched =
    rw (synced, got, old, in_scope) (register_node-starts g calls.patch_error n r patched)

-- After any sequence of reconciliations and ends of goroutines, a reconciliation that finds a node,
-- old enough and accepted by the filter, and whose patch does not fail, leaves exactly one drain
-- runner and one candidate runner for the group of the node.
pub reconcile-one_of_each :
    (g : GroupKeyFromMetadata) (es : List RegistryEvent) (calls : ReconcileCalls) (n : Node)
    → calls.has_synced ≡ true
    → calls.get ≡ found n
    → ltb_ℤ calls.age node_warm_up_delay ≡ false
    → passes calls.node_filtering_func n ≡ true
    → group_key_patch_error g n calls.patch_error ≡ none
    → (count_key
          (get_group_key g n)
          (reconcile g calls
            (after_events g es new_group_registry)).registry.group_drain_runner.live
        ≡ 1)
      × (count_key
            (get_group_key g n)
            (reconcile g calls (after_events g es new_group_registry)
              ).registry.group_drain_candidate_runner.live
          ≡ 1)
unfolding start_group
reconcile-one_of_each g es calls n synced got old in_scope patched =
    let h =
      after_events-IsRegistry g es new_group_registry (empty-IsConsistent, empty-IsConsistent) in
    rw (reconcile-starts g calls n _ synced got old in_scope patched)
      (run_for_group-one _ _ h.0, run_for_group-one _ _ h.1)
