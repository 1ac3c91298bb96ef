-- ===== src/Groups/Reconciler.antt =====
-- internal/groups/reconciler.go: GroupRegistry.Reconcile, which starts the two runners for the
-- group of a node. Each call of RunForGroup is one step of its runner.
pub mod Registered
use draino.Prelude.{
  ◌*◌, String, Bool, true, false, not, List, [], ◌∷◌, Option, none, some, if◌then◌else◌, str_eq,
  lookup, pos, ltb_ℤ,
}
use draino.K8s.{Node, Duration, second}
use draino.Drainer.Poll.{Got, found, missing, get_error}
use draino.Groups.{GroupKeyFromMetadata, drain_group_key, get_group_key, validate_group_key}
use draino.Groups.Runner.{GroupsRunner, no_runner, run_for_group, end_run}

pub record GroupRegistry : Type 0 where
  pub group_drain_runner : GroupsRunner
  pub group_drain_candidate_runner : GroupsRunner

-- What one call reads: whether the caches have synced, the node, its age, the filter, if there is
-- one, and the error of the patch of the node, if it is sent.
pub record ReconcileCalls : Type 0 where
  pub has_synced : Bool
  pub get : Got Node
  pub age : Duration
  pub node_filtering_func : Option (Node → Bool)
  pub patch_error : Option String

pub data Reconciled : Type 0 where
  requeue_after : Duration → Reconciled
  finished : Reconciled
  reconcile_error : String → Reconciled

-- The answer, the registry after the call, and whether the event of a bad override was sent.
pub record Round : Type 0 where
  pub result : Reconciled
  pub registry : GroupRegistry
  pub warned : Bool

abbrev pub node_warm_up_delay : Duration
node_warm_up_delay = pos (30 * second)

unfoldable pub start_group : String → GroupRegistry → GroupRegistry
start_group key r = record {
  group_drain_runner = run_for_group key r.group_drain_runner;
  group_drain_candidate_runner = run_for_group key r.group_drain_candidate_runner;
}

-- UpdateGroupKeyOnNode patches only a node whose key has changed.
unfoldable pub group_key_patch_error :
    GroupKeyFromMetadata → Node → (patch_error : Option String) → Option String
group_key_patch_error g n patch_error = elim (lookup drain_group_key n.annotations) [
  | none ↦ patch_error
  | some node_key ↦ if str_eq node_key (get_group_key g n) then none else patch_error
]

-- What is done after the patch, by its error.
unfoldable pub start_if_patched :
    (key : String) → (warned : Bool) → (patch_error : Option String) → GroupRegistry → Round
start_if_patched key warned (some e) r = record {
  result = reconcile_error e;
  registry = r;
  warned = warned;
}
start_if_patched key warned none r = record {
  result = finished;
  registry = start_group key r;
  warned = warned;
}

unfoldable pub register_node :
    GroupKeyFromMetadata → (patch_error : Option String) → Node → GroupRegistry → Round
register_node g patch_error n r =
    start_if_patched (get_group_key g n) (not (validate_group_key g n))
      (group_key_patch_error g n patch_error) r

abbrev pub passes : Option (Node → Bool) → Node → Bool
passes none n = true
passes (some f) n = f n

abbrev pub answers : Reconciled → GroupRegistry → Round
answers result r = record { result = result; registry = r; warned = false }

unfoldable pub reconcile_node : GroupKeyFromMetadata → ReconcileCalls → Node → GroupRegistry → Round
unfolding register_node
reconcile_node g calls n r =
    if ltb_ℤ calls.age node_warm_up_delay
    then answers (requeue_after node_warm_up_delay) r
    else if passes calls.node_filtering_func n
    then register_node g calls.patch_error n r
    else answers finished r

-- What the call makes of the answer of Get.
unfoldable pub reconcile_got :
    GroupKeyFromMetadata → ReconcileCalls → Got Node → GroupRegistry → Round
unfolding reconcile_node
reconcile_got g calls (found n) r = reconcile_node g calls n r
reconcile_got g calls missing r = answers finished r
reconcile_got g calls (get_error e) r = answers (reconcile_error e) r

unfoldable pub reconcile : GroupKeyFromMetadata → ReconcileCalls → GroupRegistry → Round
unfolding reconcile_got
reconcile g calls r =
    if calls.has_synced
    then reconcile_got g calls calls.get r
    else answers (requeue_after (pos (5 * second))) r

-- A call, or the end of a goroutine of either runner.
pub data RegistryEvent : Type 0 where
  reconciles : ReconcileCalls → RegistryEvent
  drain_ends candidate_ends : String → RegistryEvent

unfoldable pub after_event : GroupKeyFromMetadata → RegistryEvent → GroupRegistry → GroupRegistry
after_event g (reconciles calls) r = (reconcile g calls r).registry
after_event g (drain_ends key) r = record r {
  group_drain_runner = end_run key r.group_drain_runner;
}
after_event g (candidate_ends key) r = record r {
  group_drain_candidate_runner = end_run key r.group_drain_candidate_runner;
}

unfoldable pub after_events :
    GroupKeyFromMetadata → List RegistryEvent → GroupRegistry → GroupRegistry
unfolding after_event
after_events g [] r = r
after_events g (e ∷ es) r = after_events g es (after_event g e r)

abbrev pub new_group_registry : GroupRegistry
new_group_registry = record {
  group_drain_runner = no_runner;
  group_drain_candidate_runner = no_runner;
}
