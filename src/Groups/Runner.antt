-- ===== src/Groups/Runner.antt =====
-- internal/groups/runner.go: the runners of the groups. A call of RunForGroup holds the lock from
-- its test to its store, and so does the deletion at the end of a goroutine: each is one step. A
-- goroutine is a key in the list of those that live.
use draino.Prelude.{
  ℕ, ◌+◌, ◌-◌, ◌≤◌, ◌≡◌, refl, String, List, [], ◌∷◌, none, some, if◌then◌else◌, str_eq, eq_iff,
  Dict, lookup, insert, delete, lookup-insert, lookup-delete, arith, ◌==◌,
}

pub record GroupsRunner : Type 0 where
  pub running : Dict String
  pub live : List String

unfoldable pub run_for_group : String → GroupsRunner → GroupsRunner
run_for_group key g = elim (lookup key g.running) [
  | some already_running ↦ g
  | none ↦ record { running = insert key key g.running; live = key ∷ g.live }
]

unfoldable pub count_key : String → List String → ℕ
count_key key [] = 0
count_key key (k ∷ ks) = (if str_eq k key then 1 else 0) + count_key key ks

unfoldable pub remove_one : String → List String → List String
remove_one key [] = []
remove_one key (k ∷ ks) = let rest = remove_one key ks in if str_eq k key then ks else k ∷ rest

-- The end of a goroutine for the key, if one lives.
unfoldable pub end_run : String → GroupsRunner → GroupsRunner
unfolding count_key remove_one
end_run key g =
    if count_key key g.live == 0
    then g
    else record { running = delete key g.running; live = remove_one key g.live }

pub data Event : Type 0 where
  runs : String → Event
  ends : String → Event

unfoldable pub run_events : List Event → GroupsRunner → GroupsRunner
unfolding run_for_group end_run
run_events [] g = g
run_events (runs key ∷ es) g = run_events es (run_for_group key g)
run_events (ends key ∷ es) g = run_events es (end_run key g)

abbrev pub no_runner : GroupsRunner
no_runner = record { running = []; live = [] }

count-remove_one :
    (j key : String) (ks : List String)
    → count_key j (remove_one key ks)
      ≡ (if str_eq key j then count_key j ks - 1 else count_key j ks)
unfolding count_key remove_one
count-remove_one j key [] = ground arith
count-remove_one j key (k ∷ ks) =
    ground (arith, eq_iff key j, eq_iff k key, eq_iff k j, count-remove_one j key ks)

abbrev pub registered : String → Dict String → ℕ
registered key m = elim (lookup key m) [ none ↦ 0 | some _ ↦ 1 ]

-- The map holds a key exactly if one goroutine runs for it, and no key has two.
abbrev pub IsConsistent : GroupsRunner → Type 0
IsConsistent g = (key : String) → count_key key g.live ≡ registered key g.running

pub run_for_group-IsConsistent :
    (key : String) (g : GroupsRunner) → IsConsistent g → IsConsistent (run_for_group key g)
unfolding run_for_group count_key
run_for_group-IsConsistent key g h j =
    ground (arith, h j, h key, eq_iff key j, lookup-insert key j key g.running)

pub end_run-IsConsistent :
    (key : String) (g : GroupsRunner) → IsConsistent g → IsConsistent (end_run key g)
unfolding end_run
end_run-IsConsistent key g h j =
    ground (
      arith,
      h j,
      h key,
      eq_iff key j,
      lookup-delete key j g.running,
      count-remove_one j key g.live,
    )

run_events-IsConsistent :
    (es : List Event) (g : GroupsRunner) → IsConsistent g → IsConsistent (run_events es g)
unfolding run_events
run_events-IsConsistent [] g h = h
run_events-IsConsistent (runs key ∷ es) g h =
    run_events-IsConsistent es _ (run_for_group-IsConsistent key g h)
run_events-IsConsistent (ends key ∷ es) g h =
    run_events-IsConsistent es _ (end_run-IsConsistent key g h)

pub empty-IsConsistent : IsConsistent no_runner
unfolding count_key lookup
empty-IsConsistent j = refl

-- After any sequence of calls and ends of goroutines, at most one goroutine runs for a group, and a
-- group that has one is in the map.
run_events-one_runner :
    (es : List Event) (key : String)
    → (count_key key (run_events es no_runner).live ≤ 1)
      × (lookup key (run_events es no_runner).running ≡ none
          → count_key key (run_events es no_runner).live ≡ 0)
run_events-one_runner es key =
    let h = run_events-IsConsistent es no_runner empty-IsConsistent key in
    (ground (arith, h), ground (arith, h))
