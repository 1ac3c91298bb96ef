-- ===== src/Sorters.antt =====
-- The comparisons that order the nodes of a group: internal/candidate_runner/sorters, and
-- CompareNode of internal/kubernetes/analyser/pdb_analyser.go. `sort` stands for sort.Sort, the
-- searches in the annotations and in the indexes for their results.
mod Orders
mod Tests
use draino.Prelude.{
  ℕ, zero, suc, ◌+◌, String, Bool, true, false, not, ◌&&◌, ◌||◌, List, [], ◌∷◌, ◌++◌, Option, none,
  some, ℤ, pos, ltb, leb, ltb_ℤ, length, if◌then◌else◌, str_eq, map, any,
}
use draino.K8s.{Node}
use draino.Scheduler.{LessFunc}

-- compareConditionsPriorities on the priorities of two sorted lists of conditions.
unfoldable pub compare_priorities : List ℤ → List ℤ → Bool
compare_priorities [] ys = false
compare_priorities (x ∷ xs) [] = true
compare_priorities (x ∷ xs) (y ∷ ys) =
    let rest = compare_priorities xs ys in
    if ltb_ℤ y x then true else if ltb_ℤ x y then false else rest

unfoldable pub compare_node_conditions_priorities :
    (sort : List ℤ → List ℤ) → (offending_priorities : Node → List ℤ) → Node → Node → Bool
compare_node_conditions_priorities sort offending_priorities n m =
    compare_priorities (sort (offending_priorities n)) (sort (offending_priorities m))

-- getHighestPrioFromNode: the loop over the results.
unfoldable pub highest_from : Option ℤ → List ℤ → Option ℤ
highest_from max [] = max
highest_from none (v ∷ vs) = highest_from (some v) vs
highest_from (some max) (v ∷ vs) = highest_from (some (if ltb_ℤ max v then v else max)) vs

-- `none` is the error of the search.
unfoldable pub priority_of : Option (List ℤ) → ℤ
unfolding highest_from
priority_of none = pos 0
priority_of (some values) = elim (highest_from none values) [ none ↦ pos 0 | some max ↦ max ]

unfoldable pub annotation_prioritizer : (found_on : Node → Option (List ℤ)) → Node → Node → Bool
annotation_prioritizer found_on n m = ltb_ℤ (priority_of (found_on m)) (priority_of (found_on n))

-- A pod that blocks a budget, by the budget's namespace and name.
pub record BlockingPod : Type 0 where
  pub pod : String
  pub pdb : String

-- The number of budgets, which is the length of the index by budget.
unfoldable pub count_pdbs : List BlockingPod → ℕ
count_pdbs [] = 0
count_pdbs (b ∷ bs) =
    let rest = count_pdbs bs in if any (λ c. str_eq b.pdb c.pdb) bs then rest else suc rest

unfoldable pub remove_transient_blocking_states :
    (is_warming_up : BlockingPod → Bool) → List BlockingPod → List BlockingPod
remove_transient_blocking_states is_warming_up [] = []
remove_transient_blocking_states is_warming_up (b ∷ bs) =
    let rest = remove_transient_blocking_states is_warming_up bs in
    if is_warming_up b then rest else b ∷ rest

abbrev pub is_zero : ℕ → Bool
is_zero zero = true
is_zero (suc n) = false

-- The comparison by the number of budgets, then of pods.
unfoldable pub compare_counts : (pdbs1 pods1 pdbs2 pods2 : ℕ) → Bool
compare_counts pdbs1 pods1 pdbs2 pods2 =
    if is_zero pdbs1
    then false
    else if is_zero pdbs2
    then true
    else if ltb pdbs1 pdbs2
    then true
    else if ltb pdbs2 pdbs1
    then false
    else ltb pods1 pods2

unfoldable pub compare_node :
    (is_warming_up : BlockingPod → Bool)
    → (blocking_pods_on_node : Node → List BlockingPod) → Node
    → Node
    → Bool
unfolding compare_counts count_pdbs remove_transient_blocking_states
compare_node is_warming_up blocking_pods_on_node n m =
    let b1 = remove_transient_blocking_states is_warming_up (blocking_pods_on_node n) in
    let b2 = remove_transient_blocking_states is_warming_up (blocking_pods_on_node m) in
    compare_counts (count_pdbs b1) (length b1) (count_pdbs b2) (length b2)

-- The sorters that the program gives to the tree, cmd/draino/draino.go.
unfoldable pub node_sorters :
    (found_on : Node → Option (List ℤ)) (sort : List ℤ → List ℤ)
    (offending_priorities : Node → List ℤ) (is_warming_up : BlockingPod → Bool)
    (blocking : Node → List BlockingPod)
    → List (LessFunc Node)
node_sorters found_on sort offending_priorities is_warming_up blocking =
    annotation_prioritizer found_on
    ∷ compare_node_conditions_priorities sort offending_priorities
    ∷ compare_node is_warming_up blocking
    ∷ []
