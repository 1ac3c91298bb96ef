-- ===== src/Sorters/Tests.antt =====
-- Three nodes of which one has a priority, and a concrete instance of the theorem.
use mathlib.Core.List.{Perm, Pairwise, flat_map}
use draino.Prelude.{
  ◌≡◌, refl, false, List, [], ◌∷◌, Option, none, some, ℤ, pos, if◌then◌else◌, str_eq, arith,
}
use draino.K8s.{Node}
use draino.Scheduler.{LessFunc, drain, initialize, bucket_slice, next, is_leaf, expand, fresh}
use draino.Scheduler.Order.{order, cost}
use draino.Scheduler.Sorting.{lex_less}
use draino.Scheduler.Tests.{insertion_sort, insertion_sort-Sorts, put}
use draino.Sorters.{
  node_sorters, annotation_prioritizer, priority_of, compare_node_conditions_priorities,
  compare_priorities, compare_node, compare_counts, count_pdbs, remove_transient_blocking_states,
}
use draino.Sorters.Orders.{drain-candidates_sorted}

abbrev plain_node : Node
plain_node = record {
  name = "plain";
  labels = [];
  annotations = [];
  taints = [];
  conditions = [];
  deletion_timestamp = none;
}

abbrev urgent_node : Node
urgent_node = record plain_node { name = "urgent" }

abbrev nodes : List Node
nodes = plain_node ∷ urgent_node ∷ []

abbrev found_on : Node → Option (List ℤ)
found_on n = if str_eq n.name "urgent" then some (pos 2 ∷ pos 7 ∷ []) else none

abbrev sorters : List (LessFunc Node)
sorters = node_sorters found_on (λ ps. ps) (λ n. []) (λ b. false) (λ n. [])

program : Unit {0}
unfolding insertion_sort put drain next is_leaf expand fresh initialize bucket_slice order cost
    flat_map node_sorters annotation_prioritizer priority_of compare_node_conditions_priorities
    compare_priorities compare_node compare_counts count_pdbs remove_transient_blocking_states
program = tt

drain_urgent_first :
    drain insertion_sort 100 3 (initialize nodes sorters) ≡ some (urgent_node ∷ plain_node ∷ [])
unfolding program
drain_urgent_first = refl

drain-candidates_sorted_example :
    (xs : List Node) × (drain insertion_sort 100 3
        (initialize nodes (node_sorters found_on (λ ps. ps) (λ n. []) (λ b. false) (λ n. [])))
      ≡ some xs)
    × Perm xs nodes
    × Pairwise
        (λ a b.
          lex_less (node_sorters found_on (λ ps. ps) (λ n. []) (λ b. false) (λ n. [])) b a ≡ false)
        xs
unfolding program
drain-candidates_sorted_example =
    drain-candidates_sorted insertion_sort insertion_sort-Sorts nodes found_on (λ ps. ps) (λ n. [])
      (λ b. false) (λ n. []) 100 3 (omega arith) (omega arith)
