-- ===== src/Sorters/Orders.antt =====
-- Each comparison is a strict weak order, as the tree of the scheduler needs it.
use draino.Prelude.{
  ℕ, ◌≡◌, ◌<◌, refl, some, Bool, true, false, List, [], ◌∷◌, Option, ℤ, ltb_ℤ, arith, length, All,
}
use draino.K8s.{Node}
use mathlib.Core.List.{Perm, Pairwise}
use draino.Scheduler.{Sort, drain, initialize}
use draino.Scheduler.Order.{order, cost}
use draino.Scheduler.Delivery.{drain-IsSorted}
use draino.Scheduler.Sorting.{IsStrictWeak, Sorts, lex_less}
use draino.Sorters.{
  compare_priorities, compare_node_conditions_priorities, priority_of, annotation_prioritizer,
  BlockingPod, count_pdbs, remove_transient_blocking_states, compare_counts, compare_node,
  node_sorters,
}

priorities-asym :
    (xs ys : List ℤ) → compare_priorities xs ys ≡ true → compare_priorities ys xs ≡ false
unfolding compare_priorities
priorities-asym [] ys h = cc
priorities-asym (x ∷ xs) [] h = refl
priorities-asym (x ∷ xs) (y ∷ ys) h = ground (arith, h, priorities-asym xs ys)

priorities-neg_trans :
    (xs ys zs : List ℤ)
    → compare_priorities xs ys ≡ false
    → compare_priorities ys zs ≡ false
    → compare_priorities xs zs ≡ false
unfolding compare_priorities
priorities-neg_trans [] ys zs h k = refl
priorities-neg_trans (x ∷ xs) [] zs h k = cc
priorities-neg_trans (x ∷ xs) (y ∷ ys) [] h k = cc
priorities-neg_trans (x ∷ xs) (y ∷ ys) (z ∷ zs) h k =
    ground (arith, h, k, priorities-neg_trans xs ys zs)

counts-asym : (a b c d : ℕ) → compare_counts a b c d ≡ true → compare_counts c d a b ≡ false
unfolding compare_counts
counts-asym a b c d h = ground (arith, h)

counts-neg_trans :
    (a b c d e f : ℕ)
    → compare_counts a b c d ≡ false
    → compare_counts c d e f ≡ false
    → compare_counts a b e f ≡ false
unfolding compare_counts
counts-neg_trans a b c d e f h k = ground (arith, h, k)

ltb_ℤ-asym : (a b : ℤ) → ltb_ℤ b a ≡ true → ltb_ℤ a b ≡ false
ltb_ℤ-asym a b h = ground (arith, h)

ltb_ℤ-neg_trans : (a b c : ℤ) → ltb_ℤ b a ≡ false → ltb_ℤ c b ≡ false → ltb_ℤ c a ≡ false
ltb_ℤ-neg_trans a b c h k = ground (arith, h, k)

-- The comparisons by annotation, by conditions and by budgets are strict weak orders, whatever the
-- searches, the sort and the warm-up test give.
pub sorters-IsStrictWeak :
    (found_on : Node → Option (List ℤ)) (sort : List ℤ → List ℤ)
    (offending_priorities : Node → List ℤ) (is_warming_up : BlockingPod → Bool)
    (blocking : Node → List BlockingPod)
    → All IsStrictWeak (
        annotation_prioritizer found_on
        ∷ compare_node_conditions_priorities sort offending_priorities
        ∷ compare_node is_warming_up blocking
        ∷ [])
unfolding annotation_prioritizer compare_node_conditions_priorities compare_node
sorters-IsStrictWeak found_on sort offending_priorities is_warming_up blocking = (
  record {
    asym = λ n m h. ltb_ℤ-asym (priority_of (found_on n)) (priority_of (found_on m)) h;
    neg_trans = λ n m k h i.
        ltb_ℤ-neg_trans (priority_of (found_on n)) (priority_of (found_on m))
          (priority_of (found_on k)) h i;
  },
  (
    record {
      asym = λ n m h.
          priorities-asym (sort (offending_priorities n)) (sort (offending_priorities m)) h;
      neg_trans = λ n m k h i.
          priorities-neg_trans (sort (offending_priorities n)) (sort (offending_priorities m))
            (sort (offending_priorities k)) h i;
    },
    (
      record {
        asym = λ n m h. counts-asym (pdbs n) (pods n) (pdbs m) (pods m) h;
        neg_trans =
            λ n m k h i. counts-neg_trans (pdbs n) (pods n) (pdbs m) (pods m) (pdbs k) (pods k) h i;
      },
      tt,
    ),
  ),
)
  where
    left : Node → List BlockingPod
    left n = remove_transient_blocking_states is_warming_up (blocking n)

    pdbs : Node → ℕ
    pdbs n = count_pdbs (left n)

    pods : Node → ℕ
    pods n = length (left n)

-- The tree with the three sorters of the program: a client that calls `Next` until nothing is left
-- receives the nodes, in an order in which none comes after one that the annotations, then the
-- conditions, then the budgets put behind it; given sort.Slice as documented, and fuel and rounds
-- above the cost of the walk and the number of the nodes.
pub drain-candidates_sorted :
    (slice : Sort Node) (s : Sorts slice) (nodes : List Node) (found_on : Node → Option (List ℤ))
    (sort : List ℤ → List ℤ) (offending_priorities : Node → List ℤ)
    (is_warming_up : BlockingPod → Bool) (blocking : Node → List BlockingPod) (fuel rounds : ℕ)
    → cost slice (node_sorters found_on sort offending_priorities is_warming_up blocking) nodes
      < fuel
    → length
        (order slice (node_sorters found_on sort offending_priorities is_warming_up blocking) nodes)
      < rounds
    → (xs : List Node) × (drain slice fuel rounds (
          initialize nodes (node_sorters found_on sort offending_priorities is_warming_up blocking))
        ≡ some xs)
      × Perm xs nodes
      × Pairwise
          (λ a b.
            lex_less (node_sorters found_on sort offending_priorities is_warming_up blocking) b a
            ≡ false)
          xs
unfolding node_sorters
drain-candidates_sorted slice s nodes found_on sort offending_priorities is_warming_up blocking fuel
      rounds =
    drain-IsSorted slice s nodes _ fuel rounds
      (sorters-IsStrictWeak found_on sort offending_priorities is_warming_up blocking)
