-- ===== src/Scheduler/Delivery.antt =====
-- The sequence that a client of the tree sees.
use mathlib.Core.List.{Perm, Pairwise}
use draino.Prelude.{
  ℕ, zero, suc, ◌+◌, ◌<◌, ◌≡◌, refl, ap, List, [], ◌∷◌, ◌++◌, false, some, length, arith, All,
  Bool-cases, inl, inr, append-nil, ◌==◌,
}
use draino.Scheduler.{
  LessFunc, Sort, Node, Found, found, done, out_of_fuel, is_leaf, next, drain, initialize,
}
use draino.Scheduler.Order.{order, cost, rest_of, rest_above, cost_of, cost_above}
use draino.Scheduler.Sorting.{IsStrictWeak, Sorts, lex_less}
use draino.Scheduler.Priority.{order-perm, order-IsSorted}
use draino.Scheduler.Walk.{IsNode, IsParent, Ends, next-Ends}

module _ {A : Type 0} (sort : Sort A) where
  drain-done :
      (fuel rounds : ℕ) (n : Node A) (ps : List (Node A))
      → next sort fuel n ps ≡ done
      → drain sort fuel (suc rounds) (record { current_node = some (n, ps) }) ≡ some []
  unfolding drain
  drain-done fuel rounds n ps q = ground arith

  drain-found :
      (fuel rounds : ℕ) (n m : Node A) (ps qs : List (Node A)) (x : A) {xs : List A}
      → next sort fuel n ps ≡ found x m qs
      → drain sort fuel rounds (record { current_node = some (m, qs) }) ≡ some xs
      → drain sort fuel (suc rounds) (record { current_node = some (n, ps) }) ≡ some (x ∷ xs)
  unfolding drain
  drain-found fuel rounds n m ps qs x q e = ground arith

  -- From any node that the walk may stand at, the loop ends with what is left.
  drain_from :
      (fuel rounds : ℕ) (n : Node A) (ps : List (Node A))
      → IsNode n
      → All IsParent ps
      → length (rest_of sort n ++ rest_above sort ps) < rounds
      → cost_of sort n + cost_above sort ps < fuel
      → drain sort fuel rounds (record { current_node = some (n, ps) })
        ≡ some (rest_of sort n ++ rest_above sort ps)
  drain_from fuel zero n ps v vs more h = absurd (omega arith)
  drain_from fuel (suc rounds) n ps v vs more h =
      go (next sort fuel n ps) refl (next-Ends sort fuel n ps v vs h) (drain_from fuel rounds)
    where
      go :
          (r : Found A)
          → next sort fuel n ps ≡ r
          → Ends sort (rest_of sort n ++ rest_above sort ps) (cost_of sort n + cost_above sort ps) r
          → ((m : Node A) (qs : List (Node A))
              → IsNode m
              → All IsParent qs
              → length (rest_of sort m ++ rest_above sort qs) < rounds
              → cost_of sort m + cost_above sort qs < fuel
              → drain sort fuel rounds (record { current_node = some (m, qs) })
                ≡ some (rest_of sort m ++ rest_above sort qs))
          → drain sort fuel (suc rounds) (record { current_node = some (n, ps) })
            ≡ some (rest_of sort n ++ rest_above sort ps)
      go (found x m qs) q (split_off, w, ws, lt) rec =
          let shorter = ap length split_off in
          rw split_off
            (drain-found fuel rounds n m ps qs x q (rec m qs w ws (omega arith) (omega arith)))
      go done q nothing rec = rw nothing (drain-done fuel rounds n ps q)
      go out_of_fuel q no_fuel rec = absurd no_fuel

  initial_rest :
      (items : List A) (sorters : List (LessFunc A))
      → let n : Node A = record {
        raw_collection = items;
        sorters = sorters;
        children = [];
        current = 0;
      } in
        (rest_of sort n ≡ order sort sorters items) × (cost_of sort n ≡ cost sort sorters items)
  unfolding rest_of cost_of is_leaf order cost
  initial_rest items [] = (refl, refl)
  initial_rest items (less ∷ rest) = elim (Bool-cases (length items == 1)) [
    | inl one ↦ rw one (refl, refl)
    | inr many ↦ rw many (refl, refl)
  ]

  -- Whatever the sort does, the walk hands out what the recursive ordering with that sort lists.
  drain-initialize :
      (items : List A) (sorters : List (LessFunc A)) (fuel rounds : ℕ)
      → cost sort sorters items < fuel
      → length (order sort sorters items) < rounds
      → drain sort fuel rounds (initialize items sorters) ≡ some (order sort sorters items)
  unfolding initialize rest_above cost_above
  drain-initialize items sorters fuel rounds h more =
      let (rest, calls) = initial_rest items sorters in
      rw (← append-nil (order sort sorters items), ← rest)
        (drain_from fuel rounds
          (record { raw_collection = items; sorters = sorters; children = []; current = 0 }) []
          (record { starts = λ _ _. refl; handed_down = λ e. cc }) tt (rw (append-nil, rest) more)
          (omega (arith, calls)))

  -- With `sort.Slice` as documented and strict weak orders as sorters, a client that calls `Next`
  -- until nothing is left receives a rearrangement of the items in which no item comes after one
  -- that the first sorter to tell the two apart puts behind it. The loop ends when it is given
  -- fuel above the cost of the walk, and a round for each item and one more.
  pub drain-IsSorted :
      (s : Sorts sort) (items : List A) (sorters : List (LessFunc A)) (fuel rounds : ℕ)
      → All IsStrictWeak sorters
      → cost sort sorters items < fuel
      → length (order sort sorters items) < rounds
      → (xs : List A) × (drain sort fuel rounds (initialize items sorters) ≡ some xs)
        × Perm xs items
        × Pairwise (λ a b. lex_less sorters b a ≡ false) xs
  drain-IsSorted s items sorters fuel rounds ws h more = (
    order sort sorters items,
    drain-initialize items sorters fuel rounds h more,
    order-perm sort s sorters items,
    order-IsSorted sort s sorters items ws,
  )
