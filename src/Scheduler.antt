-- ===== src/Scheduler.antt =====
-- internal/scheduler/tree.go: the sorting tree that hands out nodes one by one. The tree is built
-- while `Next` walks it. `sort.Slice` of Go's library is the parameter `sort`.
--
-- The nodes from the root to `currentNode` are kept as a stack, the current node first: it stands
-- for the chain of `parent` pointers. A child is entered at most once, with no children and
-- `current` 0, and is never looked at again after its parent's `current` has passed it, so the
-- parent keeps of each child its items and sorters.
pub mod Sorting
pub mod Order
pub mod Walk
pub mod Priority
pub mod Delivery
pub mod Tests
use draino.Prelude.{
  ℕ, zero, suc, ◌+◌, List, [], ◌∷◌, ◌++◌, map, Bool, true, false, not, ◌&&◌, Option, none, some,
  length, get_elem?, ◌==◌, if◌then◌else◌,
}

abbrev pub LessFunc {ℓ} : Type ℓ → Type ℓ
LessFunc A = A → A → Bool

-- What `sort.Slice` does with a slice, given a `less`.
abbrev pub Sort {ℓ} : Type ℓ → Type ℓ
Sort A = LessFunc A → List A → List A

module _ {A : Type 0} where
  -- The loop of `bucketSlice`: the item before, the bucket being filled, the buckets filled.
  unfoldable pub fill : LessFunc A → A → List A → List (List A) → List A → List (List A)
  fill less prev current buckets [] = buckets ++ current ∷ []
  fill less prev current buckets (x ∷ xs) =
      let same = fill less x (current ++ x ∷ []) buckets xs in
      let next = fill less x (x ∷ []) (buckets ++ current ∷ []) xs in
      if not (less prev x) && not (less x prev) then same else next

  -- The part of `bucketSlice` behind the sort.
  unfoldable pub fill_sorted : LessFunc A → List A → List (List A)
  unfolding fill
  fill_sorted less [] = []
  fill_sorted less (x ∷ xs) = fill less x (x ∷ []) [] xs

  unfoldable pub bucket_slice : Sort A → List A → LessFunc A → List (List A)
  unfolding fill_sorted
  bucket_slice sort [] less = []
  bucket_slice sort (x ∷ xs) less = fill_sorted less (sort less (x ∷ xs))

abbrev pub is_nil {ℓ} : {B : Type ℓ} → List B → Bool
is_nil [] = true
is_nil (x ∷ xs) = false

-- A node that was not entered yet.
pub record Child (A : Type 0) : Type 0 where
  pub items : List A
  pub rest_sorters : List (LessFunc A)

pub record Node (A : Type 0) : Type 0 where
  pub raw_collection : List A
  pub sorters : List (LessFunc A)
  pub children : List (Child A)
  pub current : ℕ

-- Where `next` may end: an item with the node to go on from and its parents, the end of the
-- tree, or no fuel.
pub data Found (A : Type 0) : Type 0 where
  found : A → Node A → List (Node A) → Found A
  done : Found A
  out_of_fuel : Found A

-- SortingTree with its current node, which is nil once the tree is explored.
pub record SortingTree (A : Type 0) : Type 0 where
  pub current_node : Option (Node A × List (Node A))

module _ {A : Type 0} where
  unfoldable pub fresh : Child A → Node A
  fresh c = record {
    raw_collection = c.items;
    sorters = c.rest_sorters;
    children = [];
    current = 0;
  }

  unfoldable pub is_leaf : Node A → Bool
  is_leaf n = if is_nil n.sorters then true else length n.raw_collection == 1

  -- The last step of `expand`, by the sorters left.
  unfoldable pub expand_by : Sort A → Node A → List (LessFunc A) → Node A
  expand_by sort n [] = n
  expand_by sort n (less ∷ rest) = record n {
    children =
        map (λ b. record { items = b; rest_sorters = rest })
          (bucket_slice sort n.raw_collection less);
    raw_collection = [];
  }

  unfoldable pub expand : Sort A → Node A → Node A
  unfolding expand_by
  expand sort n =
      if is_nil n.children
      then (if length n.raw_collection == 1 then n else expand_by sort n n.sorters)
      else n

  abbrev pub bump : Node A → Node A
  bump n = record n { current = n.current + 1 }

  unfoldable pub next : Sort A → ℕ → Node A → List (Node A) → Found A
  next sort zero n parents = out_of_fuel
  next sort (suc fuel) n parents =
      let m = expand sort n in
      let up = elim parents as (λ _. Found A) [ [] ↦ done | p ∷ ps ↦ next sort fuel (bump p) ps ] in
      if is_leaf n
      then elim (get_elem? n.raw_collection n.current) as (λ _. Found A) [
        | none ↦ up
        | some x ↦ found x (bump n) parents
      ]
      else elim (get_elem? m.children m.current) as (λ _. Found A) [
        | none ↦ up
        | some c ↦ next sort fuel (fresh c) (m ∷ parents)
      ]

  -- `Initialize`.
  unfoldable pub initialize : List A → List (LessFunc A) → SortingTree A
  initialize items sorters = record {
    current_node =
        some (record { raw_collection = items; sorters = sorters; children = []; current = 0 }, []);
  }

  -- `Next`: the tree after the call, and the item if there is one. The outer `none` is for a call
  -- that ran out of fuel.
  unfoldable pub next_item : Sort A → ℕ → SortingTree A → Option (SortingTree A × Option A)
  next_item sort fuel t = elim t.current_node [
    | none ↦ some (t, none)
    | some (n, parents) ↦ elim (next sort fuel n parents) [
      | found x m ps ↦ some (record { current_node = some (m, ps) }, some x)
      | done ↦ some (record { current_node = none }, none)
      | out_of_fuel ↦ none
    ]
  ]

  -- A client's loop: `for x, ok := t.Next(); ok; x, ok = t.Next()`, at most `rounds` times.
  unfoldable pub drain : Sort A → ℕ → ℕ → SortingTree A → Option (List A)
  unfolding next_item
  drain sort fuel zero t = none
  drain sort fuel (suc rounds) t = elim (next_item sort fuel t) [
    | none ↦ none
    | some (u, none) ↦ some []
    | some (u, some x) ↦ elim (drain sort fuel rounds u) [ none ↦ none | some xs ↦ some (x ∷ xs) ]
  ]
