-- ===== src/Scheduler/Order.antt =====
-- The order in which the tree is meant to hand out its items, without a tree: sort by the first
-- sorter, and order each bucket of equal items by the others. Also the steps that a walk takes.
use mathlib.Core.List.{flat_map}
use draino.Prelude.{ℕ, suc, ◌+◌, List, [], ◌∷◌, ◌++◌, length, drop, ◌==◌, if◌then◌else◌}
use draino.Scheduler.{LessFunc, Sort, Child, Node, is_nil, is_leaf, bucket_slice}

module _ {A : Type 0} (sort : Sort A) where
  unfoldable pub order : List (LessFunc A) → List A → List A
  unfolding flat_map
  order [] raw = raw
  order (less ∷ rest) raw =
      let inner = order rest in
      if length raw == 1 then raw else flat_map inner (bucket_slice sort raw less)

  abbrev pub order_child : Child A → List A
  order_child c = order c.rest_sorters c.items

  -- A bound for the calls that exploring a node takes.
  unfoldable pub total : (List A → ℕ) → List (List A) → ℕ
  total f [] = 0
  total f (b ∷ bs) = suc (f b + total f bs)

  unfoldable pub cost : List (LessFunc A) → List A → ℕ
  unfolding total
  cost [] raw = suc (length raw)
  cost (less ∷ rest) raw =
      let inner = cost rest in
      if length raw == 1 then suc (length raw) else suc (total inner (bucket_slice sort raw less))

  unfoldable pub cost_children : List (Child A) → ℕ
  cost_children [] = 0
  cost_children (c ∷ cs) = suc (cost c.rest_sorters c.items + cost_children cs)

  -- What the current node and its parents have still to hand out, and the calls left.
  unfoldable pub rest_of : Node A → List A
  unfolding flat_map
  rest_of n =
      if is_leaf n
      then drop n.current n.raw_collection
      else if is_nil n.children
      then order n.sorters n.raw_collection
      else flat_map order_child (drop n.current n.children)

  unfoldable pub rest_above : List (Node A) → List A
  unfolding flat_map
  rest_above [] = []
  rest_above (p ∷ ps) = flat_map order_child (drop (p.current + 1) p.children) ++ rest_above ps

  unfoldable pub cost_of : Node A → ℕ
  cost_of n =
      if is_leaf n
      then suc (length (drop n.current n.raw_collection))
      else if is_nil n.children
      then cost n.sorters n.raw_collection
      else suc (cost_children (drop n.current n.children))

  unfoldable pub cost_above : List (Node A) → ℕ
  cost_above [] = 0
  cost_above (p ∷ ps) = suc (cost_children (drop (p.current + 1) p.children)) + cost_above ps
