-- ===== src/Scheduler/Walk.antt =====
-- `next` hands out the head of what is left, and enough fuel is given by the cost of what is left.
use mathlib.Core.List.{flat_map}
use draino.Prelude.{
  ℕ, zero, suc, ◌+◌, ◌≤◌, ◌<◌, ◌≡◌, refl, sym, ap, ◌∙◌, List, [], ◌∷◌, ◌++◌, map, true, false, none,
  some, inl, inr, length, get_elem?, drop, ◌==◌, arith, All, Bool-cases, Option-cases, append_assoc,
}
use draino.Scheduler.{
  LessFunc, Sort, Child, Node, Found, found, done, out_of_fuel, is_nil, is_leaf, bucket_slice,
  fresh, expand, bump, next,
}
use draino.Scheduler.Order.{
  order, order_child, total, cost, cost_children, rest_of, rest_above, cost_of, cost_above,
}

drop-get_elem?-some {ℓ} :
    {A : Type ℓ} (xs : List A) (i : ℕ) {x : A}
    → get_elem? xs i ≡ some x
    → drop i xs ≡ x ∷ drop (i + 1) xs
drop-get_elem?-some [] zero e = cc
drop-get_elem?-some [] (suc i) e = cc
drop-get_elem?-some (y ∷ xs) zero e = ground arith
drop-get_elem?-some (y ∷ xs) (suc i) e = ground (arith, drop-get_elem?-some xs i e)

drop-get_elem?-none {ℓ} :
    {A : Type ℓ} (xs : List A) (i : ℕ) → get_elem? xs i ≡ none → drop i xs ≡ []
drop-get_elem?-none [] zero e = refl
drop-get_elem?-none [] (suc i) e = refl
drop-get_elem?-none (y ∷ xs) zero e = cc
drop-get_elem?-none (y ∷ xs) (suc i) e = drop-get_elem?-none xs i e

module _ {A : Type 0} where
  -- A node that was expanded: its items are with its children.
  pub record IsParent (p : Node A) : Type 0 where
    pub inner : is_nil p.sorters ≡ false
    pub emptied : p.raw_collection ≡ []
    pub has_children : is_nil p.children ≡ false

  pub record IsNode (n : Node A) : Type 0 where
    pub starts : is_leaf n ≡ false → is_nil n.children ≡ true → n.current ≡ 0
    pub handed_down : is_nil n.children ≡ false → n.raw_collection ≡ []

module _ {A : Type 0} (sort : Sort A) where
  open_children : List (LessFunc A) → List (List A) → List (Child A)
  open_children rest = map (λ b. record { items = b; rest_sorters = rest })

  flat_map-open_children :
      (rest : List (LessFunc A)) (bs : List (List A))
      → flat_map (order_child sort) (open_children rest bs) ≡ flat_map (order sort rest) bs
  unfolding open_children flat_map
  flat_map-open_children rest [] = refl
  flat_map-open_children rest (b ∷ bs) =
      ap (◌++◌ (order sort rest b)) (flat_map-open_children rest bs)

  cost_children-open_children :
      (rest : List (LessFunc A)) (bs : List (List A))
      → cost_children sort (open_children rest bs) ≡ total sort (cost sort rest) bs
  unfolding open_children cost_children total
  cost_children-open_children rest [] = refl
  cost_children-open_children rest (b ∷ bs) = ground (arith, cost_children-open_children rest bs)

  order_many :
      (less : LessFunc A) (rest : List (LessFunc A)) (raw : List A)
      → (length raw == 1) ≡ false
      → order sort (less ∷ rest) raw
        ≡ flat_map (order_child sort) (open_children rest (bucket_slice sort raw less))
  unfolding order
  order_many less rest raw e = rw e (sym (flat_map-open_children rest (bucket_slice sort raw less)))

  cost_many :
      (less : LessFunc A) (rest : List (LessFunc A)) (raw : List A)
      → (length raw == 1) ≡ false
      → cost sort (less ∷ rest) raw
        ≡ suc (cost_children sort (open_children rest (bucket_slice sort raw less)))
  unfolding cost
  cost_many less rest raw e =
      rw e (ap suc (sym (cost_children-open_children rest (bucket_slice sort raw less))))

  -- What expanding an inner node gives.
  record Expands (n m : Node A) : Type 0 where
    rest : rest_of sort n ≡ flat_map (order_child sort) (drop m.current m.children)
    calls : cost_of sort n ≡ suc (cost_children sort (drop m.current m.children))
    handed_down : is_nil m.children ≡ false → m.raw_collection ≡ []
    inner : is_nil m.sorters ≡ false

  expand_fields :
      (raw : List A) (ss : List (LessFunc A)) (cs : List (Child A)) (i : ℕ)
      → let n : Node A = record {
        raw_collection = raw;
        sorters = ss;
        children = cs;
        current = i;
      } in
        IsNode n → is_leaf n ≡ false → Expands n (expand sort n)
  unfolding expand is_leaf rest_of cost_of open_children
  expand_fields raw [] cs i v e = absurd (ground arith)
  expand_fields raw (less ∷ rest) [] i v e =
      let first : i ≡ 0 = v.starts e refl in
      rw (first, e)
        (record {
          rest = rw e (order_many less rest raw e);
          calls = rw e (cost_many less rest raw e);
          handed_down = λ _. refl;
          inner = refl;
        })
  expand_fields raw (less ∷ rest) (c ∷ cs) i v e = record {
    rest = ground arith;
    calls = ground arith;
    handed_down = λ _. v.handed_down refl;
    inner = refl;
  }

  -- What `next` owes when `xs` is left to hand out and `bound` calls are left to make.
  abbrev pub Ends : List A → ℕ → Found A → Type 0
  Ends xs bound (found x n ps) =
      (xs ≡ x ∷ (rest_of sort n ++ rest_above sort ps))
      × IsNode n
      × All IsParent ps
      × (cost_of sort n + cost_above sort ps < bound)
  Ends xs bound done = xs ≡ []
  Ends xs bound out_of_fuel = ⊥

  Ends-mono : {xs ys : List A} {a b : ℕ} (r : Found A) → xs ≡ ys → a ≤ b → Ends ys a r → Ends xs b r
  Ends-mono (found x n ps) e h (split_off, v, vs, lt) = (e ∙ split_off, v, vs, omega arith)
  Ends-mono done e h nothing = e ∙ nothing
  Ends-mono out_of_fuel e h no_fuel = no_fuel

  fresh-IsNode : (c : Child A) → IsNode (fresh c)
  unfolding fresh
  fresh-IsNode c = record { starts = λ _ _. refl; handed_down = λ e. cc }

  bump_parent-IsNode : (p : Node A) → IsParent p → IsNode (bump p)
  bump_parent-IsNode p v = record {
    starts = λ _ none_left. absurd (ground (arith, v.has_children));
    handed_down = λ _. v.emptied;
  }

  bump_parent-rest :
      (p : Node A)
      → IsParent p
      → (rest_of sort (bump p) ≡ flat_map (order_child sort) (drop (p.current + 1) p.children))
        × (cost_of sort (bump p) ≡ suc (cost_children sort (drop (p.current + 1) p.children)))
  unfolding rest_of cost_of is_leaf
  bump_parent-rest p v = rw (v.inner, v.has_children, v.emptied) (refl, refl)

  fresh_fields :
      (items : List A) (ss : List (LessFunc A))
      → let c : Child A = record { items = items; rest_sorters = ss } in
        (rest_of sort (fresh c) ≡ order sort ss items)
        × (cost_of sort (fresh c) ≡ cost sort ss items)
  unfolding rest_of cost_of is_leaf fresh order cost
  fresh_fields items [] = (refl, refl)
  fresh_fields items (less ∷ rest) = elim (Bool-cases (length items == 1)) [
    | inl one ↦ rw one (refl, refl)
    | inr many ↦ rw many (refl, refl)
  ]

  fresh_rest :
      (c : Child A)
      → (rest_of sort (fresh c) ≡ order_child sort c)
        × (cost_of sort (fresh c) ≡ cost sort c.rest_sorters c.items)
  fresh_rest c = fresh_fields c.items c.rest_sorters

  bump_leaf :
      (n : Node A) {x : A}
      → IsNode n
      → is_leaf n ≡ true
      → get_elem? n.raw_collection n.current ≡ some x
      → (rest_of sort n ≡ x ∷ rest_of sort (bump n))
        × IsNode (bump n)
        × (cost_of sort (bump n) < cost_of sort n)
  unfolding rest_of cost_of is_leaf
  bump_leaf n v leaf e =
      let d = drop-get_elem?-some n.raw_collection n.current e in
      rw leaf (
        d,
        record { starts = λ inner. absurd (ground arith); handed_down = v.handed_down },
        rw d (omega arith),
      )

  climb :
      (fuel : ℕ) (n : Node A) (ps : List (Node A))
      → ((p : Node A) (qs : List (Node A))
          → IsNode (bump p)
          → All IsParent qs
          → cost_of sort (bump p) + cost_above sort qs < fuel
          → Ends
              (rest_of sort (bump p) ++ rest_above sort qs)
              (cost_of sort (bump p) + cost_above sort qs)
              (next sort fuel (bump p) qs))
      → rest_of sort n ≡ []
      → 0 < cost_of sort n
      → All IsParent ps
      → cost_of sort n + cost_above sort ps < suc fuel
      → Ends
          (rest_of sort n ++ rest_above sort ps)
          (cost_of sort n + cost_above sort ps)
          (elim ps as (λ _. Found A) [ [] ↦ done | p ∷ qs ↦ next sort fuel (bump p) qs ])
  unfolding rest_above cost_above
  climb fuel n [] rec e pos vs h = rw e refl
  climb fuel n (p ∷ ps) rec e pos (v, vs) h =
      let (rest, calls) = bump_parent-rest p v in
      Ends-mono (next sort fuel (bump p) ps) (rw (e, rest)) (omega arith)
        (rec p ps (bump_parent-IsNode p v) vs (omega arith))

  leaf_end :
      (n : Node A)
      → is_leaf n ≡ true
      → get_elem? n.raw_collection n.current ≡ none
      → (rest_of sort n ≡ []) × (0 < cost_of sort n)
  unfolding rest_of cost_of
  leaf_end n leaf e = rw leaf (drop-get_elem?-none n.raw_collection n.current e, omega arith)

  some_children :
      (cs : List (Child A)) (i : ℕ) {c : Child A} → get_elem? cs i ≡ some c → is_nil cs ≡ false
  some_children [] i e = cc
  some_children (d ∷ cs) i e = refl

  -- Going down into the next child leaves as much to hand out, for one call.
  down :
      (n m : Node A) (ps : List (Node A)) (c : Child A)
      → Expands n m
      → get_elem? m.children m.current ≡ some c
      → (rest_of sort n ++ rest_above sort ps ≡ rest_of sort (fresh c) ++ rest_above sort (m ∷ ps))
        × IsParent m
        × (suc (cost_of sort (fresh c) + cost_above sort (m ∷ ps))
            ≡ cost_of sort n + cost_above sort ps)
  unfolding rest_above cost_above cost_children flat_map
  down n m ps c x e =
      let d = drop-get_elem?-some m.children m.current e in
      let some_child = some_children m.children m.current e in
      let (rest, calls) = fresh_rest c in
      (
        rw (x.rest, d, rest)
            (append_assoc (order_child sort c)
              (flat_map (order_child sort) (drop (m.current + 1) m.children)) (rest_above sort ps)),
        record { inner = x.inner; emptied = x.handed_down some_child; has_children = some_child },
        rw (x.calls, d, calls) (omega arith),
      )

  no_child :
      (n m : Node A) → Expands n m → get_elem? m.children m.current ≡ none → rest_of sort n ≡ []
  unfolding flat_map
  no_child n m x e = rw (x.rest, drop-get_elem?-none m.children m.current e) refl

  pub next-Ends :
      (fuel : ℕ) (n : Node A) (ps : List (Node A))
      → IsNode n
      → All IsParent ps
      → cost_of sort n + cost_above sort ps < fuel
      → Ends
          (rest_of sort n ++ rest_above sort ps)
          (cost_of sort n + cost_above sort ps)
          (next sort fuel n ps)
  unfolding next
  next-Ends zero n ps v vs h = absurd (omega arith)
  next-Ends (suc fuel) n ps v vs h = elim (Bool-cases (is_leaf n)) [
    | inl leaf ↦ elim (Option-cases (get_elem? n.raw_collection n.current)) [
      | inl e ↦
          let (nothing, pos) = leaf_end n leaf e in
          rw (leaf, e) (climb fuel n ps (λ p qs. next-Ends fuel (bump p) qs) nothing pos vs h)
      | inr (x, e) ↦
          let (rest, w, lt) = bump_leaf n v leaf e in
          rw (leaf, e) (ap (λ l. l ++ rest_above sort ps) rest, w, vs, omega arith)
    ]
    | inr inner ↦
        let m = expand sort n in
        let x : Expands n m =
          expand_fields n.raw_collection n.sorters n.children n.current v inner in
        elim (Option-cases (get_elem? m.children m.current)) [
          | inl e ↦
              let nothing = no_child n m x e in
              rw (inner, e)
                (climb fuel n ps (λ p qs. next-Ends fuel (bump p) qs) nothing
                  (omega (arith, x.calls)) vs h)
          | inr (c, e) ↦
              let (rest, w, calls) = down n m ps c x e in
              rw (inner, e)
                (Ends-mono (next sort fuel (fresh c) (m ∷ ps)) rest (omega arith)
                  (next-Ends fuel (fresh c) (m ∷ ps) (fresh-IsNode c) (w, vs) (omega arith)))
        ]
  ]
