-- ===== src/Budgets/Selected.antt =====
-- internal/kubernetes/index/pdb.go: which budgets a pod is given.
use mathlib.Core.List.{Perm, Permᴰ}
use mathlib.Core.Logic.{∥∥₁_elim}
use draino.Prelude.{
  ◌≡◌, refl, String, Bool, false, ◌&&◌, ◌||◌, List, [], ◌∷◌, ◌++◌, Option, if◌then◌else◌, str_eq,
  Dict, lookup, insert, any, arith, eq_iff, lookup-insert, Bool-cases, inl, inr, ◌∙◌, sym, ap,
}
use draino.Scheduler.Sorting.{bool_prop}
use draino.Budgets.{
  LabelledPod, Budget, key_of, selects, or_empty, items_at, append_at, per_namespace, add_to_pods,
  add_budgets, budgets_in, add_namespaces, get_pdbs_for_pods,
}

pub any-append {ℓ} :
    {A : Type ℓ} (f : A → Bool) (xs ys : List A) → any f (xs ++ ys) ≡ any f xs || any f ys
unfolding any
any-append f [] ys = refl
any-append f (x ∷ xs) ys = ground (arith, any-append f xs ys)

any-Permᴰ {ℓ} : {A : Type ℓ} (f : A → Bool) {xs ys : List A} → Permᴰ xs ys → any f xs ≡ any f ys
unfolding any
any-Permᴰ f Permᴰ.nil = refl
any-Permᴰ f (Permᴰ.cons e p) = rw (e, any-Permᴰ f p) refl
any-Permᴰ f (Permᴰ.swap e d) = rw (e, d) (ground arith)
any-Permᴰ f (Permᴰ.trans p q) = any-Permᴰ f p ∙ any-Permᴰ f q

pub any-Perm {ℓ} : {A : Type ℓ} (f : A → Bool) {xs ys : List A} → Perm xs ys → any f xs ≡ any f ys
any-Perm f p = ∥∥₁_elim p (bool_prop _ _) (any-Permᴰ f)

any-or :
    {A : Type 0} (f g : A → Bool) (xs : List A) → any (λ x. f x || g x) xs ≡ any f xs || any g xs
unfolding any
any-or f g [] = refl
any-or f g (x ∷ xs) = ground (arith, any-or f g xs)

any-false : {A : Type 0} (xs : List A) → any (λ x. false) xs ≡ false
unfolding any
any-false [] = refl
any-false (x ∷ xs) = any-false xs

pub any-and :
    {A : Type 0} (f : A → Bool) (b : Bool) (xs : List A) → any (λ x. b && f x) xs ≡ b && any f xs
unfolding any
any-and f b [] = ground arith
any-and f b (x ∷ xs) = ground (arith, any-and f b xs)

-- The two ranges over budgets and over pods may change places.
any-swap :
    {A B : Type 0} (r : A → B → Bool) (xs : List A) (ys : List B)
    → any (λ x. any (r x) ys) xs ≡ any (λ y. any (λ x. r x y) xs) ys
unfolding any
any-swap r [] ys = sym (any-false ys)
any-swap r (x ∷ xs) ys =
    ap (λ b. any (r x) ys || b) (any-swap r xs ys)
    ∙ sym (any-or (r x) (λ y. any (λ z. r z y) xs) ys)

any-append_at :
    {T : Type 0} (q : T → Bool) (key other : String) (item : T) (m : Dict (List T))
    → any q (items_at other (append_at key item m))
      ≡ any q (items_at other m) || (str_eq key other && q item)
unfolding append_at items_at or_empty any
any-append_at q key other item m = elim (Bool-cases (str_eq key other)) [
  | inl e ↦
      let same : key ≡ other = (eq_iff key other).0 e in
      rw (lookup-insert key other (items_at key m ++ item ∷ []) m, e, same)
        (any-append q (items_at other m) (item ∷ []) ∙ ground arith)
  | inr e ↦ rw (lookup-insert key other (items_at key m ++ item ∷ []) m, e) (ground arith)
]

module _ (q : Budget → Bool) (key : String) where
  abbrev at : Dict (List Budget) → Bool
  at m = any q (items_at key m)

  -- The budget is given to the pod under the key.
  abbrev keyed : Budget → LabelledPod → Bool
  keyed b p = selects b p && (str_eq (key_of p) key && q b)

  any-add_to_pods :
      (b : Budget) (ps : List LabelledPod) (m : Dict (List Budget))
      → at (add_to_pods b ps m) ≡ at m || any (keyed b) ps
  unfolding add_to_pods any
  any-add_to_pods b [] m = ground arith
  any-add_to_pods b (p ∷ ps) m = elim (Bool-cases (selects b p)) [
    | inl e ↦ rw e (
        any-add_to_pods b ps (append_at (key_of p) b m)
        ∙ ap (λ c. c || any (keyed b) ps) (any-append_at q (key_of p) key b m)
        ∙ ground arith)
    | inr e ↦ rw e (any-add_to_pods b ps m)
  ]

  any-add_budgets :
      (bs : List Budget) (ps : List LabelledPod) (m : Dict (List Budget))
      → at (add_budgets bs ps m) ≡ at m || any (λ b. any (keyed b) ps) bs
  unfolding add_budgets any
  any-add_budgets [] ps m = ground arith
  any-add_budgets (b ∷ bs) ps m =
      any-add_budgets bs ps (add_to_pods b ps m)
      ∙ ap (λ c. c || any (λ d. any (keyed d) ps) bs) (any-add_to_pods b ps m)
      ∙ ground arith

  module _ (list : String → Option (List Budget)) where
    abbrev given : String → LabelledPod → Bool
    given namespace p = any (λ b. keyed b p) (budgets_in list namespace)

    any-add_namespaces :
        (entries : List (String × List LabelledPod)) (m : Dict (List Budget))
        → at (add_namespaces list entries m) ≡ at m || any (λ e. any (given e.0) e.1) entries
    unfolding add_namespaces any
    any-add_namespaces [] m = ground arith
    any-add_namespaces ((namespace, ps) ∷ rest) m =
        any-add_namespaces rest (add_budgets (budgets_in list namespace) ps m)
        ∙ ap (λ c. c || any (λ e. any (given e.0) e.1) rest)
            (any-add_budgets (budgets_in list namespace) ps m
              ∙ ap (λ c. at m || c) (any-swap keyed (budgets_in list namespace) ps))
        ∙ ground arith

append_at-cons :
    {T : Type 0} (key own : String) (item : T) (items : List T) (m : Dict (List T))
    → append_at key item ((own, items) ∷ m) ≡ (
        if str_eq own key
        then (key, items ++ item ∷ []) ∷ m
        else (own, items) ∷ append_at key item m)
unfolding append_at items_at or_empty insert lookup
append_at-cons key own item items m = ground arith

-- Grouping by namespace neither loses a pod nor moves it.
any-append_pod :
    (f : String → LabelledPod → Bool) (key : String) (p : LabelledPod)
    → (m : Dict (List LabelledPod))
    → any (λ e. any (f e.0) e.1) (append_at key p m) ≡ any (λ e. any (f e.0) e.1) m || f key p
unfolding any
any-append_pod f key p [] = unfold append_at items_at or_empty insert lookup in ground arith
any-append_pod f key p ((own, ps) ∷ m) =
    rw (append_at-cons key own p ps m) (elim (Bool-cases (str_eq own key)) [
      | inl e ↦ rw e (
          rw ((eq_iff own key).0 e) (
            ap (λ c. c || any (λ d. any (f d.0) d.1) m) (any-append (f key) ps (p ∷ []))
            ∙ ground arith))
      | inr e ↦ rw e (ap (λ c. any (f own) ps || c) (any-append_pod f key p m) ∙ ground arith)
    ])

any-per_namespace :
    (f : String → LabelledPod → Bool) (m : Dict (List LabelledPod)) (pods : List LabelledPod)
    → any (λ e. any (f e.0) e.1) (per_namespace m pods)
      ≡ any (λ e. any (f e.0) e.1) m || any (λ p. f p.namespace p) pods
unfolding per_namespace any
any-per_namespace f m [] = ground arith
any-per_namespace f m (p ∷ pods) =
    any-per_namespace f (append_at p.namespace p m) pods
    ∙ ap (λ c. c || any (λ o. f o.namespace o) pods) (any-append_pod f p.namespace p m)
    ∙ ground arith

-- Under a key stand exactly the budgets that select a pod with the key in the pod's own namespace,
-- where the budgets of the namespace can be listed: whatever property a budget is asked for, one of
-- those under the key has it if and only if one that a pod so brings has it. In whatever order the
-- namespaces are visited.
pub get_pdbs_for_pods-exact :
    (list : String → Option (List Budget))
    → (order : List (String × List LabelledPod) → List (String × List LabelledPod))
    → ((m : List (String × List LabelledPod)) → Perm (order m) m)
    → (pods : List LabelledPod) (key : String) (q : Budget → Bool)
    → any q (items_at key (get_pdbs_for_pods list order pods))
      ≡ any
          (λ p.
            any (λ b. selects b p && (str_eq (key_of p) key && q b)) (budgets_in list p.namespace))
          pods
unfolding get_pdbs_for_pods items_at or_empty lookup any
get_pdbs_for_pods-exact list order perm pods key q =
    any-add_namespaces q key list (order (per_namespace [] pods)) []
    ∙ any-Perm (λ e. any (given q key list e.0) e.1) (perm (per_namespace [] pods))
    ∙ any-per_namespace (given q key list) [] pods
