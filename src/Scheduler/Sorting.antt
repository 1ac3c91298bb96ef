-- ===== src/Scheduler/Sorting.antt =====
-- What the order of the sorting tree is: a rearrangement of the items, by the first sorter that
-- tells two items apart. `sort.Slice` is assumed to rearrange its slice and to sort it by any
-- `less` that is a strict weak order, as Go's documentation of package sort says.
use mathlib.Core.List.{flatten, Mem, Perm, Pairwise, mem-cons, not-mem-nil}
use mathlib.Core.HLevel.{×_prop}
use mathlib.Core.Logic.Or
use draino.Prelude.{
  ◌≡◌, refl, sym, ap, ◌∙◌, List, [], ◌∷◌, ◌++◌, Bool, true, false, ◌||◌, ◌&&◌, not, arith, All,
  All-append, Bool-cases, inl, inr, append_assoc,
}
use draino.Scheduler.{LessFunc, Sort, fill}

pub record IsStrictWeak {A : Type 0} (less : LessFunc A) : Type 0 where
  pub asym : (a b : A) → less a b ≡ true → less b a ≡ false
  pub neg_trans : (a b c : A) → less a b ≡ false → less b c ≡ false → less a c ≡ false

-- What is relied on of `sort.Slice`.
pub record Sorts {A : Type 0} (sort : Sort A) : Type 0 where
  pub sort-perm : (less : LessFunc A) (xs : List A) → Perm (sort less xs) xs
  pub sort-IsSorted :
      (less : LessFunc A) (xs : List A)
      → IsStrictWeak less
      → Pairwise (λ a b. less b a ≡ false) (sort less xs)

-- The first sorter that tells two items apart decides.
unfoldable pub lex_less : {A : Type 0} → List (LessFunc A) → A → A → Bool
lex_less [] a b = false
lex_less (less ∷ rest) a b = less a b || (not (less b a) && lex_less rest a b)

pub bool_prop : (a b : Bool) → IsProp (a ≡ b)
bool_prop a b = (let s : IsSet Bool = hlevel in s) a b

pub All-prop :
    {A : Type 0} {P : A → Type 0} → ((a : A) → IsProp (P a)) → (xs : List A) → IsProp (All P xs)
All-prop prop [] = λ x y. refl
All-prop prop (a ∷ xs) = ×_prop (prop a) (All-prop prop xs)

pub All-mem {ℓ} :
    {A : Type ℓ} {P : A → Type 0}
    → ((a : A) → IsProp (P a))
    → (xs : List A) → All P xs
    → {a : A} → Mem a xs
    → P a
All-mem prop [] h m = absurd (not-mem-nil m)
All-mem {P = P} prop (x ∷ xs) h {a} m =
    Or.elim (prop a) (mem-cons.0 m) (λ e. rw e h.0) (All-mem prop xs h.1)

module _ {A : Type 0} (less : LessFunc A) where
  fill-append :
      (prev : A) (cur : List A) (bs : List (List A)) (xs : List A)
      → fill less prev cur bs xs ≡ bs ++ fill less prev cur [] xs
  unfolding fill
  fill-append prev cur bs [] = refl
  fill-append prev cur bs (x ∷ xs) = elim (Bool-cases (not (less prev x) && not (less x prev))) [
    | inl same ↦ rw same (fill-append x (cur ++ x ∷ []) bs xs)
    | inr new ↦ rw new (
        fill-append x (x ∷ []) (bs ++ cur ∷ []) xs
        ∙ append_assoc bs (cur ∷ []) (fill less x (x ∷ []) [] xs)
        ∙ sym (ap (◌++◌ bs) (fill-append x (x ∷ []) (cur ∷ []) xs)))
  ]

  -- Nothing is lost between the buckets.
  pub flatten-fill : (prev : A) (cur xs : List A) → flatten (fill less prev cur [] xs) ≡ cur ++ xs
  unfolding fill flatten
  flatten-fill prev cur [] = refl
  flatten-fill prev cur (x ∷ xs) = elim (Bool-cases (not (less prev x) && not (less x prev))) [
    | inl same ↦ rw same (flatten-fill x (cur ++ x ∷ []) xs ∙ append_assoc cur (x ∷ []) xs)
    | inr new ↦ rw new (
        ap flatten (fill-append x (x ∷ []) (cur ∷ []) xs)
        ∙ ap (◌++◌ cur) (flatten-fill x (x ∷ []) xs))
  ]

  abbrev pub Below : List A → List A → Type 0
  Below xs ys = All (λ a. All (λ b. less a b ≡ true) ys) xs

  abbrev pub Same : List A → Type 0
  Same xs = All (λ a. All (λ b. less a b ≡ false) xs) xs

  -- Items of one bucket are equal, and those of an earlier bucket are less.
  abbrev pub IsBucketed : List (List A) → Type 0
  IsBucketed [] = Unit {0}
  IsBucketed (b ∷ bs) = Same b × Below b (flatten bs) × IsBucketed bs

  -- No item is less than one before it.
  abbrev pub Ascends : A → List A → Type 0
  Ascends prev [] = Unit {0}
  Ascends prev (x ∷ xs) = (less x prev ≡ false) × All (λ y. less y x ≡ false) xs × Ascends x xs

  Below-nil : (xs : List A) → Below xs []
  Below-nil [] = tt
  Below-nil (x ∷ xs) = (tt, Below-nil xs)

  module _ (w : IsStrictWeak less) where
    -- `c` is equal to `prev`.
    abbrev Alike : A → A → Type 0
    Alike prev c = (less prev c ≡ false) × (less c prev ≡ false)

    Same-Alike :
        (prev : A) (xs ys : List A)
        → All (Alike prev) xs
        → All (Alike prev) ys
        → All (λ a. All (λ b. less a b ≡ false) ys) xs
    Same-Alike prev [] ys h k = tt
    Same-Alike prev (x ∷ xs) ys h k = (inner ys k, Same-Alike prev xs ys h.1 k)
      where
        inner : (zs : List A) → All (Alike prev) zs → All (λ b. less x b ≡ false) zs
        inner [] k = tt
        inner (z ∷ zs) k = (w.neg_trans x prev z h.0.1 k.0.0, inner zs k.1)

    Alike-shift : (prev x : A) (xs : List A) → Alike prev x → All (Alike prev) xs → All (Alike x) xs
    Alike-shift prev x [] e h = tt
    Alike-shift prev x (c ∷ xs) e h = (
      (w.neg_trans x prev c e.1 h.0.0, w.neg_trans c prev x h.0.1 e.0),
      Alike-shift prev x xs e h.1,
    )

    strict_between :
        (prev c x y : A) → Alike prev c → less prev x ≡ true → less y x ≡ false → less c y ≡ true
    strict_between prev c x y e lt ge = elim (Bool-cases (less c y)) [
      | inl h ↦ h
      | inr h ↦ cc (w.neg_trans prev y x (w.neg_trans prev c y e.0 h) ge)
    ]

    Below-strict :
        (prev x : A) (cur ys : List A)
        → less prev x ≡ true
        → All (Alike prev) cur
        → All (λ y. less y x ≡ false) ys
        → Below cur ys
    Below-strict prev x [] ys lt h k = tt
    Below-strict prev x (c ∷ cur) ys lt h k = (inner ys k, Below-strict prev x cur ys lt h.1 k)
      where
        inner : (zs : List A) → All (λ y. less y x ≡ false) zs → All (λ b. less c b ≡ true) zs
        inner [] k = tt
        inner (z ∷ zs) k = (strict_between prev c x z h.0 lt k.0, inner zs k.1)

    pub irrefl : (x : A) → less x x ≡ false
    irrefl x = elim (Bool-cases (less x x)) [ inl h ↦ w.asym x x h | inr h ↦ h ]

    pub fill-IsBucketed :
        (prev : A) (cur xs : List A)
        → All (Alike prev) cur
        → Ascends prev xs
        → IsBucketed (fill less prev cur [] xs)
    unfolding fill flatten
    fill-IsBucketed prev cur [] h s = (Same-Alike prev cur cur h h, Below-nil cur, tt)
    fill-IsBucketed prev cur (x ∷ xs) h (ge, above, s) =
        elim (Bool-cases (not (less prev x) && not (less x prev))) [
          | inl same ↦
              let e : Alike prev x = (ground arith, ge) in
              rw same (
                fill-IsBucketed x (cur ++ x ∷ []) xs
                  (All-append (Alike x) cur (x ∷ []) (Alike-shift prev x cur e h)
                    ((irrefl x, irrefl x), tt))
                  s)
          | inr new ↦
              rw (new, fill-append x (x ∷ []) (cur ∷ []) xs)
                (
                  Same-Alike prev cur cur h h,
                  rw (flatten-fill x (x ∷ []) xs)
                      (Below-strict prev x cur (x ∷ xs) (ground arith) h (irrefl x, above)),
                  fill-IsBucketed x (x ∷ []) xs ((irrefl x, irrefl x), tt) s,
                )
        ]
