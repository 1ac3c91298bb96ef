-- ===== src/Scheduler/Tests.antt =====
-- Insertion sort in the place of `sort.Slice`, and the tree at small inputs.
use mathlib.Core.List.Perm
use mathlib.Core.List.{flat_map, Perm, Pairwise, Pairwise-cons, mem-cons, not-mem-nil}
use mathlib.Core.Logic.Or
use draino.Prelude.{
  ℕ, ◌≡◌, ◌/◌, refl, List, [], ◌∷◌, false, some, arith, All, Bool-cases, inl, inr, ltb,
  if◌then◌else◌,
}
use draino.Scheduler.{LessFunc, Sort, bucket_slice, fresh, is_leaf, expand, next, drain, initialize}
use draino.Scheduler.Order.{order, cost}
use draino.Scheduler.Sorting.{IsStrictWeak, Sorts, lex_less, bool_prop}
use draino.Scheduler.Delivery.{drain-IsSorted}

module _ {A : Type 0} where
  unfoldable pub put : LessFunc A → A → List A → List A
  put less x [] = x ∷ []
  put less x (y ∷ ys) = let rest = put less x ys in if less y x then y ∷ rest else x ∷ y ∷ ys

  unfoldable pub insertion_sort : Sort A
  unfolding put
  insertion_sort less [] = []
  insertion_sort less (x ∷ xs) = put less x (insertion_sort less xs)

  put-perm : (less : LessFunc A) (x : A) (ys : List A) → Perm (put less x ys) (x ∷ ys)
  unfolding put
  put-perm less x [] = Perm.refl _
  put-perm less x (y ∷ ys) = elim (Bool-cases (less y x)) [
    | inl h ↦ rw h (Perm.trans (Perm.cons y (put-perm less x ys)) (Perm.swap x y ys))
    | inr h ↦ rw h (Perm.refl _)
  ]

  sort-perm : (less : LessFunc A) (xs : List A) → Perm (insertion_sort less xs) xs
  unfolding insertion_sort
  sort-perm less [] = Perm.refl []
  sort-perm less (x ∷ xs) =
      Perm.trans (put-perm less x (insertion_sort less xs)) (Perm.cons x (sort-perm less xs))

  put-IsSorted :
      (less : LessFunc A) (x : A) (ys : List A)
      → IsStrictWeak less
      → Pairwise (λ a b. less b a ≡ false) ys
      → Pairwise (λ a b. less b a ≡ false) (put less x ys)
  unfolding put
  put-IsSorted less x [] w s = Pairwise-cons.1 ((λ a m. absurd (not-mem-nil m)), Pairwise.nil)
  put-IsSorted less x (y ∷ ys) w s = elim (Bool-cases (less y x)) [
    | inl h ↦ rw h (
        Pairwise-cons.1 (
          (λ a m.
              Or.elim (bool_prop _ _) (mem-cons.0 (Perm.subset (put-perm less x ys) a m))
                (λ e. rw e (w.asym y x h)) ((Pairwise-cons.0 s).0 a)),
          put-IsSorted less x ys w (Pairwise-cons.0 s).1,
        ))
    | inr h ↦ rw h (
        Pairwise-cons.1 (
          (λ a m.
              Or.elim (bool_prop _ _) (mem-cons.0 m) (λ e. rw e h)
                (λ k. w.neg_trans a y x ((Pairwise-cons.0 s).0 a k) h)),
          s,
        ))
  ]

  sort-IsSorted :
      (less : LessFunc A) (xs : List A)
      → IsStrictWeak less
      → Pairwise (λ a b. less b a ≡ false) (insertion_sort less xs)
  unfolding insertion_sort
  sort-IsSorted less [] w = Pairwise.nil
  sort-IsSorted less (x ∷ xs) w =
      put-IsSorted less x (insertion_sort less xs) w (sort-IsSorted less xs w)

  pub insertion_sort-Sorts : Sorts {A = A} insertion_sort
  insertion_sort-Sorts = record { sort-perm = sort-perm; sort-IsSorted = sort-IsSorted }

-- By tens, then by the number.
abbrev by_tens : LessFunc ℕ
by_tens a b = ltb (a / 10) (b / 10)

abbrev by_value : LessFunc ℕ
by_value a b = ltb a b

abbrev numbers : List ℕ
numbers = 25 ∷ 11 ∷ 23 ∷ 3 ∷ 12 ∷ []

abbrev both : List (LessFunc ℕ)
both = by_tens ∷ by_value ∷ []

both-IsStrictWeak : All IsStrictWeak both
both-IsStrictWeak = (
  record { asym = λ a b h. ground arith; neg_trans = λ a b c h k. ground arith },
  (record { asym = λ a b h. ground arith; neg_trans = λ a b c h k. ground arith }, tt),
)

program : Unit {0}
unfolding insertion_sort drain next is_leaf expand fresh initialize bucket_slice order cost flat_map
program = tt

drain-numbers :
    drain insertion_sort 100 6 (initialize numbers both) ≡ some (3 ∷ 11 ∷ 12 ∷ 23 ∷ 25 ∷ [])
unfolding program
drain-numbers = refl

drain-IsSorted_example :
    (xs : List ℕ) × (drain insertion_sort 100 6 (initialize numbers both) ≡ some xs)
    × Perm xs numbers
    × Pairwise (λ a b. lex_less both b a ≡ false) xs
unfolding program
drain-IsSorted_example =
    drain-IsSorted insertion_sort insertion_sort-Sorts numbers both 100 6 both-IsStrictWeak
      (omega arith) (omega arith)
