-- ===== src/Scheduler/Priority.antt =====
-- The order of the sorting tree rearranges the items, by the first sorter that tells two apart.
use mathlib.Core.List.Perm
use mathlib.Core.List.Pairwise
use mathlib.Core.List.{
  flat_map, flatten, Mem, Perm, Pairwise, Pairwise-append, Pairwise-cons, Pairwise-singleton,
  Pairwise-of_forall, mem-cons_self, mem-cons_of_mem,
}
use draino.Prelude.{
  ◌≡◌, refl, List, [], ◌∷◌, true, false, length, arith, All, Bool-cases, inl, inr, ◌==◌,
}
use draino.Scheduler.{LessFunc, Sort, fill_sorted, bucket_slice}
use draino.Scheduler.Order.{order}
use draino.Scheduler.Sorting.{
  IsStrictWeak, Sorts, lex_less, irrefl, bool_prop, All-prop, All-mem, flatten-fill,
  fill-IsBucketed, IsBucketed, Ascends,
}

module _ {A : Type 0} where
  flat_map-perm :
      (f : List A → List A)
      → ((b : List A) → Perm (f b) b)
      → (bs : List (List A)) → Perm (flat_map f bs) (flatten bs)
  unfolding flat_map flatten
  flat_map-perm f h [] = Perm.refl []
  flat_map-perm f h (b ∷ bs) = Perm.append (h b) (flat_map-perm f h bs)

  flatten-fill_sorted : (less : LessFunc A) (ys : List A) → flatten (fill_sorted less ys) ≡ ys
  unfolding fill_sorted flatten
  flatten-fill_sorted less [] = refl
  flatten-fill_sorted less (y ∷ ys) = flatten-fill less y (y ∷ []) ys

  Ascends-of_Pairwise :
      (less : LessFunc A) (x : A) (xs : List A)
      → Pairwise (λ a b. less b a ≡ false) (x ∷ xs)
      → Ascends less x xs
  Ascends-of_Pairwise less x [] h = tt
  Ascends-of_Pairwise less x (y ∷ ys) h =
      let (first, rest) = Pairwise-cons.0 h in
      (first y mem-cons_self, above ys (Pairwise-cons.0 rest).0, Ascends-of_Pairwise less y ys rest)
    where
      above :
          (zs : List A) → ((a : A) → Mem a zs → less a y ≡ false) → All (λ z. less z y ≡ false) zs
      above [] k = tt
      above (z ∷ zs) k = (k z mem-cons_self, above zs (λ a m. k a (mem-cons_of_mem z m)))

  fill_sorted-IsBucketed :
      (less : LessFunc A) (ys : List A)
      → IsStrictWeak less
      → Pairwise (λ a b. less b a ≡ false) ys
      → IsBucketed less (fill_sorted less ys)
  unfolding fill_sorted
  fill_sorted-IsBucketed less [] w h = tt
  fill_sorted-IsBucketed less (y ∷ ys) w h =
      let same = irrefl less w y in
      fill-IsBucketed less w y (y ∷ []) ys ((same, same), tt) (Ascends-of_Pairwise less y ys h)

  -- One level: the buckets in their order, each one ordered by the sorters that are left.
  level-IsSorted :
      (less : LessFunc A) (rest : List (LessFunc A)) (f : List A → List A)
      → IsStrictWeak less
      → ((b : List A) → Perm (f b) b)
      → ((b : List A) → Pairwise (λ a c. lex_less rest c a ≡ false) (f b))
      → (bs : List (List A)) → IsBucketed less bs
      → Pairwise (λ a c. lex_less (less ∷ rest) c a ≡ false) (flat_map f bs)
  unfolding flat_map flatten lex_less
  level-IsSorted less rest f w p sorted [] g = Pairwise.nil
  level-IsSorted less rest f w p sorted (b ∷ bs) (same, below, g) =
      (Pairwise-append (λ _ _. bool_prop _ _)).1
        (Pairwise.imp_of_mem inside (sorted b), level-IsSorted less rest f w p sorted bs g, across)
    where
      from_bucket : (a : A) → Mem a (f b) → Mem a b
      from_bucket a m = Perm.subset (p b) a m

      equal : (a c : A) → Mem a (f b) → Mem c (f b) → less a c ≡ false
      equal a c m k =
          All-mem (λ _. bool_prop _ _) b
            (All-mem (λ _. All-prop (λ _. bool_prop _ _) b) b same (from_bucket a m))
            (from_bucket c k)

      inside :
          (a c : A)
          → Mem a (f b)
          → Mem c (f b)
          → lex_less rest c a ≡ false
          → lex_less (less ∷ rest) c a ≡ false
      inside a c m k e = rw (equal c a k m, equal a c m k) e

      across :
          (a : A)
          → Mem a (f b)
          → (c : A) → Mem c (flat_map f bs)
          → lex_less (less ∷ rest) c a ≡ false
      across a m c k =
          let lt : less a c ≡ true =
            All-mem (λ _. bool_prop _ _) (flatten bs)
              (All-mem (λ _. All-prop (λ _. bool_prop _ _) (flatten bs)) b below (from_bucket a m))
              (Perm.subset (flat_map-perm f p bs) c k) in
          rw (lt, w.asym a c lt)

module _ {A : Type 0} (sort : Sort A) (s : Sorts sort) where
  bucket_slice-flatten :
      (less : LessFunc A) (xs : List A) → Perm (flatten (bucket_slice sort xs less)) xs
  unfolding bucket_slice flatten
  bucket_slice-flatten less [] = Perm.refl []
  bucket_slice-flatten less (x ∷ xs) =
      rw (flatten-fill_sorted less (sort less (x ∷ xs))) (s.sort-perm less (x ∷ xs))

  bucket_slice-IsBucketed :
      (less : LessFunc A) (xs : List A)
      → IsStrictWeak less
      → IsBucketed less (bucket_slice sort xs less)
  unfolding bucket_slice
  bucket_slice-IsBucketed less [] w = tt
  bucket_slice-IsBucketed less (x ∷ xs) w =
      fill_sorted-IsBucketed less (sort less (x ∷ xs)) w (s.sort-IsSorted less (x ∷ xs) w)

  -- The tree hands out the items that it was given, each as often as it was given.
  pub order-perm :
      (sorters : List (LessFunc A)) (items : List A) → Perm (order sort sorters items) items
  unfolding order
  order-perm [] items = Perm.refl items
  order-perm (less ∷ rest) items = elim (Bool-cases (length items == 1)) [
    | inl one ↦ rw one (Perm.refl items)
    | inr many ↦ rw many (
        Perm.trans
          (flat_map-perm (order sort rest) (order-perm rest) (bucket_slice sort items less))
          (bucket_slice-flatten less items))
  ]

  single-IsSorted :
      (R : A → A → Type 0) (items : List A) → (length items == 1) ≡ true → Pairwise R items
  single-IsSorted R [] e = Pairwise.nil
  single-IsSorted R (x ∷ []) e = Pairwise-singleton R x
  single-IsSorted R (x ∷ y ∷ items) e = absurd (ground arith)

  pub order-IsSorted :
      (sorters : List (LessFunc A)) (items : List A)
      → All IsStrictWeak sorters
      → Pairwise (λ a b. lex_less sorters b a ≡ false) (order sort sorters items)
  unfolding order
  order-IsSorted [] items ws = Pairwise-of_forall (λ a b. unfold lex_less in refl)
  order-IsSorted (less ∷ rest) items ws = elim (Bool-cases (length items == 1)) [
    | inl one ↦ rw one (single-IsSorted _ items one)
    | inr many ↦ rw many (
        level-IsSorted less rest (order sort rest) ws.0 (order-perm rest)
          (λ b. order-IsSorted rest b ws.1) (bucket_slice sort items less)
          (bucket_slice-IsBucketed less items ws.0))
  ]
