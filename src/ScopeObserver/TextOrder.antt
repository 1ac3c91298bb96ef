-- ===== src/ScopeObserver/TextOrder.antt =====
-- Texts in their order, sorted by insertion in the place of sort.Strings.
use Prim.Native.Char.{code}
use mathlib.Core.List.{Permᴰ}
use mathlib.Core.Logic.{∥∥₁_elim}
use text.Mathlib.TextEquality.{Char-path, IsScalar-prop}
use draino.Prelude.{
  ltb, ◌==◌, ◌≡◌, refl, sym, ap, ◌∙◌, String, Bool, true, false, ◌||◌, ◌&&◌, List, [], ◌∷◌,
  if◌then◌else◌, arith, Bool-cases, inl, inr,
}
use draino.Scheduler.Sorting.{IsStrictWeak}
use draino.Scheduler.Tests.{put, insertion_sort, insertion_sort-Sorts}
use draino.ScopeObserver.Entries.{SortsTexts}

abbrev pub text_less : String → String → Bool
text_less s String.[] = false
text_less String.[] (String.◌∷◌ d t) = true
text_less (String.◌∷◌ c s) (String.◌∷◌ d t) =
    ltb (code c) (code d) || ((code c == code d) && text_less s t)

text_less-asym : (s t : String) → text_less s t ≡ true → text_less t s ≡ false
text_less-asym String.[] String.[] h = refl
text_less-asym String.[] (String.◌∷◌ d t) h = refl
text_less-asym (String.◌∷◌ c s) String.[] h = ground (arith, h)
text_less-asym (String.◌∷◌ c s) (String.◌∷◌ d t) h = ground (arith, h, text_less-asym s t)

text_less-neg_trans :
    (r s t : String) → text_less r s ≡ false → text_less s t ≡ false → text_less r t ≡ false
text_less-neg_trans r s String.[] h k = refl
text_less-neg_trans String.[] String.[] (String.◌∷◌ d t) h k = k
text_less-neg_trans String.[] (String.◌∷◌ c s) (String.◌∷◌ d t) h k = ground (arith, h)
text_less-neg_trans (String.◌∷◌ b r) String.[] (String.◌∷◌ d t) h k = ground (arith, k)
text_less-neg_trans (String.◌∷◌ b r) (String.◌∷◌ c s) (String.◌∷◌ d t) h k =
    ground (arith, h, k, text_less-neg_trans r s t)

text_less-IsStrictWeak : IsStrictWeak text_less
text_less-IsStrictWeak = record { asym = text_less-asym; neg_trans = text_less-neg_trans }

text_less-connected : (s t : String) → text_less s t ≡ false → text_less t s ≡ false → s ≡ t
text_less-connected String.[] String.[] h k = refl
text_less-connected String.[] (String.◌∷◌ d t) h k = ground (arith, h)
text_less-connected (String.◌∷◌ c s) String.[] h k = ground (arith, k)
text_less-connected (String.◌∷◌ c s) (String.◌∷◌ d t) h k =
    let same : c ≡ d = Char-path c d (ground (arith, h, k)) in
    let rest : s ≡ t = text_less-connected s t (ground (arith, h, k)) (ground (arith, h, k)) in
    λ i. String.◌∷◌ (same i) (rest i)

put_two :
    (x y : String) (l : List String)
    → (if text_less y x then y ∷ x ∷ l else x ∷ y ∷ l)
      ≡ (if text_less x y then x ∷ y ∷ l else y ∷ x ∷ l)
put_two x y l = elim (Bool-cases (text_less y x)) [
  | inl e ↦ rw (e, text_less-asym y x e) refl
  | inr e ↦ elim (Bool-cases (text_less x y)) [
    | inl k ↦ rw (e, k) refl
    | inr k ↦
        rw (e, k)
          (ap (λ z. z ∷ y ∷ l) (text_less-connected x y k e)
            ∙ ap (λ z. y ∷ z ∷ l) (sym (text_less-connected x y k e)))
  ]
]

less_through :
    (x y z : String) → text_less z x ≡ false → text_less z y ≡ true → text_less x y ≡ true
less_through x y z h k = elim (Bool-cases (text_less x y)) [
  | inl e ↦ e
  | inr e ↦ absurd (ground (arith, k, text_less-neg_trans z x y h e))
]

put_behind :
    (x z : String) (l : List String)
    → text_less z x ≡ true
    → put text_less x (z ∷ l) ≡ z ∷ put text_less x l
unfolding put
put_behind x z l h = rw h refl

put_before :
    (x z : String) (l : List String) → text_less z x ≡ false → put text_less x (z ∷ l) ≡ x ∷ z ∷ l
unfolding put
put_before x z l h = rw h refl

-- x is not behind z, and y is.
put_around :
    (x y z : String) (l : List String)
    → text_less z x ≡ false
    → text_less z y ≡ true
    → put text_less x (put text_less y (z ∷ l)) ≡ put text_less y (put text_less x (z ∷ l))
put_around x y z l h k =
    ap (put text_less x) (put_behind y z l k)
    ∙ put_before x z (put text_less y l) h
    ∙ ap (λ r. x ∷ r) (sym (put_behind y z l k))
    ∙ sym (put_behind y x (z ∷ l) (less_through x y z h k))
    ∙ ap (put text_less y) (sym (put_before x z l h))

put_both :
    (x y z : String) (l : List String)
    → text_less z x ≡ false
    → text_less z y ≡ false
    → put text_less x (y ∷ z ∷ l) ≡ put text_less y (x ∷ z ∷ l)
unfolding put
put_both x y z l h k = rw (h, k) (put_two x y (z ∷ l))

put_comm :
    (x y : String) (l : List String)
    → put text_less x (put text_less y l) ≡ put text_less y (put text_less x l)
unfolding put
put_comm x y [] = put_two x y []
put_comm x y (z ∷ l) = elim (Bool-cases (text_less z x)) [
  | inl h ↦ elim (Bool-cases (text_less z y)) [
    | inl k ↦
        ap (put text_less x) (put_behind y z l k)
        ∙ put_behind x z (put text_less y l) h
        ∙ ap (λ r. z ∷ r) (put_comm x y l)
        ∙ sym (put_behind y z (put text_less x l) k)
        ∙ ap (put text_less y) (sym (put_behind x z l h))
    | inr k ↦ sym (put_around y x z l k h)
  ]
  | inr h ↦ elim (Bool-cases (text_less z y)) [
    | inl k ↦ put_around x y z l h k
    | inr k ↦
        ap (put text_less x) (put_before y z l k)
        ∙ put_both x y z l h k
        ∙ ap (put text_less y) (sym (put_before x z l h))
  ]
]

same-Permᴰ :
    (xs ys : List String) → Permᴰ xs ys → insertion_sort text_less xs ≡ insertion_sort text_less ys
unfolding insertion_sort
same-Permᴰ xs ys Permᴰ.nil = refl
same-Permᴰ xs ys (Permᴰ.cons {b} {l₁} {l₂} e d) = rw e (ap (put text_less b) (same-Permᴰ l₁ l₂ d))
same-Permᴰ xs ys (Permᴰ.swap {a} {b} {l} e d) =
    rw (sym e, sym d) (put_comm a b (insertion_sort text_less l))
same-Permᴰ xs ys (Permᴰ.trans {l₂} d e) = same-Permᴰ xs l₂ d ∙ same-Permᴰ l₂ ys e

texts_prop : (xs ys : List String) → IsProp (xs ≡ ys)
texts_prop xs ys = hlevel (IsScalar-prop)

abbrev pub sort_texts : List String → List String
sort_texts = insertion_sort text_less

pub sort_texts-SortsTexts : SortsTexts sort_texts
sort_texts-SortsTexts = record {
  sort-perm = insertion_sort-Sorts.sort-perm text_less;
  sort-same = λ xs ys d. ∥∥₁_elim d (texts_prop _ _) (same-Permᴰ xs ys);
}
