-- ===== src/ScopeObserver/Shared.antt =====
-- internal/observability/observability.go: two configurations that share the label of a node.
use mathlib.Core.List.{Perm}
use mathlib.Core.List.Perm as Perm
use draino.Prelude.{
  ◌≡◌, refl, sym, ap, ◌∙◌, subst, String, Bool, true, false, List, [], ◌∷◌, ◌++◌, str_eq, keep_if,
  arith, append_assoc, append-nil,
}
use draino.Prelude.Texts.{join}
use draino.ScopeObserver.{Observer, is_other, or_out_of_scope, configs, value_desired}
use draino.ScopeObserver.Names.{keep_if-Perm}
use draino.ScopeObserver.Entries.{
  IsName, SortsTexts, own, others, keep_if-append, keep_if_twice, or_out_of_scope-Perm,
  split-value_desired, others-own, others-or_out_of_scope,
}

keep_if_comm :
    (p q : String → Bool) (xs : List String) → keep_if p (keep_if q xs) ≡ keep_if q (keep_if p xs)
unfolding keep_if
keep_if_comm p q [] = refl
keep_if_comm p q (x ∷ xs) = ground (arith, keep_if_comm p q xs)

-- Another configuration's own name is kept.
others-own_of :
    (a b : Observer) (in_scope : Bool)
    → IsName b.config_name
    → str_eq b.config_name a.config_name ≡ false
    → keep_if (is_other a.config_name) (own b in_scope) ≡ own b in_scope
unfolding keep_if is_other
others-own_of a b true name differ = ground (arith, name.not_empty, name.not_special, differ)
others-own_of a b false name differ = refl

own-swap :
    (a b : Observer) (in_a in_b : Bool) → Perm (own b in_b ++ own a in_a) (own a in_a ++ own b in_b)
own-swap a b true true = Perm.swap _ _ _
own-swap a b true false = Perm.refl _
own-swap a b false true = Perm.refl _
own-swap a b false false = Perm.refl _

module _ (a b : Observer) (a_name : IsName a.config_name) (b_name : IsName b.config_name)
    (a_sorts : SortsTexts a.sort) (b_sorts : SortsTexts b.sort)
    (a_differs : str_eq a.config_name b.config_name ≡ false)
    (b_differs : str_eq b.config_name a.config_name ≡ false) where
  -- What of a list of names two configurations leave alone.
  abbrev rest : (value : String) → List String
  rest value = keep_if (is_other b.config_name) (others a value)

  -- The names that b sees after a has written.
  others-after :
      (value : String) (in_a : Bool)
      → Perm (others b (value_desired a value in_a)) (rest value ++ own a in_a)
  unfolding configs
  others-after value in_a =
      let b_other = is_other b.config_name in
      subst (λ l. Perm (keep_if b_other l) (rest value ++ own a in_a))
        (sym (split-value_desired a a_name a_sorts value in_a))
        (subst (Perm (keep_if b_other (a.sort (configs a value in_a))))
          (others-or_out_of_scope b b_name b_sorts _
            ∙ keep_if-append b_other (others a value) (own a in_a)
            ∙ ap (λ l. rest value ++ l) (others-own_of b a in_a a_name a_differs))
          (keep_if-Perm b_other (a_sorts.sort-perm (configs a value in_a))))

  -- What b writes then, and what a reads of it.
  configs-after :
      (value : String) (in_a in_b : Bool)
      → Perm
          (configs b (value_desired a value in_a) in_b)
          (or_out_of_scope ((rest value ++ own a in_a) ++ own b in_b))
  unfolding configs
  configs-after value in_a in_b =
      or_out_of_scope-Perm _ _ (Perm.append_right (own b in_b) (others-after value in_a))

  rest-own :
      (value : String) (in_a in_b : Bool)
      → keep_if (is_other a.config_name) ((rest value ++ own a in_a) ++ own b in_b)
        ≡ rest value ++ own b in_b
  rest-own value in_a in_b =
      let a_other = is_other a.config_name in
      let b_other = is_other b.config_name in
      keep_if-append a_other (rest value ++ own a in_a) (own b in_b)
      ∙ ap (λ l. l ++ keep_if a_other (own b in_b))
          (keep_if-append a_other (rest value) (own a in_a)
            ∙ ap (λ l. keep_if a_other (rest value) ++ l) (others-own a a_name a_sorts in_a)
            ∙ append-nil _
            ∙ keep_if_comm a_other b_other (others a value)
            ∙ ap (keep_if b_other) (keep_if_twice a_other _))
      ∙ ap (λ l. rest value ++ l) (others-own_of a b in_b b_name b_differs)

  others-after_both :
      (value : String) (in_a in_b : Bool)
      → Perm
          (others a (value_desired b (value_desired a value in_a) in_b))
          (rest value ++ own b in_b)
  others-after_both value in_a in_b =
      let a_other = is_other a.config_name in
      let written = configs b (value_desired a value in_a) in_b in
      subst (λ l. Perm (keep_if a_other l) (rest value ++ own b in_b))
        (sym (split-value_desired b b_name b_sorts (value_desired a value in_a) in_b))
        (subst (Perm (keep_if a_other (b.sort written)))
          (others-or_out_of_scope a a_name a_sorts _ ∙ rest-own value in_a in_b)
          (keep_if-Perm a_other
            (Perm.trans (b_sorts.sort-perm written) (configs-after value in_a in_b))))

  configs-after_both :
      (value : String) (in_a in_b : Bool)
      → Perm
          (configs a (value_desired b (value_desired a value in_a) in_b) in_a)
          (configs b (value_desired a value in_a) in_b)
  unfolding configs
  configs-after_both value in_a in_b =
      Perm.trans
        (or_out_of_scope-Perm _ _ (
          Perm.trans (Perm.append_right (own a in_a) (others-after_both value in_a in_b)) (
            rw (append_assoc (rest value) (own b in_b) (own a in_a))
              (Perm.append_left (rest value) (own-swap a b in_a in_b)))))
        (subst (λ l. Perm (or_out_of_scope l) (configs b (value_desired a value in_a) in_b))
          (append_assoc (rest value) (own a in_a) (own b in_b))
          (Perm.symm (configs-after value in_a in_b)))

  pub value_desired-after_both :
      (same_sort : (xs : List String) → a.sort xs ≡ b.sort xs)
      → (value : String) (in_a in_b : Bool)
      → value_desired a (value_desired b (value_desired a value in_a) in_b) in_a
        ≡ value_desired b (value_desired a value in_a) in_b
  unfolding value_desired
  value_desired-after_both same_sort value in_a in_b =
      ap (join ".") (a_sorts.sort-same _ _ (configs-after_both value in_a in_b) ∙ same_sort _)
