-- ===== src/ScopeObserver/Entries.antt =====
-- internal/observability/observability.go: the names that a configuration writes into the label that
-- it shares with the others.
use mathlib.Core.List.{Perm}
use mathlib.Core.List.Perm as Perm
use draino.Prelude.{
  ◌≡◌, refl, sym, ap, ◌∙◌, subst, String, Bool, true, false, not, ◌&&◌, List, [], ◌∷◌, ◌++◌,
  if◌then◌else◌, str_eq, keep_if, any, arith, Bool-cases, inl, inr, eq_iff, append-nil, lookup_text,
  eq_refl,
}
use draino.Prelude.Texts.{occurs, split, join}
use draino.K8s.{Node}
use draino.Budgets.Selected.{any-append, any-Perm}
use draino.ScopeObserver.{
  Observer, configuration_label_key, out_of_scope_label_value, is_other, or_out_of_scope, configs,
  value_desired, is_in_scope, LabelUpdate, update_error, update, scope, get_label_update,
}
use draino.ScopeObserver.Names.{has_dot, has_dot-split, split-join, is_inhabited, keep_if-Perm}

-- What is asked of the name of a configuration: it is one part of a label, and no special value.
pub record IsName (name : String) : Type 0 where
  pub not_empty : str_eq name "" ≡ false
  pub no_dot : occurs b'.' name ≡ 0
  pub not_special : str_eq name out_of_scope_label_value ≡ false

-- What is relied on of sort.Strings: it rearranges, and the result is the same for any order.
pub record SortsTexts (sort : List String → List String) : Type 0 where
  pub sort-perm : (xs : List String) → Perm (sort xs) xs
  pub sort-same : (xs ys : List String) → Perm xs ys → sort xs ≡ sort ys

pub keep_if-append :
    (p : String → Bool) (xs ys : List String) → keep_if p (xs ++ ys) ≡ keep_if p xs ++ keep_if p ys
unfolding keep_if
keep_if-append p [] ys = refl
keep_if-append p (x ∷ xs) ys = ground (arith, keep_if-append p xs ys)

pub keep_if_twice : (p : String → Bool) (xs : List String) → keep_if p (keep_if p xs) ≡ keep_if p xs
unfolding keep_if
keep_if_twice p [] = refl
keep_if_twice p (x ∷ xs) = elim (Bool-cases (p x)) [
  | inl e ↦ rw (e, e, keep_if_twice p xs) refl
  | inr e ↦ rw (e, keep_if_twice p xs) refl
]

any-keep_if-false :
    (q p : String → Bool) (xs : List String) → any q xs ≡ false → any q (keep_if p xs) ≡ false
unfolding any keep_if
any-keep_if-false q p [] h = h
any-keep_if-false q p (x ∷ xs) h = ground (arith, h, any-keep_if-false q p xs)

abbrev pub own : Observer → Bool → List String
own o in_scope = if in_scope then o.config_name ∷ [] else []

abbrev pub others : Observer → String → List String
others o value = keep_if (is_other o.config_name) (split b'.' value)

or_out_of_scope-if :
    (xs : List String)
    → or_out_of_scope xs ≡ (if is_inhabited xs then xs else out_of_scope_label_value ∷ [])
unfolding any
or_out_of_scope-if [] = refl
or_out_of_scope-if (x ∷ xs) = refl

pub or_out_of_scope-Perm :
    (xs ys : List String) → Perm xs ys → Perm (or_out_of_scope xs) (or_out_of_scope ys)
or_out_of_scope-Perm xs ys d =
    rw (or_out_of_scope-if xs, or_out_of_scope-if ys, any-Perm (λ x. true) d)
      (elim (Bool-cases (is_inhabited ys)) [ inl e ↦ rw e d | inr e ↦ rw e (Perm.refl _) ])

has_dot-or_out_of_scope :
    (xs : List String) → any has_dot xs ≡ false → any has_dot (or_out_of_scope xs) ≡ false
unfolding any occurs
has_dot-or_out_of_scope [] h = refl
has_dot-or_out_of_scope (x ∷ xs) h = h

inhabited-or_out_of_scope : (xs : List String) → is_inhabited (or_out_of_scope xs) ≡ true
unfolding any
inhabited-or_out_of_scope [] = refl
inhabited-or_out_of_scope (x ∷ xs) = refl

has_dot-configs :
    (o : Observer) (value : String) (in_scope : Bool)
    → IsName o.config_name
    → any has_dot (configs o value in_scope) ≡ false
unfolding configs any
has_dot-configs o value in_scope name = has_dot-or_out_of_scope _ (
    any-append has_dot (others o value) (own o in_scope)
    ∙ ground (
      arith,
      any-keep_if-false has_dot (is_other o.config_name) _ (has_dot-split value),
      name.no_dot,
    ))

abbrev pub desired_of : LabelUpdate → String
desired_of (update_error e) = ""
desired_of (update desired out_of_date) = desired

module _ (o : Observer) (name : IsName o.config_name) (sorts : SortsTexts o.sort) where
  pub split-value_desired :
      (value : String) (in_scope : Bool)
      → split b'.' (value_desired o value in_scope) ≡ o.sort (configs o value in_scope)
  unfolding value_desired configs
  split-value_desired value in_scope =
      let same = sorts.sort-perm (configs o value in_scope) in
      split-join (o.sort (configs o value in_scope))
        (any-Perm (λ x. true) same ∙ inhabited-or_out_of_scope _)
        (any-Perm has_dot same ∙ has_dot-configs o value in_scope name)

  pub others-own : (in_scope : Bool) → keep_if (is_other o.config_name) (own o in_scope) ≡ []
  unfolding keep_if is_other
  others-own true = ground (arith, eq_refl o.config_name)
  others-own false = refl

  pub others-or_out_of_scope :
      (xs : List String)
      → keep_if (is_other o.config_name) (or_out_of_scope xs) ≡ keep_if (is_other o.config_name) xs
  unfolding keep_if is_other
  others-or_out_of_scope [] = refl
  others-or_out_of_scope (x ∷ xs) = refl

  others-configs :
      (value : String) (in_scope : Bool)
      → keep_if (is_other o.config_name) (configs o value in_scope) ≡ others o value
  unfolding configs
  others-configs value in_scope =
      others-or_out_of_scope _
      ∙ keep_if-append (is_other o.config_name) (others o value) (own o in_scope)
      ∙ ap (λ l. keep_if (is_other o.config_name) (others o value) ++ l) (others-own in_scope)
      ∙ append-nil _
      ∙ keep_if_twice (is_other o.config_name) (split b'.' value)

  others-value_desired :
      (value : String) (in_scope : Bool)
      → Perm (others o (value_desired o value in_scope)) (others o value)
  others-value_desired value in_scope =
      let other = is_other o.config_name in
      let sorted = sorts.sort-perm (configs o value in_scope) in
      subst (Perm (others o (value_desired o value in_scope))) (others-configs value in_scope) (
        subst (λ l. Perm (keep_if other l) (keep_if other (configs o value in_scope)))
          (sym (split-value_desired value in_scope)) (keep_if-Perm other sorted))

  configs-value_desired :
      (value : String) (in_scope : Bool)
      → Perm (configs o (value_desired o value in_scope) in_scope) (configs o value in_scope)
  unfolding configs
  configs-value_desired value in_scope =
      or_out_of_scope-Perm _ _
        (Perm.append_right (own o in_scope) (others-value_desired value in_scope))

  pub value_desired_twice :
      (value : String) (in_scope : Bool)
      → value_desired o (value_desired o value in_scope) in_scope ≡ value_desired o value in_scope
  unfolding value_desired
  value_desired_twice value in_scope =
      ap (join ".") (sorts.sort-same _ _ (configs-value_desired value in_scope))

  any-others :
      (c : String) (xs : List String)
      → str_eq c "" ≡ false
      → str_eq c out_of_scope_label_value ≡ false
      → any (str_eq c) (keep_if (is_other o.config_name) xs)
        ≡ (not (str_eq c o.config_name) && any (str_eq c) xs)
  unfolding any keep_if is_other
  any-others c [] e s = ground arith
  any-others c (x ∷ xs) e s = elim (Bool-cases (str_eq c x)) [
    | inl h ↦
        let same : c ≡ x = (eq_iff c x).0 h in
        rw (sym same) (ground (arith, e, s, eq_refl c, any-others c xs e s))
    | inr h ↦ ground (arith, h, any-others c xs e s)
  ]

  any-own :
      (c : String) (in_scope : Bool)
      → any (str_eq c) (own o in_scope) ≡ (in_scope && str_eq c o.config_name)
  unfolding any
  any-own c true = ground arith
  any-own c false = refl

  any-or_out_of_scope :
      (c : String) (xs : List String)
      → str_eq c out_of_scope_label_value ≡ false
      → any (str_eq c) (or_out_of_scope xs) ≡ any (str_eq c) xs
  unfolding any
  any-or_out_of_scope c [] s = ground (arith, s)
  any-or_out_of_scope c (x ∷ xs) s = refl

  pub any-configs :
      (value : String) (in_scope : Bool) (c : String)
      → str_eq c "" ≡ false
      → str_eq c out_of_scope_label_value ≡ false
      → any (str_eq c) (configs o value in_scope)
        ≡ (if str_eq c o.config_name then in_scope else any (str_eq c) (split b'.' value))
  unfolding configs
  any-configs value in_scope c e s =
      any-or_out_of_scope c _ s
      ∙ any-append (str_eq c) (others o value) (own o in_scope)
      ∙ ground (arith, any-others c (split b'.' value) e s, any-own c in_scope)

  -- What getLabelUpdate returns where the scope of the node is known.
  pub label_update-value :
      (n : Node) (in_scope : Bool) (reason : String)
      → is_in_scope o n ≡ scope in_scope reason
      → let original = lookup_text configuration_label_key n.labels in
        get_label_update o n
        ≡ update
            (value_desired o original in_scope)
            (not (str_eq (value_desired o original in_scope) original))
  unfolding get_label_update
  label_update-value n in_scope reason h = rw (get_label_update, h) refl
