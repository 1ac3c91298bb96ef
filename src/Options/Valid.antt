-- ===== src/Options/Valid.antt =====
-- cmd/draino/options.go: what is known of options that Validate accepts.
use mathlib.Core.List.{Mem, mem-cons, not-mem-nil}
use mathlib.Core.Logic.Or
use mathlib.Core.HLevel.{×_prop}
use draino.Scheduler.Sorting.{bool_prop}
use Prim.Native.Char.{Char}
use Prim.Native.String.{◌++◌ as append}
use text.Mathlib.TextLemmas.{cons-append, append-ne-nil_of_right_ne-nil}
use draino.Prelude.{
  ◌≡◌, ◌≢◌, refl, String, Bool, true, false, List, [], ◌∷◌, Option, none, some, str_eq, ℤ, pos,
  ltb_ℤ, Dict, lookup, insert, lookup-insert, arith, Option-cases, inl, inr, ◌∙◌, eq_iff,
  ℕ_discrete, ap,
}
use draino.K8s.{second}
use draino.Conditions.{ParseLib, parse_conditions}
use draino.Options.{
  valid, trim_percent, with_percent, parse_max_in_parameter, parse_maxima, Options, Settings,
  is_empty, validate,
}

trim-cons :
    (c : Char) (s : String)
    → s ≢ ""
    → trim_percent (String.◌∷◌ c s) ≡ (String.◌∷◌ c (trim_percent s).0, (trim_percent s).1)
unfolding trim_percent
trim-cons c String.[] h = absurd (h refl)
trim-cons c (String.◌∷◌ d s) h = refl

percent : String
percent = "%"

end_nonempty : (s : String) → append s "%" ≢ ""
unfolding percent
end_nonempty s = append-ne-nil_of_right_ne-nil s {t = percent} (λ e. str_differs (ap is_nil e))
  where
    is_nil : String → Bool
    is_nil String.[] = true
    is_nil (String.◌∷◌ c t) = false

    str_differs : false ≡ true → ⊥
    str_differs e = cc

trim_percent-append : (p : String) → trim_percent (append p "%") ≡ (p, true)
unfolding trim_percent
trim_percent-append String.[] = refl
trim_percent-append (String.◌∷◌ c s) =
    rw cons-append (trim-cons c (append s "%") (end_nonempty s) ∙ rw (trim_percent-append s) refl)

-- With a percent sign at its end a text stands for the same number as without, as a percentage.
parse_max-percent :
    (atoi : String → Option ℤ) (p : String) (max : ℤ)
    → atoi p ≡ some max
    → parse_max_in_parameter atoi (append p "%") ≡ some (max, true)
unfolding parse_max_in_parameter with_percent
parse_max-percent atoi p max h = rw (trim_percent-append p, h) refl

-- An entry is a function of its key, so that a later one does not change an earlier.
parse_maxima-keeps :
    (atoi : String → Option ℤ) (ps : List String) (m done : Dict (ℤ × Bool)) (p : String)
    → parse_maxima atoi ps m ≡ some done
    → lookup p m ≡ parse_max_in_parameter atoi p
    → lookup p done ≡ parse_max_in_parameter atoi p
unfolding parse_maxima
parse_maxima-keeps atoi [] m done p h k = ground (arith, h, k)
parse_maxima-keeps atoi (q ∷ qs) m done p h k =
    elim (Option-cases (parse_max_in_parameter atoi q)) [
      | inl e ↦ absurd (ground (arith, h, e))
      | inr (max, e) ↦
          parse_maxima-keeps atoi qs (insert q max m) done p (ground (arith, h, e))
            (lookup-insert q p max m ∙ ground (arith, e, k, eq_iff q p))
    ]

abbrev pub is_some : Option (ℤ × Bool) → Bool
is_some none = false
is_some (some max) = true

maximum_prop : (x y : Option (ℤ × Bool)) → IsProp (x ≡ y)
maximum_prop x y = hlevel (ℕ_discrete)

parse_maxima-lookup :
    (atoi : String → Option ℤ) (ps : List String) (m done : Dict (ℤ × Bool)) (p : String)
    → parse_maxima atoi ps m ≡ some done
    → Mem p ps
    → (lookup p done ≡ parse_max_in_parameter atoi p)
      × (is_some (parse_max_in_parameter atoi p) ≡ true)
unfolding parse_maxima
parse_maxima-lookup atoi [] m done p h mem = absurd (not-mem-nil mem)
parse_maxima-lookup atoi (q ∷ qs) m done p h mem =
    elim (Option-cases (parse_max_in_parameter atoi q)) [
      | inl e ↦ absurd (ground (arith, h, e))
      | inr (max, e) ↦
          let rest : parse_maxima atoi qs (insert q max m) ≡ some done = ground (arith, h, e) in
          Or.elim (×_prop (maximum_prop _ _) (bool_prop _ _)) (mem-cons.0 mem)
            (λ same. (
              parse_maxima-keeps atoi qs (insert q max m) done p rest
                  (lookup-insert q p max m ∙ ground (arith, e, same, eq_iff q p)),
              rw same (rw e refl),
            ))
            (parse_maxima-lookup atoi qs (insert q max m) done p rest)
    ]

-- Options that are accepted have a name, a condition and periods of at least a second, and all that
-- they give as texts was parsed: both lists of maxima, and the conditions in their sorted order.
validate-valid :
    {Rate : Type 0} (lib : ParseLib Rate) (atoi : String → Option ℤ)
    → (sort : List String → List String) (o : Options) (v : Settings Rate)
    → validate lib atoi sort o ≡ valid v
    → (str_eq o.config_name "" ≡ false)
      × (parse_maxima atoi o.max_not_ready_nodes [] ≡ some v.max_not_ready_nodes_functions)
      × (parse_maxima atoi o.max_pending_pods [] ≡ some v.max_pending_pods_functions)
      × (is_empty o.conditions ≡ false)
      × (parse_conditions lib (sort o.conditions) ≡ some v.supplied_conditions)
      × (ltb_ℤ o.group_runner_period (pos second) ≡ false)
      × (ltb_ℤ o.pod_warmup_delay_extension (pos second) ≡ false)
unfolding validate
validate-valid lib atoi sort o v h = ground arith

-- A maximum for nodes that accepted options give could be read, and is kept under its text as it was
-- read; a maximum for pods that is the text of a number with a percent sign is kept as the
-- percentage of this number.
validate-maxima :
    {Rate : Type 0} (lib : ParseLib Rate) (atoi : String → Option ℤ)
    → (sort : List String → List String) (o : Options) (v : Settings Rate)
    → (p number : String) (max : ℤ) → validate lib atoi sort o ≡ valid v
    → Mem p o.max_not_ready_nodes
    → Mem (append number "%") o.max_pending_pods
    → atoi number ≡ some max
    → (lookup p v.max_not_ready_nodes_functions ≡ parse_max_in_parameter atoi p)
      × (is_some (parse_max_in_parameter atoi p) ≡ true)
      × (lookup (append number "%") v.max_pending_pods_functions ≡ some (max, true))
validate-maxima lib atoi sort o v p number max h mem share k =
    let parsed = validate-valid lib atoi sort o v h in
    let nodes = parse_maxima-lookup atoi _ _ _ p parsed.1 mem in
    let pods = parse_maxima-lookup atoi _ _ _ (append number "%") parsed.2 share in
    (nodes.0, nodes.1, pods.0 ∙ parse_max-percent atoi number max k)
