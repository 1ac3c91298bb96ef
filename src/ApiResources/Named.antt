-- ===== src/ApiResources/Named.antt =====
-- internal/kubernetes/util.go: which API resources the kinds of an option stand for.
use draino.Prelude.{
  ◌≡◌, refl, String, Bool, true, false, not, ◌&&◌, ◌||◌, List, [], ◌∷◌, ◌++◌, Option, none, some,
  str_eq, keep_if, any, all, map, arith, Bool-cases, inl, inr, ◌∙◌, ap, sym,
}
use draino.Budgets.Selected.{any-append}
use draino.ApiResources.{
  ApiResource, Discovery, get_api_resources, gvk_of, is_named_by, add_found,
  get_api_resources_for_groups_kind_version, is_subresource, with_uncontrolled,
  get_api_resources_for_gvk,
}

any-keep_if :
    {A : Type 0} (q p : A → Bool) (xs : List A) → any q (keep_if p xs) ≡ any (λ x. p x && q x) xs
unfolding any keep_if
any-keep_if q p [] = refl
any-keep_if q p (x ∷ xs) = ground (arith, any-keep_if q p xs)

any-map-some :
    (q : Option ApiResource → Bool) (xs : List ApiResource)
    → any q (map some xs) ≡ any (λ r. q (some r)) xs
unfolding any
any-map-some q [] = refl
any-map-some q (x ∷ xs) = ap (λ b. q (some x) || b) (any-map-some q xs)

some_inj : {A : Type 0} {a b : A} → some a ≡ some b → a ≡ b
some_inj {a = a} h = ap (λ o. elim o [ none ↦ a | some x ↦ x ]) h

add_found-inv :
    (found : List ApiResource) (rest : Option (List ApiResource)) (out : List ApiResource)
    → add_found found rest ≡ some out
    → (any (λ r. true) found ≡ true)
      × ((more : List ApiResource) × ((rest ≡ some more) × (out ≡ found ++ more)))
unfolding add_found any
add_found-inv [] rest out h = ground (arith, h)
add_found-inv (r ∷ rs) none out h = ground (arith, h)
add_found-inv (r ∷ rs) (some more) out h = (refl, (more, (refl, sym (some_inj h))))

module _ (d : Discovery) (rs : List ApiResource) where
  -- A text names a resource.
  abbrev pub named : String → ApiResource → Bool
  named text r = is_named_by (gvk_of d text) r

  for_groups-exact :
      (q : ApiResource → Bool) (texts : List String) (out : List ApiResource)
      → get_api_resources_for_groups_kind_version d rs texts ≡ some out
      → (any q out ≡ any (λ t. any (λ r. named t r && q r) rs) texts)
        × (all (λ t. not (str_eq t "") && any (named t) rs) texts ≡ true)
  unfolding get_api_resources_for_groups_kind_version any all
  for_groups-exact q [] out h = (rw (sym (some_inj h)) refl, refl)
  for_groups-exact q (t ∷ texts) out h = elim (Bool-cases (str_eq t "")) [
    | inl e ↦ ground (arith, h, e)
    | inr e ↦
        let found : List ApiResource = keep_if (named t) rs in
        let (some_found, (more, (known, parts))) =
          add_found-inv found (get_api_resources_for_groups_kind_version d rs texts) out
            (ground (arith, h, e)) in
        let (same, each) = for_groups-exact q texts more known in
        (
          rw (parts, any-append q found more, any-keep_if q (named t) rs, same) refl,
          ground (arith, e, each, sym (any-keep_if (λ r. true) (named t) rs) ∙ some_found),
        )
  ]

with_uncontrolled-exact :
    (q : Option ApiResource → Bool) (has_empty : Bool) (rs : List ApiResource)
    (out : List (Option ApiResource))
    → with_uncontrolled has_empty (some rs) ≡ some out
    → any q out ≡ (has_empty && q none) || any (λ r. not (is_subresource r) && q (some r)) rs
unfolding with_uncontrolled any
with_uncontrolled-exact q true rs out h =
    rw
      (
        sym (some_inj h),
        any-map-some q (keep_if (λ r. not (is_subresource r)) rs),
        any-keep_if (λ r. q (some r)) (λ r. not (is_subresource r)) rs,
      )
      refl
with_uncontrolled-exact q false rs out h =
    rw
      (
        sym (some_inj h),
        any-map-some q (keep_if (λ r. not (is_subresource r)) rs),
        any-keep_if (λ r. q (some r)) (λ r. not (is_subresource r)) rs,
      )
      refl

with_uncontrolled-inv :
    (has_empty : Bool) (rs : Option (List ApiResource)) (out : List (Option ApiResource))
    → with_uncontrolled has_empty rs ≡ some out
    → (found : List ApiResource) × (rs ≡ some found)
unfolding with_uncontrolled
with_uncontrolled-inv has_empty none out h = ground (arith, h)
with_uncontrolled-inv has_empty (some rs) out h = (rs, refl)

all-nonempty :
    (p : String → Bool) (gvks : List String)
    → all (λ t. not (str_eq t "") && p t) (keep_if (λ g. not (str_eq g "")) gvks)
      ≡ all (λ g. str_eq g "" || p g) gvks
unfolding all keep_if
all-nonempty p [] = refl
all-nonempty p (g ∷ gvks) = ground (arith, all-nonempty p gvks)

-- When the API resources of the server are known and the kinds of an option are resolved without
-- an error, the result holds, in the sense that every test finds the same on both sides, the
-- entry for uncontrolled pods if one of the texts is empty, and each resource of the server that
-- a text which is not empty names by its kind, group and version and that is not a subresource,
-- and nothing else; and every text that is not empty names some resource of the server.
pub get_api_resources_for_gvk-exact :
    (d : Discovery) (gvks : List String) (rs : List ApiResource) (out : List (Option ApiResource))
    → get_api_resources d ≡ some rs
    → get_api_resources_for_gvk d gvks ≡ some out
    → ((q : Option ApiResource → Bool)
        → any q out
          ≡ (any (λ g. str_eq g "") gvks && q none)
            || any
                (λ g.
                  not (str_eq g "")
                  && any
                      (λ r. is_named_by (gvk_of d g) r && (not (is_subresource r) && q (some r)))
                      rs)
                gvks)
      × (all (λ g. str_eq g "" || any (is_named_by (gvk_of d g)) rs) gvks ≡ true)
unfolding get_api_resources_for_gvk
get_api_resources_for_gvk-exact d gvks rs out known h =
    let has_empty : Bool = any (λ g. str_eq g "") gvks in
    let texts : List String = keep_if (λ g. not (str_eq g "")) gvks in
    let resolved = get_api_resources_for_groups_kind_version d rs texts in
    let step : get_api_resources_for_gvk d gvks ≡ with_uncontrolled has_empty resolved =
      rw (get_api_resources_for_gvk, known) refl in
    let h' : with_uncontrolled has_empty resolved ≡ some out = sym step ∙ h in
    let (found, e) = with_uncontrolled-inv has_empty resolved out h' in
    let exact : (q : ApiResource → Bool) → _ = λ q. (for_groups-exact d rs q texts found e).0 in
    (
      λ q.
          with_uncontrolled-exact q has_empty found out
            (ap (with_uncontrolled has_empty) (sym e) ∙ h')
          ∙ ap (λ b. (has_empty && q none) || b)
              (exact (λ r. not (is_subresource r) && q (some r))
                ∙ any-keep_if
                    (λ t. any (λ r. named d rs t r && (not (is_subresource r) && q (some r))) rs)
                    (λ g. not (str_eq g "")) gvks),
      sym (all-nonempty (λ g. any (named d rs g) rs) gvks)
          ∙ (for_groups-exact d rs (λ r. true) texts found e).1,
    )
