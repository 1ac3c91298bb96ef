-- ===== src/Stability/Settled.antt =====
-- stability_period.go, getLatestDisruption: what it says of the budgets of a pod, against a test of
-- each budget by itself.
use draino.Prelude.{
  ◌≡◌, refl, inl, inr, ◌∙◌, String, Bool, true, false, not, ◌&&◌, ◌||◌, List, [], ◌∷◌, none, some,
  if◌then◌else◌, str_eq, any, ltb_ℤ, eq_ℤ, ◌≤ℤ◌, ◌+ℤ◌, ◌-ℤ◌, pos, lookup, arith, +ℤ_parts, -ℤ_parts,
  Bool-cases, Option-cases, Dict,
}
use draino.K8s.{Time, Duration, Condition, time_zero}
use draino.Stability.{
  Budget, Latest, later, latest_of_conditions, latest_disruption, get_latest_disruption, verdict,
  verdict_of_latest, StabilityPeriodInfo,
}
use draino.Stability.Judgement.{is_clear}

abbrev pub is_disruption : Condition → Bool
is_disruption c = str_eq c.kind "DisruptionAllowed"

-- The budget says that no disruption is allowed.
abbrev pub forbids : Budget → Bool
forbids b = any (λ c. is_disruption c && str_eq c.status "False") b.conditions

abbrev pub change_time : Budget → Condition → Time
change_time b c =
    if eq_ℤ c.last_transition_time time_zero then b.creation_timestamp else c.last_transition_time

-- The budget has changed after a time: by one of its conditions on disruptions, or by its creation
-- if it has none.
abbrev pub changed_after : Time → Budget → Bool
changed_after u b =
    if any is_disruption b.conditions
    then any (λ c. is_disruption c && ltb_ℤ u (change_time b c)) b.conditions
    else ltb_ℤ u b.creation_timestamp

abbrev pub length_of : Dict StabilityPeriodInfo → String → Duration
length_of periods pod_key = elim (lookup pod_key periods) [ none ↦ pos 0 | some i ↦ i.length ]

-- The period is switched off, or no budget forbids a disruption, there is a budget with a change, and
-- none has changed within the period.
abbrev pub has_settled : Dict StabilityPeriodInfo → Time → String × List Budget → Bool
has_settled periods now (pod_key, bs) =
    let length = length_of periods pod_key in
    ltb_ℤ length (pos 0)
    || (not (any forbids bs)
        && (any (changed_after time_zero) bs && not (any (changed_after (now -ℤ length)) bs)))

-- A budget is kept with the latest change exactly if there is a change.
record IsKept (l : Latest) : Type 0 where
  not_before : time_zero ≤ℤ l.stable_since
  with_budget :
      (elim l.disrupted_pdb [ none ↦ false | some b ↦ true ]) ≡ ltb_ℤ time_zero l.stable_since

later-IsKept : (b : Budget) (when : Time) (l : Latest) → IsKept l → IsKept (later b when l)
unfolding later
later-IsKept b when l k = elim (Bool-cases (ltb_ℤ l.stable_since when)) [
  | inl e ↦
      rw (later, e)
        (record {
          not_before = ground (arith, e, k.not_before);
          with_budget = ground (arith, e, k.not_before);
        })
  | inr e ↦ rw (later, e) k
]

later-after :
    (u : Time) (b : Budget) (when : Time) (l : Latest)
    → ltb_ℤ u (later b when l).stable_since ≡ ltb_ℤ u l.stable_since || ltb_ℤ u when
unfolding later
later-after u b when l = ground arith

-- What is kept after a part of the budgets: the latest change grows by the changes of that part.
record Grows (before : Latest) (changed : Time → Bool) (after : Latest) : Type 0 where
  kept : IsKept after
  grown : (u : Time) → ltb_ℤ u after.stable_since ≡ ltb_ℤ u before.stable_since || changed u

conditions-forbid :
    (b : Budget) (cs : List Condition) (was_found : Bool) (l : Latest)
    → any (λ c. is_disruption c && str_eq c.status "False") cs ≡ true
    → latest_of_conditions b cs was_found l ≡ none
unfolding latest_of_conditions any
conditions-forbid b [] was_found l h = cc
conditions-forbid b (c ∷ cs) was_found l h = ground (
  arith,
  h,
  conditions-forbid b cs true (later b (change_time b c) l),
  conditions-forbid b cs was_found l,
)

conditions-allow :
    (b : Budget) (cs : List Condition) (was_found : Bool) (l : Latest)
    → IsKept l
    → any (λ c. is_disruption c && str_eq c.status "False") cs ≡ false
    → (l' : Latest) × (latest_of_conditions b cs was_found l
        ≡ some (was_found || any is_disruption cs, l'))
      × Grows l (λ u. any (λ c. is_disruption c && ltb_ℤ u (change_time b c)) cs) l'
unfolding latest_of_conditions any
conditions-allow b [] was_found l k h =
    (l, ground arith, record { kept = k; grown = λ u. ground arith })
conditions-allow b (c ∷ cs) was_found l k h = elim (Bool-cases (is_disruption c)) [
  | inl e ↦
      let (l', same, g) =
        conditions-allow b cs true (later b (change_time b c) l)
          (later-IsKept b (change_time b c) l k) (ground (arith, h)) in
      (
        l',
        ground (arith, h, e, same),
        record {
          kept = g.kept;
          grown = λ u. ground (arith, e, g.grown u, later-after u b (change_time b c) l);
        },
      )
  | inr e ↦
      let (l', same, g) = conditions-allow b cs was_found l k (ground (arith, h)) in
      (
        l',
        ground (arith, e, same),
        record { kept = g.kept; grown = λ u. ground (arith, e, g.grown u) },
      )
]

any-none :
    {A : Type 0} (p q : A → Bool) (xs : List A)
    → any p xs ≡ false
    → any (λ x. p x && q x) xs ≡ false
unfolding any
any-none p q [] h = refl
any-none p q (x ∷ xs) h = ground (arith, h, any-none p q xs)

any_mono :
    {A : Type 0} (p q : A → Bool) (xs : List A)
    → ((x : A) → p x ≡ true → q x ≡ true)
    → any p xs ≡ true
    → any q xs ≡ true
unfolding any
any_mono p q [] m h = cc
any_mono p q (x ∷ xs) m h = ground (arith, h, m x, any_mono p q xs m)

budget-allow :
    (b : Budget) (bs : List Budget) (l : Latest)
    → IsKept l
    → forbids b ≡ false
    → (l' : Latest) × (latest_disruption (b ∷ bs) l ≡ latest_disruption bs l')
      × Grows l (λ u. changed_after u b) l'
unfolding latest_disruption
budget-allow b bs l k h =
    let (seen, same, g) = conditions-allow b b.conditions false l k h in
    elim (Bool-cases (any is_disruption b.conditions)) [
      | inl e ↦ (
        seen,
        rw (latest_disruption, same, e) refl,
        record { kept = g.kept; grown = λ u. ground (arith, e, g.grown u) },
      )
      | inr e ↦ (
        later b b.creation_timestamp seen,
        rw (latest_disruption, same, e) refl,
        record {
          kept = later-IsKept b b.creation_timestamp seen g.kept;
          grown = λ u. ground (
            arith,
            e,
            later-after u b b.creation_timestamp seen,
            g.grown u,
            any-none is_disruption (λ c. ltb_ℤ u (change_time b c)) b.conditions e,
          );
        },
      )
    ]

budgets-forbid :
    (bs : List Budget) (l : Latest)
    → IsKept l
    → any forbids bs ≡ true
    → latest_disruption bs l ≡ none
unfolding any latest_disruption
budgets-forbid [] l k h = cc
budgets-forbid (b ∷ bs) l k h = elim (Bool-cases (forbids b)) [
  | inl e ↦ rw (latest_disruption, conditions-forbid b b.conditions false l e) refl
  | inr e ↦
      let (l', same, g) = budget-allow b bs l k e in
      same ∙ budgets-forbid bs l' g.kept (ground (arith, h, e))
]

budgets-allow :
    (bs : List Budget) (l : Latest)
    → IsKept l
    → any forbids bs ≡ false
    → (l' : Latest) × (latest_disruption bs l ≡ some l')
      × Grows l (λ u. any (changed_after u) bs) l'
unfolding any latest_disruption
budgets-allow [] l k h = (l, refl, record { kept = k; grown = λ u. ground arith })
budgets-allow (b ∷ bs) l k h =
    let (seen, same, g) = budget-allow b bs l k (ground (arith, h)) in
    let (l', last, more) = budgets-allow bs seen g.kept (ground (arith, h)) in
    (
      l',
      same ∙ last,
      record { kept = more.kept; grown = λ u. ground (arith, more.grown u, g.grown u) },
    )

abbrev nothing_seen : Latest
nothing_seen = record { stable_since = time_zero; disrupted_pdb = none }

nothing_seen-IsKept : IsKept nothing_seen
nothing_seen-IsKept = record { not_before = ground arith; with_budget = refl }

shifted : (now length t : Time) → ltb_ℤ now (t +ℤ length) ≡ ltb_ℤ (now -ℤ length) t
shifted now length t = ground (arith, +ℤ_parts t length, -ℤ_parts now length)

-- A verdict on the latest change is clear when there is one and the period after it is over.
verdict_of_latest-clear :
    (length : Duration) (now : Time) (l : Latest)
    → IsKept l
    → is_clear now (verdict_of_latest length (some l))
      ≡ (ltb_ℤ time_zero l.stable_since && not (ltb_ℤ (now -ℤ length) l.stable_since))
unfolding verdict_of_latest
verdict_of_latest-clear length now l k = elim (Option-cases l.disrupted_pdb) [
  | inl e ↦ ground (arith, e, k.not_before, k.with_budget)
  | inr (b, e) ↦ ground (arith, e, k.not_before, k.with_budget, shifted now length l.stable_since)
]

less_mono : (u v t : Time) → ltb_ℤ u v ≡ true → ltb_ℤ v t ≡ true → ltb_ℤ u t ≡ true
less_mono u v t h k = ground (arith, h, k)

-- What has changed after a time has changed after every earlier one.
changed_mono :
    (u v : Time) (b : Budget)
    → ltb_ℤ u v ≡ true
    → changed_after v b ≡ true
    → changed_after u b ≡ true
changed_mono u v b h k = elim (Bool-cases (any is_disruption b.conditions)) [
  | inl e ↦
      let wanted =
        any_mono (λ c. is_disruption c && ltb_ℤ v (change_time b c))
          (λ c. is_disruption c && ltb_ℤ u (change_time b c)) b.conditions
          (λ c. less_also (is_disruption c) (change_time b c)) (ground (arith, e, k)) in
      rw e wanted
  | inr e ↦ rw e (less_mono u v b.creation_timestamp h (ground (arith, e, k)))
]
  where
    less_also : (d : Bool) (t : Time) → (d && ltb_ℤ v t) ≡ true → (d && ltb_ℤ u t) ≡ true
    less_also true t l = less_mono u v t h l
    less_also false t l = l

changed_early :
    (u : Time) (bs : List Budget)
    → ltb_ℤ u time_zero ≡ true
    → any (changed_after time_zero) bs ≡ true
    → any (changed_after u) bs ≡ true
changed_early u bs h =
    any_mono (changed_after time_zero) (changed_after u) bs (λ b. changed_mono u time_zero b h)

settled_by :
    (length : Duration) (now : Time) (bs : List Budget) (l : Latest)
    → Grows nothing_seen (λ u. any (changed_after u) bs) l
    → (ltb_ℤ time_zero l.stable_since && not (ltb_ℤ (now -ℤ length) l.stable_since))
      ≡ (any (changed_after time_zero) bs && not (any (changed_after (now -ℤ length)) bs))
settled_by length now bs l g =
    let u : Time = now -ℤ length in
    let early = changed_early u bs in rw (g.grown time_zero, g.grown u) (ground (arith, early))

-- The verdict on the budgets of one pod is clear exactly if its period is switched off or has passed
-- without a change of any of them, and none forbids a disruption.
pub verdict-settled :
    (periods : Dict StabilityPeriodInfo) (now : Time) (p : String × List Budget)
    → is_clear now (verdict periods p) ≡ has_settled periods now p
unfolding verdict get_latest_disruption
verdict-settled periods now (pod_key, bs) =
    elim (Bool-cases (ltb_ℤ (length_of periods pod_key) (pos 0))) [
      | inl e ↦ rw (verdict, e) refl
      | inr e ↦ elim (Bool-cases (any forbids bs)) [
        | inl f ↦
            rw
              (
                verdict,
                e,
                get_latest_disruption,
                budgets-forbid bs nothing_seen nothing_seen-IsKept f,
                f,
              )
              refl
        | inr f ↦
            let (l, same, g) = budgets-allow bs nothing_seen nothing_seen-IsKept f in
            rw (verdict, e, get_latest_disruption, same, f)
              (verdict_of_latest-clear (length_of periods pod_key) now l g.kept
                ∙ settled_by (length_of periods pod_key) now bs l g)
      ]
    ]
