-- ===== src/Conditions/Parsed.antt =====
-- internal/kubernetes/conditions.go: what ParseConditions accepts, and the rate limits that follow.
use draino.Prelude.{
  ◌≡◌, refl, String, false, List, [], ◌∷◌, Option, none, some, if◌then◌else◌, str_eq, ℤ, Dict,
  lookup, insert, lookup-insert, map, arith, Bool-cases, inl, inr, All, ap, subst,
}
use draino.K8s.{Duration}
use draino.RateLimiters.{Configuration, TokenBucket, TypedLimiter, or_default, new_limiter}
use draino.Utils.Inject.{or_else}
use draino.Conditions.{
  RawCondition, ParseLib, ParsedCondition, supplied_of, with_durations, condition_of_raw,
  condition_of_parts, parse_condition, add_condition, parse_conditions, add_rate_limits,
  get_rate_limit_configuration,
}

some_inj : {A : Type 0} {a b : A} → some a ≡ some b → a ≡ b
some_inj {a = a} h = ap (λ o. elim o [ none ↦ a | some x ↦ x ]) h

module _ {Rate : Type 0} (lib : ParseLib Rate) where
  abbrev pub HasStatus : ParsedCondition Rate → Type 0
  HasStatus c = str_eq c.supplied.status "" ≡ false

  supplied_of-HasStatus :
      (kind : String) (raw : RawCondition Rate) (delay expected : Duration)
      → HasStatus (supplied_of lib kind raw delay expected)
  unfolding supplied_of
  supplied_of-HasStatus kind raw delay expected = elim (Bool-cases (str_eq raw.status "")) [
    | inl e ↦ rw e refl
    | inr e ↦ rw (e, e) refl
  ]

  with_durations-HasStatus :
      (kind : String) (raw : RawCondition Rate) (delay expected : Option Duration)
      → (c : ParsedCondition Rate) → with_durations lib kind raw delay expected ≡ some c
      → HasStatus c
  unfolding with_durations
  with_durations-HasStatus kind raw none expected c h = absurd (ground (arith, h))
  with_durations-HasStatus kind raw (some delay) none c h = absurd (ground (arith, h))
  with_durations-HasStatus kind raw (some delay) (some expected) c h =
      subst HasStatus (some_inj h) (supplied_of-HasStatus kind raw delay expected)

  condition_of_raw-HasStatus :
      (kind : String) (raw : Option (RawCondition Rate)) (c : ParsedCondition Rate)
      → condition_of_raw lib kind raw ≡ some c
      → HasStatus c
  unfolding condition_of_raw
  condition_of_raw-HasStatus kind none c h = absurd (ground (arith, h))
  condition_of_raw-HasStatus kind (some raw) c h = with_durations-HasStatus kind raw _ _ c h

  parts-HasStatus :
      (whole : String) (parts : Option (String × String)) (c : ParsedCondition Rate)
      → condition_of_parts lib whole parts ≡ some c
      → HasStatus c
  unfolding condition_of_parts
  parts-HasStatus whole none c h = condition_of_raw-HasStatus whole (lib.unmarshal "{}") c h
  parts-HasStatus whole (some (kind, json)) c h =
      condition_of_raw-HasStatus kind (lib.unmarshal json) c h

  add-inv :
      (c : Option (ParsedCondition Rate)) (rest : Option (List (ParsedCondition Rate)))
      → (ps : List (ParsedCondition Rate)) → add_condition lib c rest ≡ some ps
      → (p : ParsedCondition Rate) × (qs : List (ParsedCondition Rate)) × (c ≡ some p)
        × (rest ≡ some qs)
        × (p ∷ qs ≡ ps)
  unfolding add_condition
  add-inv none rest ps h = absurd (ground (arith, h))
  add-inv (some c) none ps h = absurd (ground (arith, h))
  add-inv (some c) (some cs) ps h = (c, cs, refl, refl, some_inj h)

  -- If the texts are accepted, each gives the condition at its place, and every condition has a
  -- status to compare with.
  parse_conditions-each :
      (cs : List String) (ps : List (ParsedCondition Rate))
      → parse_conditions lib cs ≡ some ps
      → (map some ps ≡ map (parse_condition lib) cs) × All HasStatus ps
  unfolding parse_conditions
  parse_conditions-each [] ps h = subst Accepted (some_inj h) (refl, tt)
    where
      Accepted : List (ParsedCondition Rate) → Type 0
      Accepted qs = (map some qs ≡ []) × All HasStatus qs
  parse_conditions-each (c ∷ cs) ps h =
      let (p, qs, here, rest, e) = add-inv _ _ ps h in
      let (each, statuses) = parse_conditions-each cs qs rest in
      subst (λ l. (map some l ≡ map (parse_condition lib) (c ∷ cs)) × All HasStatus l) e
        (rw (here, each) refl, (unfold parse_condition in parts-HasStatus c _ p here, statuses))

abbrev pub qps_of : {Rate : Type 0} → Option (Configuration Rate ℤ) → Option Rate
qps_of none = none
qps_of (some c) = c.qps

abbrev pub burst_of : {Rate : Type 0} → Option (Configuration Rate ℤ) → Option ℤ
burst_of none = none
burst_of (some c) = c.burst

-- The configuration of the last condition of a type.
unfoldable pub last_rate_limit :
    {Rate : Type 0} → String → List (ParsedCondition Rate) → Option (Configuration Rate ℤ)
last_rate_limit key [] = none
last_rate_limit key (c ∷ cs) = elim (last_rate_limit key cs) [
  | some limit ↦ some limit
  | none ↦ if str_eq c.supplied.kind key then some c.rate_limit else none
]

add_rate_limits-last :
    {Rate : Type 0} (key : String) (cs : List (ParsedCondition Rate))
    → (m : Dict (Configuration Rate ℤ))
    → lookup key (add_rate_limits cs m) ≡ or_else (last_rate_limit key cs) (lookup key m)
unfolding add_rate_limits last_rate_limit
add_rate_limits-last key [] m = refl
add_rate_limits-last key (c ∷ cs) m = ground (
  arith,
  add_rate_limits-last key cs (insert c.supplied.kind c.rate_limit m),
  lookup-insert c.supplied.kind key c.rate_limit m,
)

-- With the limits of the conditions, the limiter that is made for a type has the rate and the burst
-- of the last condition of this type, and the defaults for what that condition leaves out, or for
-- both where no condition has the type.
pub new_limiter-of_conditions :
    {Rate Limiter : Type 0} (lib : TokenBucket Rate ℤ Limiter) (l : TypedLimiter Rate ℤ Limiter)
    → (cs : List (ParsedCondition Rate)) (key : String)
    → l.rl_configs ≡ get_rate_limit_configuration cs
    → new_limiter lib l key
      ≡ lib.new
          (or_default (qps_of (last_rate_limit key cs)) l.default_qps)
          (or_default (burst_of (last_rate_limit key cs)) l.default_burst)
unfolding new_limiter get_rate_limit_configuration or_default lookup
new_limiter-of_conditions lib l cs key h = ground (arith, h, add_rate_limits-last key cs [])
