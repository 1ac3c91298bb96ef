-- ===== src/BoundPods/Exact.antt =====
-- nodefilters.go, GetUnscheduledPodsBoundToNodeByPV: which pods it gives.
use mathlib.Core.List.{
  Mem, Mem-prop, mem-cons, mem-cons_self, mem-cons_of_mem, mem-append_left, mem-append_right,
  not-mem-nil,
}
use mathlib.Core.Logic.Or
use mathlib.Core.Logic.{∥∥₁_elim, ∥∥₁_prop}
use draino.Scheduler.Sorting.{All-mem}
use draino.Prelude.{
  ◌≡◌, refl, Bool, true, List, [], ◌∷◌, ◌++◌, Option, none, some, str_eq, keep_if, All, All-append,
  ◌↔◌, Bool-cases, Option-cases, inl, inr, sym, ◌∙◌, ap, subst, arith,
}
use draino.K8s.{Time}
use draino.Drainer.Poll.{Got, found, missing, get_error}
use draino.BoundPods.{
  ClaimRef, LiveClaim, ClaimPod, Bound, bound, bound_error, ClaimStore, is_waiting, pods_of_pvc,
  pods_of_got, pods_of_volume, add_bound, get_unscheduled_pods,
}

-- A pod of the claim that a volume refers to: the claim is the very object of the reference and is
-- not being deleted.
abbrev pub IsBoundTo : ClaimStore → ClaimPod → Option ClaimRef → Type 0
IsBoundTo store p v =
    (ref : ClaimRef) × (pvc : LiveClaim) × (ps : List ClaimPod) × (v ≡ some ref)
    × (store.get_pvc ref.namespace ref.name ≡ found pvc)
    × (str_eq pvc.uid ref.uid ≡ true)
    × (pvc.deletion_timestamp ≡ none)
    × (store.list_pods_for_claim ref.namespace ref.name ≡ bound ps)
    × Mem p ps

-- It waits, and a volume of the list binds it.
abbrev pub WaitsFor :
    ClaimStore → (default_true : Bool) → (now : Time) → List (Option ClaimRef) → ClaimPod → Type 0
WaitsFor store default_true now vs p =
    (is_waiting default_true now p ≡ true)
    × ((v : Option ClaimRef) × Mem v vs × IsBoundTo store p v)

-- The list of a result, and no list for an error.
abbrev list_of : Bound → List ClaimPod
list_of (bound ps) = ps
list_of (bound_error e) = []

no_pod : (qs : List ClaimPod) (p : ClaimPod) → bound [] ≡ bound qs → ¬ Mem p qs
no_pod qs p h m = not-mem-nil (subst (λ b. Mem p (list_of b)) (sym h) m)

pvc-inv :
    (ref : ClaimRef) (pvc : LiveClaim) (listed : Bound) (qs : List ClaimPod) (p : ClaimPod)
    → pods_of_pvc ref pvc listed ≡ bound qs
    → Mem p qs
    → (str_eq pvc.uid ref.uid ≡ true) × (pvc.deletion_timestamp ≡ none) × (listed ≡ bound qs)
unfolding pods_of_pvc
pvc-inv ref pvc listed qs p h m = elim (Bool-cases (str_eq pvc.uid ref.uid)) [
  | inl e ↦ elim (Option-cases pvc.deletion_timestamp) [
    | inl n ↦ (e, n, sym (rw (e, n) refl) ∙ h)
    | inr (t, n) ↦ absurd (no_pod qs p (sym (rw (e, n) refl) ∙ h) m)
  ]
  | inr e ↦ absurd (no_pod qs p (sym (rw e refl) ∙ h) m)
]

got-inv :
    (ref : ClaimRef) (got : Got LiveClaim) (listed : Bound) (qs : List ClaimPod) (p : ClaimPod)
    → pods_of_got ref got listed ≡ bound qs
    → Mem p qs
    → (pvc : LiveClaim) × (got ≡ found pvc)
      × (str_eq pvc.uid ref.uid ≡ true)
      × (pvc.deletion_timestamp ≡ none)
      × (listed ≡ bound qs)
unfolding pods_of_got
got-inv ref missing listed qs p h m = absurd (no_pod qs p h m)
got-inv ref (get_error e) listed qs p h m = absurd (ground (arith, h))
got-inv ref (found pvc) listed qs p h m =
    let (same, kept, eq) = pvc-inv ref pvc listed qs p h m in (pvc, refl, same, kept, eq)

pods_of_volume-IsBoundTo :
    (store : ClaimStore) (v : Option ClaimRef) (qs : List ClaimPod) (p : ClaimPod)
    → pods_of_volume store v ≡ bound qs
    → Mem p qs
    → IsBoundTo store p v
unfolding pods_of_volume
pods_of_volume-IsBoundTo store none qs p h m = absurd (no_pod qs p h m)
pods_of_volume-IsBoundTo store (some ref) qs p h m =
    let (pvc, found_pvc, same, kept, listed) = got-inv ref _ _ qs p h m in
    (ref, pvc, qs, refl, found_pvc, same, kept, listed, m)

bound_of_IsBoundTo :
    (store : ClaimStore) (v : Option ClaimRef) (p : ClaimPod)
    → IsBoundTo store p v
    → (qs : List ClaimPod) × (pods_of_volume store v ≡ bound qs) × Mem p qs
unfolding pods_of_volume pods_of_got pods_of_pvc
bound_of_IsBoundTo store v p (ref, pvc, ps, hv, hp, hu, hd, hl, m) = (ps, rw (hv, hp, hu, hd) hl, m)

kept-All :
    {P : ClaimPod → Type 0} (w : ClaimPod → Bool) (qs : List ClaimPod)
    → ((p : ClaimPod) → Mem p qs → w p ≡ true → P p)
    → All P (keep_if w qs)
unfolding keep_if
kept-All w [] f = tt
kept-All {P = P} w (q ∷ qs) f =
    let rest = kept-All {P = P} w qs (λ p m. f p (mem-cons_of_mem q m)) in
    elim (Bool-cases (w q)) [ inl e ↦ rw e (f q mem-cons_self e, rest) | inr e ↦ rw e rest ]

mem-kept :
    (w : ClaimPod → Bool) (qs : List ClaimPod) (p : ClaimPod)
    → Mem p qs
    → w p ≡ true
    → Mem p (keep_if w qs)
unfolding keep_if
mem-kept w [] p m h = absurd (not-mem-nil m)
mem-kept w (q ∷ qs) p m h = elim (Bool-cases (w q)) [
  | inl e ↦ rw e (
      Or.elim Mem-prop (mem-cons.0 m) (λ same. rw same mem-cons_self)
        (λ k. mem-cons_of_mem q (mem-kept w qs p k h)))
  | inr e ↦ rw e (
      Or.elim Mem-prop (mem-cons.0 m) (λ same. absurd (ground (arith, h, e, same)))
        (λ k. mem-kept w qs p k h))
]

All-map :
    {P Q : ClaimPod → Type 0} (ps : List ClaimPod)
    → ((p : ClaimPod) → P p → Q p)
    → All P ps
    → All Q ps
All-map [] f h = tt
All-map {P = P} {Q = Q} (p ∷ ps) f h = (f p h.0, All-map {P = P} {Q = Q} ps f h.1)

add_bound-inv :
    (w : ClaimPod → Bool) (b rest : Bound) (ps : List ClaimPod)
    → add_bound w b rest ≡ bound ps
    → (qs : List ClaimPod) × (rs : List ClaimPod) × (b ≡ bound qs)
      × (rest ≡ bound rs)
      × (ps ≡ keep_if w qs ++ rs)
unfolding add_bound
add_bound-inv w (bound qs) (bound rs) ps h = (qs, rs, refl, refl, sym (ap list_of h))
add_bound-inv w (bound qs) (bound_error e) ps h = absurd (ground (arith, h))
add_bound-inv w (bound_error e) rest ps h = absurd (ground (arith, h))

sound :
    (store : ClaimStore) (default_true : Bool) (now : Time) (vs : List (Option ClaimRef))
    → (ps : List ClaimPod) → get_unscheduled_pods store default_true now vs ≡ bound ps
    → All (WaitsFor store default_true now vs) ps
unfolding get_unscheduled_pods
sound store default_true now [] ps h = subst (All _) (ap list_of h) tt
sound store default_true now (v ∷ vs) ps h =
    let (qs, rs, here, rest, e) = add_bound-inv _ _ _ ps h in
    rw e (
      All-append (WaitsFor store default_true now (v ∷ vs)) _ rs
        (kept-All _ qs
          (λ p m w. (w, (v, mem-cons_self, pods_of_volume-IsBoundTo store v qs p here m))))
        (All-map rs (λ p k. let (u, m, b) = k.1 in (k.0, (u, mem-cons_of_mem v m, b)))
          (sound store default_true now vs rs rest)))

complete :
    (store : ClaimStore) (default_true : Bool) (now : Time) (vs : List (Option ClaimRef))
    → (ps : List ClaimPod) (v : Option ClaimRef) (p : ClaimPod)
    → get_unscheduled_pods store default_true now vs ≡ bound ps
    → is_waiting default_true now p ≡ true
    → Mem v vs
    → IsBoundTo store p v
    → Mem p ps
unfolding get_unscheduled_pods
complete store default_true now [] ps v p h w m b = absurd (not-mem-nil m)
complete store default_true now (u ∷ us) ps v p h w m b =
    let (qs, rs, here, rest, e) = add_bound-inv _ _ _ ps h in
    let (qs2, there, k) = bound_of_IsBoundTo store v p b in
    rw e (
      Or.elim Mem-prop (mem-cons.0 m)
        (λ same. mem-append_left rs (
          mem-kept _ qs p
            (subst (Mem p)
              (ap list_of (sym (subst (λ x. pods_of_volume store x ≡ bound qs2) same there) ∙ here))
              k)
            w))
        (λ n. mem-append_right _ (complete store default_true now us rs v p rest w n b)))

-- If the pods of the volumes can be read, they are exactly the pods that wait: those without a node
-- that are older than their delay, and that use the claim which one of the volumes refers to, where
-- this claim exists under the UID of the reference and is not being deleted.
pub get_unscheduled_pods-exact :
    (store : ClaimStore) (default_true : Bool) (now : Time) (vs : List (Option ClaimRef))
    → (ps : List ClaimPod) → get_unscheduled_pods store default_true now vs ≡ bound ps
    → (p : ClaimPod) → Mem p ps ↔ ∥ WaitsFor store default_true now vs p ∥₁
get_unscheduled_pods-exact store default_true now vs ps h p = (
  All-mem (λ q. ∥∥₁_prop) ps (All-map ps (λ q k. ∣ k ∣₁) (sound store default_true now vs ps h)),
  λ t.
      ∥∥₁_elim t Mem-prop
        (λ k. let (v, m, b) = k.1 in complete store default_true now vs ps v p h k.0 m b),
)
