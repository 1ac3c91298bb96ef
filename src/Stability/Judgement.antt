-- ===== src/Stability/Judgement.antt =====
-- stability_period.go, the loop of StabilityPeriodAcceptsDrain over the pods: what it comes to.
use draino.Prelude.{
  ◌≡◌, ◌⊎◌, refl, inl, inr, Bool, true, false, not, ◌&&◌, List, [], ◌∷◌, some, all, any, ltb_ℤ,
  eq_ℤ, ◌≤ℤ◌, arith,
}
use draino.K8s.{Time, time_zero}
use draino.Stability.{Verdict, ignored, blocks, recovers_at, Judged, noted, judge, unjudged}

-- The pod does not stand in the way at that time.
abbrev pub is_clear : Time → Verdict → Bool
is_clear now ignored = true
is_clear now blocks = false
is_clear now (recovers_at t) = not (ltb_ℤ now t)

abbrev pub recovers_exactly : Time → Verdict → Bool
recovers_exactly t ignored = false
recovers_exactly t blocks = false
recovers_exactly t (recovers_at s) = eq_ℤ s t

-- As long as nothing stood in the way, the latest recovery is not in the future.
abbrev NotAhead : Time → Judged → Type 0
NotAhead now st = (st.can_drain ≡ false) ⊎ (st.latest_recover ≤ℤ now)

noted-NotAhead :
    (now t : Time) (st : Judged)
    → NotAhead now st
    → NotAhead now (noted now t st)
      × ((noted now t st).can_drain ≡ (st.can_drain && not (ltb_ℤ now t)))
unfolding noted
noted-NotAhead now t st h = ground arith

judge_from :
    (now : Time) (vs : List Verdict) (st : Judged)
    → NotAhead now st
    → (judge now vs st).can_drain ≡ (st.can_drain && all (is_clear now) vs)
unfolding judge all
judge_from now [] st h = ground arith
judge_from now (ignored ∷ vs) st h = judge_from now vs st h
judge_from now (blocks ∷ vs) st h = ground arith
judge_from now (recovers_at t ∷ vs) st h =
    let (ahead, can) = noted-NotAhead now t st h in
    ground (arith, can, judge_from now vs (noted now t st) ahead)

-- The order of the pods does not count: a node may be drained exactly if no pod is in the way.
pub judge-all :
    (now : Time) (vs : List Verdict)
    → time_zero ≤ℤ now
    → (judge now vs unjudged).can_drain ≡ all (is_clear now) vs
judge-all now vs h = judge_from now vs unjudged (inr h)

noted-recorded :
    (now t u : Time) (st : Judged)
    → (noted now u st).recorded ≡ some t
    → (st.recorded ≡ some t) ⊎ (eq_ℤ u t ≡ true)
unfolding noted
noted-recorded now t u st h = ground arith

-- What is put into the cache is the recovery of one of the pods.
judge-recorded :
    (now t : Time) (vs : List Verdict) (st : Judged)
    → (judge now vs st).recorded ≡ some t
    → (st.recorded ≡ some t) ⊎ (any (recovers_exactly t) vs ≡ true)
unfolding judge any
judge-recorded now t [] st h = inl h
judge-recorded now t (ignored ∷ vs) st h = judge-recorded now t vs st h
judge-recorded now t (blocks ∷ vs) st h = inl h
judge-recorded now t (recovers_at s ∷ vs) st h = elim (judge-recorded now t vs (noted now s st) h) [
  | inl k ↦ elim (noted-recorded now t s st k) [ inl l ↦ inl l | inr l ↦ inr (rw l refl) ]
  | inr k ↦ inr (ground (arith, k))
]

not_clear_before :
    (now t : Time) (vs : List Verdict)
    → any (recovers_exactly t) vs ≡ true
    → ltb_ℤ now t ≡ true
    → all (is_clear now) vs ≡ false
unfolding any all
not_clear_before now t [] h e = cc
not_clear_before now t (ignored ∷ vs) h e = not_clear_before now t vs h e
not_clear_before now t (blocks ∷ vs) h e = refl
not_clear_before now t (recovers_at s ∷ vs) h e = ground (arith, not_clear_before now t vs)

pub recorded_blocks :
    (now later t : Time) (vs : List Verdict)
    → (judge now vs unjudged).recorded ≡ some t
    → ltb_ℤ later t ≡ true
    → all (is_clear later) vs ≡ false
recorded_blocks now later t vs h e = elim (judge-recorded now t vs unjudged h) [
  | inl k ↦ cc
  | inr k ↦ not_clear_before later t vs k e
]
