-- ===== src/WarmUp/Delay.antt =====
-- internal/kubernetes/analyser/pdb_analyser.go: the warm-up of a pod in time.
use draino.Prelude.{
  ◌≡◌, refl, Bool, false, not, ◌&&◌, List, [], ◌∷◌, Dict, ◌+ℤ◌, ◌≤ℤ◌, ltb_ℤ, any, arith,
  Option-cases, inl, inr,
}
use draino.K8s.{Time, Duration}
use draino.WarmUp.{
  ContainerStatus, StartingPod, delay_of, is_starting, warm_up_delays, is_warming_up_pod,
}

not_before :
    (b : Bool) (deadline now later : Time)
    → now ≤ℤ later
    → (b && ltb_ℤ now deadline) ≡ false
    → (b && ltb_ℤ later deadline) ≡ false
not_before b deadline now later le h = ground (arith, le, h)

is_starting-later :
    (delays : Dict Duration) (extension : Duration) (now later : Time) (c : ContainerStatus)
    → now ≤ℤ later
    → is_starting delays extension now c ≡ false
    → is_starting delays extension later c ≡ false
unfolding is_starting
is_starting-later delays extension now later c le h = elim (Option-cases c.running) [
  | inl e ↦ rw e refl
  | inr (t, e) ↦ rw e (
      not_before (not c.terminated) (t +ℤ delay_of delays c.name +ℤ extension) now later le
        (rw e at h))
]

any-later :
    (delays : Dict Duration) (extension : Duration) (now later : Time) (cs : List ContainerStatus)
    → now ≤ℤ later
    → any (is_starting delays extension now) cs ≡ false
    → any (is_starting delays extension later) cs ≡ false
unfolding any
any-later delays extension now later [] le h = refl
any-later delays extension now later (c ∷ cs) le h = ground (
  arith,
  h,
  is_starting-later delays extension now later c le,
  any-later delays extension now later cs le,
)

-- A pod that is not warming up at one time, and does not change, is not warming up at a later time.
is_warming_up_pod-later :
    (extension : Duration) (now later : Time) (p : StartingPod)
    → now ≤ℤ later
    → is_warming_up_pod extension now p ≡ false
    → is_warming_up_pod extension later p ≡ false
unfolding is_warming_up_pod
is_warming_up_pod-later extension now later p le h = ground (
  arith,
  h,
  any-later (warm_up_delays [] p.containers) extension now later p.container_statuses le,
)
