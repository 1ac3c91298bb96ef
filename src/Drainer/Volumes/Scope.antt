-- ===== src/Drainer/Volumes/Scope.antt =====
-- drainer.go, deletePVCAndPV: what it deletes belongs to the claims that it is given, and
-- getInScopePVCs gives it claims of the configured storage classes only.
use mathlib.Core.List.{Mem, mem-cons_self, mem-cons_of_mem}
use draino.Prelude.{
  ℕ, zero, suc, ◌≡◌, ◌⊎◌, refl, ap, sym, ◌∙◌, Bool, true, false, List, [], ◌∷◌, Option, none, some,
  inl, inr, String, if◌then◌else◌, str_eq, Option-cases, Bool-cases, All, All-append,
}
use draino.Drainer.Poll.{
  PollResult, met, timed_out, failed, PollLib, Got, found, missing, get_error,
}
use draino.Drainer.Volumes.{
  Claim, ClaimCalls, Volume, Deleted, deleted, gone_already, delete_error, Deletion, deletes_pvc,
  deletes_pv, deletes_pod, Cleanup, VolumeConfig, class_is_allowed, add_claim, claims_in_scope,
  get_in_scope_pvcs, claims_if_enabled, pvc_storage_class_cleanup_enabled, after_pvc_delete,
  after_pv_delete, after_recreation, volume_of, then_cleanup, is_nil, delete_pvcs, delete_pvs,
  pod_deletions, await_recreated, await_recreation, delete_pvc_and_pv, is_same_claim,
}

-- What Get is relied on for: it returns the volume of the name that it is asked for.
abbrev pub GetsByName : ClaimCalls → Type 0
GetsByName calls = (name : String) (pv : Volume) → calls.get_volume name ≡ found pv → pv.name ≡ name

-- Get fails for the volume, but not because there is none.
abbrev pub GetFails : ClaimCalls → Claim → Type 0
GetFails calls c = (e : String) × (calls.get_volume c.volume_name ≡ get_error e)

-- The claim has a volume, and the name is the one of this volume, or empty, after an error of Get.
abbrev pub IsVolumeOf : ClaimCalls → Claim → String → Type 0
IsVolumeOf calls c name =
    (str_eq c.volume_name "" ≡ false) × ((name ≡ c.volume_name) ⊎ ((name ≡ "") × GetFails calls c))

module _ (A : Claim → Type 0) (calls : Claim → ClaimCalls) (namespace pod_name : String) where
  -- A deletion that is made for a claim of `A` and for the pod of that name.
  abbrev pub For : Deletion → Type 0
  For (deletes_pvc c) = A c
  For (deletes_pv name) = (c : Claim) × A c × IsVolumeOf (calls c) c name
  For (deletes_pod in_namespace name) =
      ((c : Claim) × A c) × (in_namespace ≡ namespace) × (name ≡ pod_name)

  after_pvc_delete-For :
      (c : Claim) (d : Deleted) (awaited : PollResult) (rest : Cleanup)
      → A c
      → All For rest.deletions
      → All A rest.claims
      → All For (after_pvc_delete c d awaited rest).deletions
        × All A (after_pvc_delete c d awaited rest).claims
  unfolding after_pvc_delete
  after_pvc_delete-For c gone_already awaited rest a ds cs = ((a, ds), cs)
  after_pvc_delete-For c (delete_error e) awaited rest a ds cs = ((a, tt), tt)
  after_pvc_delete-For c deleted met rest a ds cs = ((a, ds), (a, cs))
  after_pvc_delete-For c deleted timed_out rest a ds cs = ((a, tt), tt)
  after_pvc_delete-For c deleted (failed e) rest a ds cs = ((a, tt), tt)

  after_pv_delete-For :
      (pv : Volume) (d : Deleted) (awaited : PollResult) (rest : Cleanup)
      → (c : Claim) × A c × IsVolumeOf (calls c) c pv.name
      → All For rest.deletions
      → All For (after_pv_delete pv d awaited rest).deletions
  unfolding after_pv_delete
  after_pv_delete-For pv gone_already awaited rest a ds = (a, ds)
  after_pv_delete-For pv (delete_error e) awaited rest a ds = (a, tt)
  after_pv_delete-For pv deleted met rest a ds = (a, ds)
  after_pv_delete-For pv deleted timed_out rest a ds = (a, tt)
  after_pv_delete-For pv deleted (failed e) rest a ds = (a, tt)

  after_recreation-For :
      (c : Claim) (here : List Deletion) (r : PollResult) (rest : Cleanup)
      → All For here
      → All For rest.deletions
      → All For (after_recreation c here r rest).deletions
  unfolding after_recreation
  after_recreation-For c here met rest h ds = All-append For here rest.deletions h ds
  after_recreation-For c here timed_out rest h ds = h
  after_recreation-For c here (failed e) rest h ds = h

  then_cleanup-For :
      (a b : Cleanup)
      → All For a.deletions
      → All For b.deletions
      → All For (then_cleanup a b).deletions
  unfolding then_cleanup
  then_cleanup-For a b h k = elim (Option-cases a.error) [
    | inl e ↦ rw e (All-append For a.deletions b.deletions h k)
    | inr (x, e) ↦ rw e h
  ]

  volume_of-IsVolumeOf :
      (c : Claim) (pv : Volume)
      → GetsByName (calls c)
      → str_eq c.volume_name "" ≡ false
      → volume_of ((calls c).get_volume c.volume_name) ≡ some pv
      → IsVolumeOf (calls c) c pv.name
  unfolding volume_of
  volume_of-IsVolumeOf c pv gets named h = (named, go ((calls c).get_volume c.volume_name) refl h)
    where
      some_inj : {a b : Volume} → some a ≡ some b → a ≡ b
      some_inj {a} e = ap (λ o. elim o [ none ↦ a | some x ↦ x ]) e

      go :
          (g : Got Volume)
          → (calls c).get_volume c.volume_name ≡ g
          → volume_of g ≡ some pv
          → (pv.name ≡ c.volume_name) ⊎ ((pv.name ≡ "") × GetFails (calls c) c)
      go (found v) k e = inl (sym (ap (λ x. x.name) (some_inj e)) ∙ gets c.volume_name v k)
      go missing k e = cc
      go (get_error m) k e = inr (sym (ap (λ x. x.name) (some_inj e)), (m, k))

  module _ (lib : PollLib) (gets : (c : Claim) → GetsByName (calls c)) where
    delete_pvcs-For :
        (cs : List Claim)
        → All A cs
        → All For (delete_pvcs lib calls cs).deletions × All A (delete_pvcs lib calls cs).claims
    unfolding delete_pvcs
    delete_pvcs-For [] h = (tt, tt)
    delete_pvcs-For (c ∷ cs) (a, h) =
        let (ds, rest) = delete_pvcs-For cs h in
        elim (Bool-cases (is_same_claim c (calls c).get_uid)) [
          | inl e ↦ rw e (after_pvc_delete-For c (calls c).delete _ _ a ds rest)
          | inr e ↦ rw e (ds, rest)
        ]

    delete_pvs-For : (cs : List Claim) → All A cs → All For (delete_pvs lib calls cs).deletions
    unfolding delete_pvs
    delete_pvs-For [] h = tt
    delete_pvs-For (c ∷ cs) (a, h) =
        let ds = delete_pvs-For cs h in
        elim (Bool-cases (str_eq c.volume_name "")) [
          | inl e ↦ rw e ds
          | inr e ↦ rw e (elim (Option-cases (volume_of ((calls c).get_volume c.volume_name))) [
            | inl n ↦ rw n ds
            | inr (pv, s) ↦ rw s (
                after_pv_delete-For pv (calls c).delete_volume _ _
                  (c, a, volume_of-IsVolumeOf c pv (gets c) e s) ds)
          ])
        ]

    pod_deletions-For :
        (c : Claim) → A c → (n : ℕ) → All For (pod_deletions lib calls namespace pod_name c n)
    unfolding pod_deletions
    pod_deletions-For c a zero = tt
    pod_deletions-For c a (suc n) =
        All-append For (pod_deletions lib calls namespace pod_name c n) _ (pod_deletions-For c a n)
          (asked _)
      where
        asked : (b : Bool) → All For (if b then deletes_pod namespace pod_name ∷ [] else [])
        asked true = (((c, a), refl, refl), tt)
        asked false = tt

    await_recreated-For :
        (cs : List Claim)
        → All A cs
        → All For (await_recreated lib calls namespace pod_name cs).deletions
    unfolding await_recreated
    await_recreated-For [] h = tt
    await_recreated-For (c ∷ cs) (a, h) =
        let run = await_recreation lib calls c in
        after_recreation-For c (pod_deletions lib calls namespace pod_name c run.polls) run.result
          (await_recreated lib calls namespace pod_name cs) (pod_deletions-For c a run.polls)
          (await_recreated-For cs h)

    pub delete_pvc_and_pv-For :
        (cs : List Claim)
        → All A cs
        → All For (delete_pvc_and_pv lib calls namespace pod_name cs).deletions
    unfolding delete_pvc_and_pv
    delete_pvc_and_pv-For cs h =
        let d = delete_pvcs lib calls cs in
        let (ds, rest) = delete_pvcs-For cs h in
        elim (Bool-cases (is_nil (delete_pvcs lib calls cs).claims)) [
          | inl e ↦ rw e ds
          | inr e ↦ rw e (
              then_cleanup-For d
                (then_cleanup (delete_pvs lib calls d.claims)
                  (await_recreated lib calls namespace pod_name d.claims))
                ds
                (then_cleanup-For (delete_pvs lib calls d.claims)
                  (await_recreated lib calls namespace pod_name d.claims)
                  (delete_pvs-For d.claims rest) (await_recreated-For d.claims rest)))
        ]

module _ (config : VolumeConfig) (cleanup_annotation eviction_url : Option String)
    (get_claim : String → Got Claim) (names : List String) where
  -- The cleanup is configured, it is on for the pod, and the claim is of a class that it names and
  -- stands under the name of one of the pod's claims.
  abbrev pub InScope : Claim → Type 0
  InScope c =
      (classes : List String) × (config.storage_classes_allowing_pv_deletion ≡ some classes)
      × (pvc_storage_class_cleanup_enabled cleanup_annotation eviction_url
            config.pvc_management_enable_if_no_eviction_url
          ≡ true)
      × (class_is_allowed classes c ≡ true)
      × (name : String) × Mem name names
      × (get_claim name ≡ found c)

  abbrev pub AllInScope : Option (List Claim) → Type 0
  AllInScope none = Unit
  AllInScope (some cs) = All InScope cs

  claims_in_scope-AllInScope :
      (classes : List String)
      → config.storage_classes_allowing_pv_deletion ≡ some classes
      → pvc_storage_class_cleanup_enabled cleanup_annotation eviction_url
          config.pvc_management_enable_if_no_eviction_url
        ≡ true
      → (some_names : List String) → ((name : String) → Mem name some_names → Mem name names)
      → AllInScope (claims_in_scope classes get_claim some_names)
  unfolding claims_in_scope add_claim
  claims_in_scope-AllInScope classes e on [] within = tt
  claims_in_scope-AllInScope classes e on (name ∷ rest) within = add (get_claim name) refl _ (
      claims_in_scope-AllInScope classes e on rest
        (λ other m. within other (mem-cons_of_mem name m)))
    where
      add :
          (g : Got Claim)
          → get_claim name ≡ g
          → (o : Option (List Claim)) → AllInScope o
          → AllInScope (add_claim classes g o)
      add missing got o h = h
      add (get_error m) got o h = tt
      add (found c) got none h = tt
      add (found c) got (some cs) h = elim (Bool-cases (class_is_allowed classes c)) [
        | inl k ↦ rw k ((classes, e, on, k, name, within name mem-cons_self, got), h)
        | inr k ↦ rw k h
      ]

  pub get_in_scope_pvcs-AllInScope :
      AllInScope (get_in_scope_pvcs config cleanup_annotation eviction_url get_claim names)
  unfolding get_in_scope_pvcs claims_if_enabled
  get_in_scope_pvcs-AllInScope = go _ _ refl refl
    where
      go :
          (classes : Option (List String)) (enabled : Bool)
          → config.storage_classes_allowing_pv_deletion ≡ classes
          → pvc_storage_class_cleanup_enabled cleanup_annotation eviction_url
              config.pvc_management_enable_if_no_eviction_url
            ≡ enabled
          → AllInScope (claims_if_enabled classes enabled get_claim names)
      go none enabled e on = tt
      go (some classes) false e on = tt
      go (some classes) true e on = claims_in_scope-AllInScope classes e on names (λ name m. m)
