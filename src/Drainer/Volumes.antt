-- ===== src/Drainer/Volumes.antt =====
-- drainer.go, the volumes of an evicted pod: getInScopePVCs, deletePVCAssociatedWithStorageClass,
-- deletePVAssociatedWithDeletedPVC, podDeleteRetryWaitingForPVC and deletePVCAndPV.
pub mod Scope
use draino.Prelude.{
  ℕ, zero, suc, ◌*◌, String, Bool, true, false, not, ◌&&◌, List, [], ◌∷◌, ◌++◌, Option, none, some,
  if◌then◌else◌, str_eq, any, pos,
}
use draino.K8s.{second, minute}
use draino.Drainer.Errors.{
  VolumeError, cannot_delete_pvc, pvc_deletion_timeout, cannot_delete_pv, pv_deletion_timeout,
  pvc_not_recreated,
}
use draino.Drainer.Poll.{
  Poll, done, again, fails, PollResult, met, timed_out, failed, PollLib, PollRun, Got, found,
  missing, get_error, gone, poll_period,
}

-- A PersistentVolumeClaim.
pub record Claim : Type 0 where
  pub name : String
  pub uid : String
  pub volume_name : String
  pub storage_class_name : Option String

-- A PersistentVolume.
pub record Volume : Type 0 where
  pub name : String
  pub uid : String

pub data Deleted : Type 0 where
  deleted gone_already : Deleted
  delete_error : String → Deleted

-- What the API server answers about one claim and its volume. A function of a number is asked once
-- for each poll.
pub record ClaimCalls : Type 0 where
  pub get_uid : Got String
  pub delete : Deleted
  pub polled_uid : ℕ → Got String
  pub get_volume : (name : String) → Got Volume
  pub delete_volume : Deleted
  pub polled_volume_uid : ℕ → Got String
  pub recreated_uid : ℕ → Got String
  pub delete_pod : ℕ → Deleted

-- The deletions that the drainer asks for, in order.
pub data Deletion : Type 0 where
  deletes_pvc : Claim → Deletion
  deletes_pv : (name : String) → Deletion
  deletes_pod : (namespace name : String) → Deletion

pub record Cleanup : Type 0 where
  pub claims : List Claim
  pub error : Option VolumeError
  pub deletions : List Deletion

-- The fields of the configuration: no map at all turns the cleanup off.
pub record VolumeConfig : Type 0 where
  pub storage_classes_allowing_pv_deletion : Option (List String)
  pub pvc_management_enable_if_no_eviction_url : Bool

-- By the annotations draino/delete-pvc-and-pv and draino/eviction-api-url of the pod or of its
-- controller.
unfoldable pub pvc_storage_class_cleanup_enabled :
    (cleanup_annotation eviction_url : Option String)
    → (default_true_if_no_eviction_url : Bool) → Bool
pvc_storage_class_cleanup_enabled cleanup_annotation eviction_url default_true =
    let by_default = default_true && elim eviction_url [ none ↦ true | some url ↦ false ] in
    elim cleanup_annotation [
      | none ↦ by_default
      | some v ↦ if str_eq v "true" then true else if str_eq v "false" then false else by_default
    ]

unfoldable pub class_is_allowed : List String → Claim → Bool
unfolding any
class_is_allowed classes c = elim c.storage_class_name [
  | none ↦ false
  | some s ↦ any (λ allowed. str_eq allowed s) classes
]

-- `rest` is what the later volumes come to; `none` is an error.
unfoldable pub add_claim :
    List String → Got Claim → (rest : Option (List Claim)) → Option (List Claim)
unfolding class_is_allowed
add_claim classes missing rest = rest
add_claim classes (get_error e) rest = none
add_claim classes (found c) none = none
add_claim classes (found c) (some cs) = some (if class_is_allowed classes c then c ∷ cs else cs)

-- By the names of the pod's volumes that are claims.
unfoldable pub claims_in_scope :
    List String → (get_claim : String → Got Claim) → List String → Option (List Claim)
unfolding add_claim
claims_in_scope classes get_claim [] = some []
claims_in_scope classes get_claim (name ∷ names) =
    add_claim classes (get_claim name) (claims_in_scope classes get_claim names)

unfoldable pub claims_if_enabled :
    (classes : Option (List String))
    → (enabled : Bool) → (get_claim : String → Got Claim) → (names : List String)
    → Option (List Claim)
unfolding claims_in_scope
claims_if_enabled none enabled get_claim names = some []
claims_if_enabled (some classes) false get_claim names = some []
claims_if_enabled (some classes) true get_claim names = claims_in_scope classes get_claim names

unfoldable pub get_in_scope_pvcs :
    VolumeConfig
    → (cleanup_annotation eviction_url : Option String) → (get_claim : String → Got Claim)
    → (names : List String) → Option (List Claim)
unfolding claims_if_enabled pvc_storage_class_cleanup_enabled
get_in_scope_pvcs config cleanup_annotation eviction_url get_claim names =
    claims_if_enabled config.storage_classes_allowing_pv_deletion
      (pvc_storage_class_cleanup_enabled cleanup_annotation eviction_url
        config.pvc_management_enable_if_no_eviction_url)
      get_claim names

-- After an error other than NotFound the code compares with the empty UID.
unfoldable pub is_same_claim : Claim → Got String → Bool
is_same_claim c missing = false
is_same_claim c (found uid) = str_eq c.uid uid
is_same_claim c (get_error e) = str_eq c.uid ""

-- `awaited` counts only after a Delete that was accepted; `rest` is what the later claims come to.
unfoldable pub after_pvc_delete :
    Claim → Deleted → (awaited : PollResult) → (rest : Cleanup) → Cleanup
after_pvc_delete c gone_already awaited rest = record rest {
  deletions = deletes_pvc c ∷ rest.deletions;
}
after_pvc_delete c (delete_error e) awaited rest = record {
  claims = [];
  error = some (cannot_delete_pvc c.name);
  deletions = deletes_pvc c ∷ [];
}
after_pvc_delete c deleted met rest = record rest {
  claims = c ∷ rest.claims;
  deletions = deletes_pvc c ∷ rest.deletions;
}
after_pvc_delete c deleted awaited rest = record {
  claims = [];
  error = some (pvc_deletion_timeout c.name);
  deletions = deletes_pvc c ∷ [];
}

unfoldable pub after_pv_delete :
    Volume → Deleted → (awaited : PollResult) → (rest : Cleanup) → Cleanup
after_pv_delete pv gone_already awaited rest = record rest {
  deletions = deletes_pv pv.name ∷ rest.deletions;
}
after_pv_delete pv (delete_error e) awaited rest = record {
  claims = [];
  error = some (cannot_delete_pv pv.name);
  deletions = deletes_pv pv.name ∷ [];
}
after_pv_delete pv deleted met rest = record rest {
  deletions = deletes_pv pv.name ∷ rest.deletions;
}
after_pv_delete pv deleted awaited rest = record {
  claims = [];
  error = some (pv_deletion_timeout pv.name);
  deletions = deletes_pv pv.name ∷ [];
}

unfoldable pub after_recreation :
    Claim → (here : List Deletion) → PollResult → (rest : Cleanup) → Cleanup
after_recreation c here met rest = record rest { deletions = here ++ rest.deletions }
after_recreation c here awaited rest = record {
  claims = [];
  error = some (pvc_not_recreated c.name);
  deletions = here;
}

-- After an error other than NotFound the code goes on with an empty volume.
unfoldable pub volume_of : Got Volume → Option Volume
volume_of (found pv) = some pv
volume_of missing = none
volume_of (get_error e) = some (record { name = ""; uid = "" })

-- A new claim stands under the name.
unfoldable pub is_recreated : Claim → Got String → Bool
is_recreated c (found uid) = not (str_eq uid "") && not (str_eq uid c.uid)
is_recreated c missing = false
is_recreated c (get_error e) = false

unfoldable pub is_nil : List Claim → Bool
is_nil [] = true
is_nil (c ∷ cs) = false

-- What follows a step that may have failed.
unfoldable pub then_cleanup : Cleanup → Cleanup → Cleanup
then_cleanup a b = elim a.error [
  | some e ↦ a
  | none ↦ record { claims = a.claims; error = b.error; deletions = a.deletions ++ b.deletions }
]

module _ (lib : PollLib) (calls : Claim → ClaimCalls) where
  unfoldable pub await_pvc_deletion : Claim → PollResult
  unfolding gone
  await_pvc_deletion c =
      (lib.poll_immediate (pos second) (pos minute)
        (λ n. gone c.uid ((calls c).polled_uid n))).result

  unfoldable pub await_pv_deletion : Claim → Volume → PollResult
  unfolding gone poll_period
  await_pv_deletion c pv =
      (lib.poll_immediate (poll_period (pos minute)) (pos minute)
        (λ n. gone pv.uid ((calls c).polled_volume_uid n))).result

  unfoldable pub delete_pvcs : List Claim → Cleanup
  unfolding await_pvc_deletion is_same_claim after_pvc_delete
  delete_pvcs [] = record { claims = []; error = none; deletions = [] }
  delete_pvcs (c ∷ cs) =
      let rest = delete_pvcs cs in
      if is_same_claim c (calls c).get_uid
      then after_pvc_delete c (calls c).delete (await_pvc_deletion c) rest
      else rest

  unfoldable pub delete_pvs : List Claim → Cleanup
  unfolding await_pv_deletion volume_of after_pv_delete
  delete_pvs [] = record { claims = []; error = none; deletions = [] }
  delete_pvs (c ∷ cs) =
      let rest = delete_pvs cs in
      if str_eq c.volume_name ""
      then rest
      else elim (volume_of ((calls c).get_volume c.volume_name)) [
        | none ↦ rest
        | some pv ↦ after_pv_delete pv (calls c).delete_volume (await_pv_deletion c pv) rest
      ]

  -- One poll: what it answers, and whether it asked for the pod's deletion.
  unfoldable pub check_pvc : Claim → ℕ → Poll × Bool
  unfolding is_recreated
  check_pvc c n =
      let got = (calls c).recreated_uid n in
      let delete_pod : Poll = elim ((calls c).delete_pod n) [
        | deleted ↦ again
        | gone_already ↦ again
        | delete_error e ↦ fails e
      ] in
      elim got [
        | get_error e ↦ (fails e, false)
        | missing ↦ (delete_pod, true)
        | found uid ↦ if is_recreated c (found uid) then (done, false) else (delete_pod, true)
      ]

  -- `namespace` and `pod_name` are those of the evicted pod, here and below.
  unfoldable pub pod_deletions : (namespace pod_name : String) → Claim → ℕ → List Deletion
  unfolding check_pvc
  pod_deletions namespace pod_name c zero = []
  pod_deletions namespace pod_name c (suc n) =
      pod_deletions namespace pod_name c n
      ++ (if (check_pvc c n).1 then deletes_pod namespace pod_name ∷ [] else [])

  unfoldable pub await_recreation : Claim → PollRun
  await_recreation c =
      lib.poll_immediate (pos (10 * second)) (pos (3 * minute)) (λ n. (check_pvc c n).0)

  unfoldable pub await_recreated : (namespace pod_name : String) → List Claim → Cleanup
  unfolding check_pvc pod_deletions after_recreation await_recreation
  await_recreated namespace pod_name [] = record { claims = []; error = none; deletions = [] }
  await_recreated namespace pod_name (c ∷ cs) =
      let rest = await_recreated namespace pod_name cs in
      let run = await_recreation c in
      after_recreation c (pod_deletions namespace pod_name c run.polls) run.result rest

  unfoldable pub delete_pvc_and_pv : (namespace pod_name : String) → List Claim → Cleanup
  unfolding delete_pvcs delete_pvs await_recreated then_cleanup is_nil
  delete_pvc_and_pv namespace pod_name pvcs =
      let d = delete_pvcs pvcs in
      if is_nil d.claims
      then d
      else then_cleanup d
          (then_cleanup (delete_pvs d.claims) (await_recreated namespace pod_name d.claims))
