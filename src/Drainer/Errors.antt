-- ===== src/Drainer/Errors.antt =====
-- The typed errors of drainer.go, and failure_cause.go, which names the cause of a failed drain.
use Prim.Native.String.{◌++◌}
use draino.Prelude.{ℕ, String, Bool, pos, ltb, if◌then◌else◌}
use draino.Prelude.Texts.{print_int}

-- What the cleanup of volumes fails with.
pub data VolumeError : Type 0 where
  cannot_delete_pvc pvc_deletion_timeout : (name : String) → VolumeError
  cannot_delete_pv pv_deletion_timeout : (name : String) → VolumeError
  pvc_not_recreated : (name : String) → VolumeError

-- `api_status` is an error of the API server with its code, `other` one of no type of the package.
pub data DrainError : Type 0 where
  node_preprovisioning_timeout overlapping_disruption_budgets : DrainError
  pod_deletion_timeout eviction_aborted : DrainError
  pod_eviction_timeout : (is_eviction_pp : Bool) → DrainError
  volume_cleanup : (err : VolumeError) → DrainError
  eviction_endpoint :
      (status_code : ℕ) → (after_several_retries is_request_timeout : Bool) → DrainError
  audience_not_found : (audience : String) → DrainError
  node_has_not_draining_taint : (node_name : String) → DrainError
  api_status : (code : ℕ) → DrainError
  other : (message : String) → DrainError

unfoldable pub get_failure_cause : DrainError → String
get_failure_cause node_preprovisioning_timeout = "node_preprovisioning_timeout"
get_failure_cause overlapping_disruption_budgets = "overlapping_pod_disruption_budgets"
get_failure_cause (pod_eviction_timeout is_eviction_pp) =
    "pod_eviction_timeout" ++ (if is_eviction_pp then "_evictionpp" else "_kubeapi")
get_failure_cause pod_deletion_timeout = "pod_deletion_timeout"
get_failure_cause (volume_cleanup err) = "volume_cleanup"
get_failure_cause (eviction_endpoint status_code after_several_retries is_request_timeout) =
    "eviction_endpoint"
    ++ ((if is_request_timeout then "_request_timeout" else "")
        ++ (if ltb 0 status_code then "_" ++ print_int (pos status_code) else ""))
get_failure_cause (audience_not_found audience) = "audience_not_found"
get_failure_cause eviction_aborted = ""
get_failure_cause (node_has_not_draining_taint node_name) = ""
get_failure_cause (api_status code) = ""
get_failure_cause (other message) = ""
