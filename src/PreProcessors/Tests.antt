-- ===== src/PreProcessors/Tests.antt =====
-- Preprocessors on one node, and a concrete instance of each theorem.
use draino.Prelude.{◌≡◌, ◌≢◌, refl, true, false, [], ◌∷◌, none, some, lookup, lookup_text, pos, inl}
use draino.K8s.{Node}
use draino.DrainRunner.{Done, check_preprocessors}
use mathlib.Core.List.{mem-cons_self}
use draino.Utils.{join_errors}
use draino.PreProcessors.Reset.{
  Annotations, Patched, missing, patched, errors_of, reset_activities, reset, reset-not_started,
}
use draino.PreProcessors.{PreActivity, done, replace_request_key, has_preprovisioning_annotation}

abbrev opted_in : Node
opted_in = record {
  name = "n";
  labels = [];
  annotations = ("node-lifecycle.datadoghq.com/provision-new-node-before-drain", "true") ∷ [];
  taints = [];
  conditions = [];
  deletion_timestamp = none;
}

abbrev ready : Node → Done
ready n = done

no_abort : (check_preprocessors (ready ∷ ready ∷ []) opted_in).should_abort ≡ false
unfolding check_preprocessors
no_abort = refl

all_are_done : (check_preprocessors (ready ∷ ready ∷ []) opted_in).all_done ≡ true
unfolding check_preprocessors
all_are_done = refl

opted : has_preprovisioning_annotation opted_in false ≡ true
unfolding has_preprovisioning_annotation lookup_text lookup
opted = refl

no_label : lookup replace_request_key opted_in.labels ≡ none
unfolding lookup
no_label = refl

abbrev backup : PreActivity
backup = record {
  annotation = "pre-activity-backup";
  state = "done";
  timeout = pos 5;
  source_object = "default/db-0";
}

abbrev all_done_before : Annotations
all_done_before source key = some "done"

backup_reset : (reset (λ a. patched) (inl (("backup", backup) ∷ [])) all_done_before).1 ≡ none
unfolding reset reset_activities errors_of join_errors
backup_reset = refl

patched_not_missing : ◌≢◌ {A = Patched} patched missing
patched_not_missing e = cc

reset-not_started_example :
    (reset (λ a. patched) (inl (("backup", backup) ∷ [])) all_done_before).0.annotations
      "default/db-0" "pre-activity-backup"
    ≡ some ""
reset-not_started_example =
    reset-not_started (λ a. patched) (("backup", backup) ∷ []) all_done_before "backup" backup
      backup_reset mem-cons_self patched_not_missing
