-- ===== src/Patches/Tests.antt =====
-- The annotation of a pre-activity.
use draino.Prelude.{◌≡◌, refl, String, false, [], ◌∷◌, map}
use draino.Prelude.Texts.{split, occurs}
use draino.Patches.{escape_slashes, json_annotation_patch}
use draino.Patches.Pointer.{unescape, json_annotation_patch-path}

abbrev key : String
key = "node-lifecycle.datadoghq.com/pre-activity-backup"

escaped :
    (json_annotation_patch key "").path
    ≡ "/metadata/annotations/node-lifecycle.datadoghq.com~1pre-activity-backup"
unfolding json_annotation_patch escape_slashes
escaped = refl

no_tilde : occurs b'~' key ≡ 0
unfolding occurs
no_tilde = refl

json_annotation_patch-path_example :
    map (unescape false) (split b'/' (json_annotation_patch key "").path)
    ≡ "" ∷ "metadata" ∷ "annotations" ∷ key ∷ []
json_annotation_patch-path_example = json_annotation_patch-path key "" no_tilde
