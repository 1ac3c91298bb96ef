-- ===== src/Labels/Kept.antt =====
-- internal/kubernetes/nodefilters.go: the labels that ConvertLabelsToFilterExpr collects.
use draino.Prelude.{String, Bool, false, Option, none, some, str_eq, Dict, lookup}
use draino.Labels.{Labels}

abbrev pub holds : Option String → String → Bool
holds none value = false
holds (some v) value = str_eq v value

-- The label's value is what the map has under its key.
abbrev pub kept : Option (String × String) → Dict String → Bool
kept none m = false
kept (some (key, value)) m = holds (lookup key m) value
