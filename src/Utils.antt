-- ===== src/Utils.antt =====
-- internal/kubernetes/utils: error.go, and the map with a lock of datamap.go, whose methods hold the
-- lock and are one step each.
pub mod Inject
mod Tests
use Prim.Native.Char.{code}
use draino.Prelude.{
  String, Bool, true, false, List, [], ◌∷◌, Option, none, some, if◌then◌else◌, ◌==◌, Dict, lookup,
  insert,
}
use draino.Prelude.Texts.{join}

-- JoinErrors, on the texts of the errors.
unfoldable pub join_errors : List String → (separator : String) → Option String
join_errors [] separator = none
join_errors (e ∷ es) separator = some (join separator (e ∷ es))

module _ {V : Type 0} where
  unfoldable pub set : String → V → Dict V → Dict V
  set k v m = insert k v m

  unfoldable pub get : String → Dict V → Option V
  get k m = lookup k m

-- Keys that start with "_" are not passed on.
unfoldable pub is_server_side : String → Bool
is_server_side String.[] = false
is_server_side (String.◌∷◌ c s) = code c == b'_'

-- Inject, on the entries of the other map in the order in which it is iterated.
unfoldable pub inject : {V : Type 0} → List (String × V) → Dict V → Dict V
inject [] m = m
inject ((k, v) ∷ entries) m = inject entries (if is_server_side k then m else insert k v m)
