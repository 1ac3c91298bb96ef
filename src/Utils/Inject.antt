-- ===== src/Utils/Inject.antt =====
-- internal/kubernetes/utils/datamap.go: what a map holds after Inject.
use draino.Prelude.{
  ◌≡◌, String, [], ◌∷◌, Option, none, some, if◌then◌else◌, Dict, lookup, insert, lookup-insert,
  arith, eq_iff, Bool-cases, inl, inr,
}
use draino.Utils.{is_server_side, inject}

-- A dictionary holds each key once.
abbrev pub IsMap : {V : Type 0} → Dict V → Type 0
IsMap [] = Unit
IsMap ((key, v) ∷ m) = (lookup key m ≡ none) × IsMap m

abbrev pub or_else : {V : Type 0} → Option V → Option V → Option V
or_else none o = o
or_else (some v) o = some v

-- A key that starts with an underscore, and a key that the other map lacks, keep what they had, and
-- any other key takes what the other map has, if the other map holds each key once.
inject-lookup :
    {V : Type 0} (other m : Dict V) (key : String)
    → IsMap other
    → lookup key (inject other m)
      ≡ (if is_server_side key then lookup key m else or_else (lookup key other) (lookup key m))
unfolding inject lookup
inject-lookup [] m key h = ground arith
inject-lookup ((k, v) ∷ entries) m key h = elim (Bool-cases (is_server_side k)) [
  | inl e ↦ rw e (ground (arith, inject-lookup entries m key h.1, eq_iff k key, e))
  | inr e ↦ rw e (
      ground (
        arith,
        inject-lookup entries (insert k v m) key h.1,
        lookup-insert k key v m,
        eq_iff k key,
        h.0,
        e,
      ))
]
