-- ===== src/Simulator/Cache.antt =====
-- The cache with a time to live.
use draino.Prelude.{
  ◌≡◌, refl, String, [], ◌∷◌, none, some, ◌+ℤ◌, ◌≤ℤ◌, ltb_ℤ, if◌then◌else◌, Dict, lookup,
  lookup-insert, str_eq, eq_iff, arith,
}
use draino.K8s.{Time, Duration}
use draino.Simulator.{TtlEntry, cache_get, add_custom_ttl, cleanup}

-- A Go map has a key once.
abbrev pub IsMap : {T : Type 0} → Dict (TtlEntry T) → Type 0
IsMap [] = Unit
IsMap ((key, e) ∷ m) = (lookup key m ≡ none) × IsMap m

pub get-add :
    {T : Type 0} (key other : String) (val : T) (ttl : Duration) (now later : Time)
    (cache : Dict (TtlEntry T))
    → cache_get other later (add_custom_ttl key val ttl now cache) ≡ (
        if str_eq key other
        then (if ltb_ℤ (now +ℤ ttl) later then none else some val)
        else cache_get other later cache)
unfolding cache_get add_custom_ttl
get-add key other val ttl now later cache =
    ground (arith, lookup-insert key other (record { expires = now +ℤ ttl; entry = val }) cache)

cleanup-lacks :
    {T : Type 0} (key : String) (now : Time) (m : Dict (TtlEntry T))
    → lookup key m ≡ none
    → lookup key (cleanup now m) ≡ none
unfolding cleanup lookup
cleanup-lacks key now [] h = refl
cleanup-lacks key now ((j, e) ∷ m) h = ground (arith, cleanup-lacks key now m)

-- A cleanup changes no answer of the cache from its time on, if the cache has each key once.
cache_get-cleanup :
    {T : Type 0} (key : String) (cleaned later : Time) (m : Dict (TtlEntry T))
    → IsMap m
    → cleaned ≤ℤ later
    → cache_get key later (cleanup cleaned m) ≡ cache_get key later m
unfolding cache_get cleanup lookup
cache_get-cleanup key cleaned later [] h k = refl
cache_get-cleanup key cleaned later ((j, e) ∷ m) h k = ground (
  arith,
  h.0,
  k,
  eq_iff j key,
  cleanup-lacks j cleaned m,
  cache_get-cleanup key cleaned later m h.1 k,
)
