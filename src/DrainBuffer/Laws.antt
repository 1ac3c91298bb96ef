-- ===== src/DrainBuffer/Laws.antt =====
-- What the drain buffer promises to the drain_buffer filter and to the drain runner.
use draino.Prelude.{
  ◌≡◌, refl, String, Bool, true, false, [], ◌∷◌, Option, none, some, pos, ◌+ℤ◌, ◌≤ℤ◌, ltb_ℤ,
  if◌then◌else◌, Dict, lookup, insert, lookup-insert, arith, eq_iff, str_eq, inl, inr, Bool-cases,
}
use draino.K8s.{Time, Duration}
use draino.DrainBuffer.{
  DrainCacheEntry, DrainBuffer, store_drain_attempt, until, next_drain, cleanup_entries,
  cleanup_cache,
}

-- A key is at most once in a Go map.
abbrev pub IsMap : Dict DrainCacheEntry → Type 0
IsMap [] = Unit
IsMap ((key, e) ∷ m) = (lookup key m ≡ none) × IsMap m

-- A drain attempt closes the group until the buffer has passed, and leaves every other group as it
-- was, if the buffer is initialized.
next_drain-store_drain_attempt :
    (key other : String) (buffer : Duration) (now : Time) (b : DrainBuffer)
    → b.is_initialized ≡ true
    → (c : DrainBuffer) × (store_drain_attempt key buffer now b ≡ some c)
      × (next_drain other c
          ≡ (if str_eq key other then some (now +ℤ buffer) else next_drain other b))
unfolding store_drain_attempt next_drain until
next_drain-store_drain_attempt key other buffer now b h = (
  record b {
    cache = insert key (record { last_drain = now; drain_buffer = buffer }) b.cache;
    is_dirty = true;
  },
  ground (arith, h),
  ground (
    arith,
    h,
    lookup-insert key other (record { last_drain = now; drain_buffer = buffer }) b.cache,
  ),
)

-- A group that has a time that has passed may be drained: the test of the drain_buffer filter.
unfoldable pub may_drain : Option Time → Time → Bool
may_drain none now = false
may_drain (some t) now = ltb_ℤ t now

cleanup_lacks :
    (key : String) (now : Time) (m : Dict DrainCacheEntry)
    → lookup key m ≡ none
    → lookup key (cleanup_entries now m).0 ≡ none
unfolding cleanup_entries lookup
cleanup_lacks key now [] h = refl
cleanup_lacks key now ((j, e) ∷ m) h = ground (arith, cleanup_lacks key now m)

-- What the cleanup leaves of an entry.
unfoldable pub remains : Time → Option DrainCacheEntry → Option DrainCacheEntry
remains now none = none
remains now (some e) = if ltb_ℤ (until e) now then none else some e

lookup-cleanup_entries :
    (key : String) (now : Time) (m : Dict DrainCacheEntry)
    → IsMap m
    → lookup key (cleanup_entries now m).0 ≡ remains now (lookup key m)
unfolding cleanup_entries lookup remains
lookup-cleanup_entries key now [] h = refl
lookup-cleanup_entries key now ((j, e) ∷ m) h =
    ground (arith, eq_iff j key, lookup-cleanup_entries key now m, cleanup_lacks j now m)

-- A cleanup changes nothing for the filter: from the time of the cleanup on, a group may be drained
-- after it exactly if it might before, if the cache has each key once and the clock is past Go's
-- zero time.
may_drain-cleanup_cache :
    (key : String) (cleaned now : Time) (b : DrainBuffer)
    → IsMap b.cache
    → pos 1 ≤ℤ now
    → cleaned ≤ℤ now
    → may_drain (next_drain key (cleanup_cache cleaned b)) now ≡ may_drain (next_drain key b) now
unfolding cleanup_cache next_drain may_drain remains
may_drain-cleanup_cache key cleaned now b h k l =
    ground (arith, lookup-cleanup_entries key cleaned b.cache h)

-- The operations keep each key once.
pub insert-IsMap :
    (key : String) (e : DrainCacheEntry) (m : Dict DrainCacheEntry)
    → IsMap m
    → IsMap (insert key e m)
unfolding insert
insert-IsMap key e_new [] h = (unfold lookup in refl, tt)
insert-IsMap key e_new ((j, d) ∷ m) h = elim (Bool-cases (str_eq j key)) [
  | inl e ↦ rw (e) (ground (arith, eq_iff j key), h.1)
  | inr e ↦ rw (e) (
    ground (arith, eq_iff j key, eq_iff key j, lookup-insert key j e_new m),
    insert-IsMap key e_new m h.1,
  )
]

pub cleanup_entries-IsMap :
    (now : Time) (m : Dict DrainCacheEntry) → IsMap m → IsMap (cleanup_entries now m).0
unfolding cleanup_entries
cleanup_entries-IsMap now [] h = tt
cleanup_entries-IsMap now ((j, d) ∷ m) h = elim (Bool-cases (ltb_ℤ (until d) now)) [
  | inl e ↦ rw (e) (cleanup_entries-IsMap now m h.1)
  | inr e ↦ rw (e) (cleanup_lacks j now m h.0, cleanup_entries-IsMap now m h.1)
]
