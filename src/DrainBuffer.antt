-- ===== src/DrainBuffer.antt =====
-- internal/drain_buffer: drain_buffer.go and persistence.go. The state is the cache with its two
-- flags; the clock's reading, what the config map client answers, and the JSON codec are arguments.
-- A lock is held through each operation, so an operation is one step.
pub mod Laws
mod Persistence
mod Tests
use draino.Prelude.{
  String, Bool, true, false, not, List, [], ◌∷◌, Option, none, some, ℤ, ◌+ℤ◌, ltb_ℤ, if◌then◌else◌,
  Dict, lookup, insert, delete,
}
use draino.K8s.{Time, Duration, time_zero}

pub record DrainCacheEntry : Type 0 where
  pub last_drain : Time
  pub drain_buffer : Duration

pub record DrainBuffer : Type 0 where
  pub is_initialized : Bool
  pub is_dirty : Bool
  pub cache : Dict DrainCacheEntry
  pub default_drain_buffer : Duration

unfoldable pub new_drain_buffer : Duration → DrainBuffer
new_drain_buffer default_drain_buffer = record {
  is_initialized = false;
  is_dirty = false;
  cache = [];
  default_drain_buffer = default_drain_buffer;
}

-- `none` is the error before the initialization.
unfoldable pub store_drain_attempt : String → Duration → Time → DrainBuffer → Option DrainBuffer
store_drain_attempt key drain_buffer now b =
    if not b.is_initialized
    then none
    else some (record b {
      cache = insert key (record { last_drain = now; drain_buffer = drain_buffer }) b.cache;
      is_dirty = true;
    })

unfoldable pub until : DrainCacheEntry → Time
until e = e.last_drain +ℤ e.drain_buffer

unfoldable pub next_drain : String → DrainBuffer → Option Time
unfolding until
next_drain key b =
    if not b.is_initialized
    then none
    else elim (lookup key b.cache) [ none ↦ some time_zero | some entry ↦ some (until entry) ]

-- What a persistor's Load answers: an error, no data, or data.
pub data Loaded (D : Type 0) : Type 0 where
  load_error : Loaded D
  no_data : Loaded D
  found : D → Loaded D

-- json.Unmarshal into the cache that is there: what it leaves in it, and whether it succeeded.
unfoldable pub initialize :
    {D : Type 0}
    → (unmarshal : D → Dict DrainCacheEntry → Dict DrainCacheEntry × Bool) → Loaded D
    → DrainBuffer
    → DrainBuffer × Bool
initialize unmarshal answer b = if b.is_initialized then (b, true) else elim answer [
  | load_error ↦ (b, false)
  | no_data ↦ (record b { is_initialized = true }, true)
  | found data_read ↦
      let r = unmarshal data_read b.cache in
      if r.1
      then (record b { cache = r.0; is_initialized = true }, true)
      else (record b { cache = r.0 }, false)
]

-- The range over the cache: what it keeps, and whether it deleted something.
unfoldable pub cleanup_entries : Time → Dict DrainCacheEntry → Dict DrainCacheEntry × Bool
unfolding until
cleanup_entries now [] = ([], false)
cleanup_entries now ((key, entry) ∷ m) =
    let rest = cleanup_entries now m in
    if ltb_ℤ (until entry) now then (rest.0, true) else ((key, entry) ∷ rest.0, rest.1)

unfoldable pub cleanup_cache : Time → DrainBuffer → DrainBuffer
cleanup_cache now b =
    if not b.is_initialized
    then b
    else let r = cleanup_entries now b.cache in
      record b { cache = r.0; is_dirty = if r.1 then true else b.is_dirty }

-- The buffer, the data handed to the persistor if there were any, and whether there was no error.
unfoldable pub cleanup_and_persist :
    {D : Type 0}
    → (marshal : Dict DrainCacheEntry → Option D) → (persist : D → Bool) → Time
    → DrainBuffer
    → DrainBuffer × Option D × Bool
cleanup_and_persist marshal persist now b =
    if not b.is_initialized
    then (b, none, true)
    else let c = cleanup_cache now b in
      if not c.is_dirty then (c, none, true) else elim (marshal c.cache) [
        | none ↦ (c, none, false)
        | some bytes ↦
            if persist bytes
            then (record c { is_dirty = false }, some bytes, true)
            else (c, some bytes, false)
      ]

-- The greatest of the durations that the annotations give (`var max` starts at 0).
unfoldable pub max_from : Duration → List Duration → Duration
max_from m [] = m
max_from m (d ∷ ds) = max_from (if ltb_ℤ m d then d else m) ds

-- GetDrainBufferConfiguration, by the values that the search found; `none` is its error.
unfoldable pub get_drain_buffer_configuration :
    Option (List Duration) → DrainBuffer → Duration × Bool
unfolding max_from
get_drain_buffer_configuration none b = (b.default_drain_buffer, false)
get_drain_buffer_configuration (some []) b = (b.default_drain_buffer, true)
get_drain_buffer_configuration (some (d ∷ ds)) b = (max_from time_zero (d ∷ ds), true)
