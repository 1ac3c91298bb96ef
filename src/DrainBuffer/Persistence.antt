-- ===== src/DrainBuffer/Persistence.antt =====
-- The drain buffer over its life: attempts, passes of the persistence loop, and restarts of the
-- process, with what the backend holds. A backend without a config map, or with one that lacks the
-- key, holds nothing.
use draino.Prelude.{
  ◌≡◌, refl, String, Bool, true, false, [], ◌∷◌, Option, none, some, ap, if◌then◌else◌, Dict,
  lookup, arith, Option-cases, inl, inr,
}
use draino.K8s.{Time, Duration}
use draino.DrainBuffer.{
  DrainCacheEntry, DrainBuffer, Loaded, load_error, no_data, found, new_drain_buffer,
  store_drain_attempt, next_drain, initialize, cleanup_entries, cleanup_cache, cleanup_and_persist,
}

-- json.Marshal and json.Unmarshal.
pub record Codec (D : Type 0) : Type 0 where
  pub marshal : Dict DrainCacheEntry → Option D
  pub unmarshal : D → Dict DrainCacheEntry → Dict DrainCacheEntry × Bool

-- What was marshalled is read back into an empty map.
abbrev pub ReadsBack : {D : Type 0} → Codec D → Type 0
ReadsBack {D = D} codec =
    (m : Dict DrainCacheEntry) (d : D) → codec.marshal m ≡ some d → codec.unmarshal d [] ≡ (m, true)

-- ConfigMapPersistor.Load: whether the client failed, then what is stored.
unfoldable pub load : {D : Type 0} → Bool → Option D → Loaded D
load true stored = load_error
load false none = no_data
load false (some d) = found d

-- What the backend holds after a pass handed it data that it accepted.
unfoldable pub stored_after : {D : Type 0} → (persist : D → Bool) → Option D → Option D → Option D
stored_after persist none stored = stored
stored_after persist (some d) stored = if persist d then some d else stored

module _ {D : Type 0} (codec : Codec D) (default_buffer : Duration) where
  -- One process and the backend that it shares with the next one.
  pub data Reachable : DrainBuffer → Option D → Type 0 where
    starts : Reachable (new_drain_buffer default_buffer) none
    initializes :
        {b : DrainBuffer} {stored : Option D} (client_fails : Bool)
        → Reachable b stored
        → Reachable (initialize codec.unmarshal (load client_fails stored) b).0 stored
    drains :
        {b c : DrainBuffer} {stored : Option D} (key : String) (buffer : Duration) (now : Time)
        → store_drain_attempt key buffer now b ≡ some c
        → Reachable b stored
        → Reachable c stored
    persists :
        {b : DrainBuffer} {stored : Option D} (persist : D → Bool) (now : Time)
        → Reachable b stored
        → Reachable
            (cleanup_and_persist codec.marshal persist now b).0
            (stored_after persist (cleanup_and_persist codec.marshal persist now b).1 stored)
    restarts :
        {b : DrainBuffer} {stored : Option D}
        → Reachable b stored
        → Reachable (new_drain_buffer default_buffer) stored

  -- The backend's data read into an empty map.
  unfoldable pub content : Option D → Dict DrainCacheEntry × Bool
  content none = ([], true)
  content (some d) = codec.unmarshal d []

  -- A buffer that was not loaded is empty, and one that is clean holds what the backend does.
  record Synced (b : DrainBuffer) (stored : Option D) : Type 0 where
    readable : (content stored).1 ≡ true
    unloaded : b.is_initialized ≡ false → b.cache ≡ []
    clean : b.is_initialized ≡ true → b.is_dirty ≡ false → (content stored).0 ≡ b.cache

  unmarshal_unloaded :
      (b : DrainBuffer) (d : D)
      → Synced b (some d)
      → b.is_initialized ≡ false
      → codec.unmarshal d b.cache ≡ codec.unmarshal d []
  unmarshal_unloaded b d s e = ap (codec.unmarshal d) (s.unloaded e)

  initialize-Synced :
      (client_fails : Bool) (b : DrainBuffer) (stored : Option D)
      → Synced b stored
      → Synced (initialize codec.unmarshal (load client_fails stored) b).0 stored
  unfolding initialize load content
  initialize-Synced true b none s = record {
    readable = refl;
    unloaded = ground (arith, s.unloaded);
    clean = ground (arith, s.clean);
  }
  initialize-Synced true b (some d) s = record {
    readable = s.readable;
    unloaded = ground (arith, s.unloaded);
    clean = ground (arith, s.clean);
  }
  initialize-Synced false b none s = record {
    readable = refl;
    unloaded = ground (arith, s.unloaded);
    clean = ground (arith, s.unloaded, s.clean);
  }
  initialize-Synced false b (some d) s = record {
    readable = s.readable;
    unloaded = ground (arith, s.readable, s.unloaded, unmarshal_unloaded b d s);
    clean = ground (arith, s.readable, s.unloaded, s.clean, unmarshal_unloaded b d s);
  }

  drain-Synced :
      (key : String) (buffer : Duration) (now : Time) (b c : DrainBuffer) (stored : Option D)
      → store_drain_attempt key buffer now b ≡ some c
      → Synced b stored
      → Synced c stored
  unfolding store_drain_attempt
  drain-Synced key buffer now b c stored e s = record {
    readable = s.readable;
    unloaded = ground arith;
    clean = ground arith;
  }

  cleanup_entries_same :
      (now : Time) (m : Dict DrainCacheEntry)
      → (cleanup_entries now m).1 ≡ false
      → (cleanup_entries now m).0 ≡ m
  unfolding cleanup_entries
  cleanup_entries_same now [] h = refl
  cleanup_entries_same now ((j, e) ∷ m) h = ground (arith, cleanup_entries_same now m)

  cleanup-Synced :
      (now : Time) (b : DrainBuffer) (stored : Option D)
      → Synced b stored
      → Synced (cleanup_cache now b) stored
  unfolding cleanup_cache
  cleanup-Synced now b stored s = record {
    readable = s.readable;
    unloaded = ground (arith, s.unloaded);
    clean = ground (arith, s.clean, cleanup_entries_same now b.cache);
  }

  cleanup_keeps_flag :
      (now : Time) (b : DrainBuffer) → (cleanup_cache now b).is_initialized ≡ b.is_initialized
  unfolding cleanup_cache
  cleanup_keeps_flag now b = ground arith

  persist-Synced :
      (persist : D → Bool) (now : Time) (b : DrainBuffer) (stored : Option D)
      → ReadsBack codec
      → Synced b stored
      → Synced
          (cleanup_and_persist codec.marshal persist now b).0
          (stored_after persist (cleanup_and_persist codec.marshal persist now b).1 stored)
  unfolding cleanup_and_persist stored_after content
  persist-Synced persist now b stored law s =
      let c = cleanup_cache now b in
      let t = cleanup-Synced now b stored s in
      let flag = cleanup_keeps_flag now b in
      elim (Option-cases (codec.marshal c.cache)) [
        | inl e ↦ record {
          readable = ground (arith, s.readable, e);
          unloaded = ground (arith, s.unloaded, t.unloaded, flag);
          clean = ground (arith, s.clean, t.clean, flag, e);
        }
        | inr (d, e) ↦ record {
          readable = ground (arith, s.readable, e, law c.cache d e);
          unloaded = ground (arith, s.unloaded, t.unloaded, flag);
          clean = ground (arith, s.clean, t.clean, flag, e, law c.cache d e);
        }
      ]

  Reachable-Synced :
      {b : DrainBuffer} {stored : Option D} → ReadsBack codec → Reachable b stored → Synced b stored
  unfolding new_drain_buffer
  Reachable-Synced law starts = record {
    readable = unfold content in refl;
    unloaded = λ _. refl;
    clean = λ e. ground arith;
  }
  Reachable-Synced law (initializes client_fails r) =
      initialize-Synced client_fails _ _ (Reachable-Synced law r)
  Reachable-Synced law (drains key buffer now e r) =
      drain-Synced key buffer now _ _ _ e (Reachable-Synced law r)
  Reachable-Synced law (persists persist now r) =
      persist-Synced persist now _ _ law (Reachable-Synced law r)
  Reachable-Synced law (restarts r) = record {
    readable = (Reachable-Synced law r).readable;
    unloaded = λ _. refl;
    clean = λ e. ground arith;
  }

next_drain-Synced :
    {D : Type 0} (codec : Codec D) (default_buffer : Duration) (b : DrainBuffer) (stored : Option D)
    (key : String)
    → Synced codec default_buffer b stored
    → b.is_initialized ≡ true
    → b.is_dirty ≡ false
    → next_drain key
        (initialize codec.unmarshal (load false stored) (new_drain_buffer default_buffer)).0
      ≡ next_drain key b
unfolding next_drain initialize load new_drain_buffer content
next_drain-Synced codec default_buffer b none key s e h =
    ground (arith, e, ap (lookup key) (s.clean e h))
next_drain-Synced codec default_buffer b (some d) key s e h =
    ground (arith, e, s.readable, ap (lookup key) (s.clean e h))

-- A pass of the loop that met no error leaves a loaded buffer with nothing to persist.
cleanup_and_persist-clean :
    {D : Type 0} (codec : Codec D) (persist : D → Bool) (now : Time) (b : DrainBuffer)
    → b.is_initialized ≡ true
    → (cleanup_and_persist codec.marshal persist now b).2 ≡ true
    → ((cleanup_and_persist codec.marshal persist now b).0.is_initialized ≡ true)
      × ((cleanup_and_persist codec.marshal persist now b).0.is_dirty ≡ false)
unfolding cleanup_and_persist cleanup_cache
cleanup_and_persist-clean codec persist now b h e = (ground (arith, h, e), ground (arith, h, e))

-- After a pass of the persistence loop that met no error, at any moment of the life of a process
-- that has loaded its buffer, the next process loads a buffer that gives every group the same next
-- drain, if JSON reads back what it wrote.
pub next_drain-restart :
    {D : Type 0} (codec : Codec D) (default_buffer : Duration) (b : DrainBuffer) (stored : Option D)
    (persist : D → Bool) (now : Time) (key : String)
    → ReadsBack codec
    → Reachable codec default_buffer b stored
    → b.is_initialized ≡ true
    → (cleanup_and_persist codec.marshal persist now b).2 ≡ true
    → next_drain key
        (initialize codec.unmarshal
          (load false
            (stored_after persist (cleanup_and_persist codec.marshal persist now b).1 stored))
          (new_drain_buffer default_buffer)).0
      ≡ next_drain key (cleanup_and_persist codec.marshal persist now b).0
next_drain-restart codec default_buffer b stored persist now key law r h e =
    let synced = Reachable-Synced codec default_buffer law (persists persist now r) in
    let flags = cleanup_and_persist-clean codec persist now b h e in
    next_drain-Synced codec default_buffer _ _ key synced flags.0 flags.1
