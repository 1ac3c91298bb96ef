-- ===== src/DrainBuffer/Tests.antt =====
-- A drain buffer that one group has used, a codec that keeps the map as it is, and a concrete
-- instance of each theorem.
use draino.Prelude.{
  ◌≡◌, refl, true, false, [], ◌∷◌, none, some, pos, ◌+ℤ◌, Dict, arith, lookup, insert,
}
use draino.K8s.{minute}
use draino.DrainBuffer.{
  DrainCacheEntry, DrainBuffer, new_drain_buffer, store_drain_attempt, next_drain, initialize,
  cleanup_cache, cleanup_entries, cleanup_and_persist, until,
}
use draino.DrainBuffer.Persistence.{
  Codec, ReadsBack, load, stored_after, Reachable, starts, initializes, drains, next_drain-restart,
}

abbrev used_buffer : DrainBuffer
used_buffer = record {
  is_initialized = true;
  is_dirty = true;
  cache = ("a", record { last_drain = pos 100; drain_buffer = pos 10 }) ∷ [];
  default_drain_buffer = pos minute;
}

abbrev fresh_buffer : DrainBuffer
fresh_buffer = new_drain_buffer (pos minute)

abbrev plain_codec : Codec (Dict DrainCacheEntry)
plain_codec = record { marshal = λ m. some m; unmarshal = λ d m. (d, true) }

abbrev loaded_buffer : DrainBuffer
loaded_buffer = (initialize plain_codec.unmarshal (load false none) fresh_buffer).0

used_buffer-Reachable : Reachable plain_codec (pos minute) used_buffer none
unfolding initialize load new_drain_buffer store_drain_attempt insert
used_buffer-Reachable = drains "a" (pos 10) (pos 100) refl (initializes false starts)

abbrev empty_cache : Dict DrainCacheEntry
empty_cache = []

used_buffer_once : lookup "a" empty_cache ≡ none
unfolding lookup
used_buffer_once = refl

pass_succeeds : (cleanup_and_persist plain_codec.marshal (λ d. true) (pos 105) used_buffer).2 ≡ true
unfolding cleanup_and_persist cleanup_cache cleanup_entries until ◌+ℤ◌
pass_succeeds = refl

plain-ReadsBack : ReadsBack plain_codec
plain-ReadsBack m d e = ground (arith, e)

next_drain-restart_example :
    next_drain "a"
      (initialize plain_codec.unmarshal
        (load false (
          stored_after
            (λ d. true)
            (cleanup_and_persist plain_codec.marshal (λ d. true) (pos 105) used_buffer).1
            none))
        fresh_buffer).0
    ≡ next_drain "a" (cleanup_and_persist plain_codec.marshal (λ d. true) (pos 105) used_buffer).0
next_drain-restart_example =
    next_drain-restart plain_codec (pos minute) used_buffer none (λ d. true) (pos 105) "a"
      plain-ReadsBack used_buffer-Reachable refl pass_succeeds
