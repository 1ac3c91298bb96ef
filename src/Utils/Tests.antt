-- ===== src/Utils/Tests.antt =====
-- A map that takes over one of two keys.
use draino.Prelude.{ℕ, ◌≡◌, refl, [], ◌∷◌, none, some, Dict, lookup, insert}
use draino.Prelude.Texts.{join}
use draino.Utils.{join_errors, set, get, is_server_side, inject}
use draino.Utils.Inject.{IsMap}

abbrev shown : Dict ℕ
shown = ("_cache", 1) ∷ ("nodes", 2) ∷ []

joined : join_errors ("a" ∷ "b" ∷ []) ";" ≡ some "a;b"
unfolding join_errors join
joined = refl

hidden : get "_cache" (inject shown (set "nodes" 7 [])) ≡ none
unfolding get inject set is_server_side insert lookup
hidden = refl

each_once : IsMap shown
unfolding lookup
each_once = (refl, (refl, tt))
