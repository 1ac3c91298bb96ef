-- ===== src/Prelude/Texts.antt =====
-- Go's strings.Split and strings.Join for a one-character separator, and decimal numbers as
-- fmt.Sprintf("%d") prints and strconv.ParseInt(_, 10, 32) reads them.
mod Count
mod Decimal
mod Find
unfoldable pub use Count.*
unfoldable pub use Decimal.*
unfoldable pub use Find.*
use Prim.Native.Nat.{ℕ, suc, ◌+◌}
use Prim.Native.Char.{Char, code}
use Prim.Native.String.{String, ◌++◌}
use mathlib.Core.Path.{◌≡◌, refl, ap}
use mathlib.Core.List.{List, [], ◌∷◌}
use native.Mathlib.Omega.{arith}
use text.Mathlib.TextLemmas.{nil-append, cons-append, append-nil}
use draino.Prelude.Tests.{◌==◌, if◌then◌else◌, Bool-cases}
use mathlib.Core.Logic.{◌≢◌, inl, inr}
use draino.Prelude.Lists.{length}

-- Puts a character in front of the first part.
unfoldable pub cons_head : Char → List String → List String
cons_head c [] = String.◌∷◌ c "" ∷ []
cons_head c (p ∷ ps) = String.◌∷◌ c p ∷ ps

unfoldable pub split : ℕ → String → List String
unfolding cons_head
split sep String.[] = "" ∷ []
split sep (String.◌∷◌ c s) =
    let rest = split sep s in if code c == sep then "" ∷ rest else cons_head c rest

unfoldable pub join : String → List String → String
join sep [] = ""
join sep (p ∷ []) = p
join sep (p ∷ q ∷ ps) = p ++ (sep ++ join sep (q ∷ ps))

-- Every character with the code `sep` becomes `to`.
unfoldable pub replace : ℕ → Char → String → String
replace sep to String.[] = ""
replace sep to (String.◌∷◌ c s) = String.◌∷◌ (if code c == sep then to else c) (replace sep to s)

pub length-split : (sep : ℕ) (s : String) → length (split sep s) ≡ suc (occurs sep s)
unfolding split occurs
length-split sep String.[] = omega arith
length-split sep (String.◌∷◌ c s) =
    ground (arith, length-split sep s, length-cons_head c (split sep s))
  where
    length-cons_head : (d : Char) (ps : List String) → ps ≢ [] → length (cons_head d ps) ≡ length ps
    length-cons_head d [] h = absurd (h refl)
    length-cons_head d (p ∷ ps) h = refl

-- A part with no separator in it is split off whole.
pub split-append :
    (sep : ℕ) (c : Char) (p s : String)
    → code c ≡ sep
    → occurs sep p ≡ 0
    → split sep (p ++ (String.◌∷◌ c s)) ≡ p ∷ split sep s
unfolding split occurs
split-append sep c String.[] s e h = rw nil-append (ground arith)
split-append sep c (String.◌∷◌ d p) s e h =
    rw cons-append (ground (arith, split-append sep c p s e))

pub split_lacks : (sep : ℕ) (p : String) → occurs sep p ≡ 0 → split sep p ≡ p ∷ []
unfolding split occurs
split_lacks sep String.[] h = refl
split_lacks sep (String.◌∷◌ d p) h = ground (arith, split_lacks sep p)
