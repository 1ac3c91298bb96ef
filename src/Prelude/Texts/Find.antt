-- ===== src/Prelude/Texts/Find.antt =====
-- Go's strings.HasPrefix and strings.Contains, and the first part that strings.Split gives for a
-- separator of several characters.
use Prim.Native.Char.{Char, code}
use Prim.Native.String.{String, ◌++◌}
use mathlib.Core.Path.{◌≡◌, refl}
use mathlib.Core.Bool.{Bool, true, false, ◌&&◌, ◌||◌}
use native.Mathlib.Omega.{arith}
use text.Mathlib.TextLemmas.{nil-append, cons-append}
use draino.Prelude.Tests.{◌==◌, if◌then◌else◌}
use draino.Prelude.Texts.Count.{occurs}

unfoldable pub starts_with : (p s : String) → Bool
starts_with String.[] s = true
starts_with (String.◌∷◌ c p) String.[] = false
starts_with (String.◌∷◌ c p) (String.◌∷◌ d s) = (code c == code d) && starts_with p s

unfoldable pub contains : (p s : String) → Bool
unfolding starts_with
contains p String.[] = starts_with p ""
contains p (String.◌∷◌ d s) = starts_with p (String.◌∷◌ d s) || contains p s

unfoldable pub first_part : (sep s : String) → String
unfolding starts_with
first_part sep String.[] = ""
first_part sep (String.◌∷◌ c s) =
    let rest = first_part sep s in
    if starts_with sep (String.◌∷◌ c s) then "" else String.◌∷◌ c rest

pub contains_lacks :
    (c : Char) (p s : String) → occurs (code c) s ≡ 0 → contains (String.◌∷◌ c p) s ≡ false
unfolding contains occurs
contains_lacks c p String.[] h = refl
contains_lacks c p (String.◌∷◌ d s) h = ground (arith, contains_lacks c p s)

pub starts_with-append : (p s : String) → starts_with p (p ++ s) ≡ true
unfolding starts_with
starts_with-append String.[] s = refl
starts_with-append (String.◌∷◌ c p) s = rw cons-append (ground (arith, starts_with-append p s))

contains_of_starts : (p s : String) → starts_with p s ≡ true → contains p s ≡ true
unfolding contains
contains_of_starts p String.[] h = h
contains_of_starts p (String.◌∷◌ d s) h = rw h refl

-- A text that holds `p` holds it behind any other.
pub contains_behind : (p a s : String) → contains p s ≡ true → contains p (a ++ s) ≡ true
unfolding contains
contains_behind p String.[] s h = rw nil-append h
contains_behind p (String.◌∷◌ d a) s h = rw cons-append (ground (arith, contains_behind p a s h))

pub contains_at : (p s : String) → contains p (p ++ s) ≡ true
contains_at p s = contains_of_starts p (p ++ s) (starts_with-append p s)

-- A part that lacks the separator's first character is split off whole.
pub first_part-append :
    (c : Char) (p a s : String)
    → occurs (code c) a ≡ 0
    → first_part (String.◌∷◌ c p) (a ++ ((String.◌∷◌ c p) ++ s)) ≡ a
unfolding first_part occurs
first_part-append c p String.[] s h =
    rw (nil-append, cons-append) (ground (arith, starts_with-append p s))
first_part-append c p (String.◌∷◌ d a) s h =
    rw cons-append (ground (arith, first_part-append c p a s))
