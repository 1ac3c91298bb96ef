-- ===== src/Prelude/Texts/Count.antt =====
-- Counting a character in a text.
use Prim.Native.Nat.{ℕ, ◌+◌}
use Prim.Native.Char.{code}
use Prim.Native.String.{String, ◌++◌}
use mathlib.Core.Path.{◌≡◌}
use native.Mathlib.Omega.{arith}
use text.Mathlib.TextLemmas.{nil-append, cons-append}
use draino.Prelude.Tests.{◌==◌, if◌then◌else◌}

-- How often a character occurs.
unfoldable pub occurs : ℕ → String → ℕ
occurs sep String.[] = 0
occurs sep (String.◌∷◌ c s) = (if code c == sep then 1 else 0) + occurs sep s

pub occurs-append : (sep : ℕ) (s t : String) → occurs sep (s ++ t) ≡ occurs sep s + occurs sep t
unfolding occurs
occurs-append sep String.[] t = rw nil-append (omega arith)
occurs-append sep (String.◌∷◌ c s) t = rw cons-append (omega (arith, occurs-append sep s t))
