-- ===== src/Prelude/Texts/Decimal.antt =====
-- Decimal numbers: fmt.Sprintf("%d") and strconv.ParseInt(_, 10, 32).
use Prim.Native.Nat.{ℕ, zero, suc, ◌+◌, ◌-◌, ◌*◌, ◌/◌, ◌%◌, ◌≤◌, ◌<◌}
use Prim.Native.Char.{Char, code}
use Prim.Native.String.{String}
use mathlib.Core.Path.{◌≡◌, refl}
use mathlib.Core.Bool.{◌||◌}
use mathlib.Core.Logic.{◌⊎◌, inl, inr}
use mathlib.Core.Option.{Option, none, some}
use native.Mathlib.Omega.{arith}
use draino.Prelude.Tests.{◌==◌, ltb, leb, if◌then◌else◌, Bool-cases}
use draino.Prelude.Texts.Count.{occurs}
use draino.Prelude.Int.{ℤ, pos, negsuc}

digit : ℕ → Char
digit zero = "0"
digit (suc zero) = "1"
digit (suc (suc zero)) = "2"
digit (suc (suc (suc zero))) = "3"
digit (suc (suc (suc (suc zero)))) = "4"
digit (suc (suc (suc (suc (suc zero))))) = "5"
digit (suc (suc (suc (suc (suc (suc zero)))))) = "6"
digit (suc (suc (suc (suc (suc (suc (suc zero))))))) = "7"
digit (suc (suc (suc (suc (suc (suc (suc (suc zero)))))))) = "8"
digit _ = "9"

code-digit : (n : ℕ) → n < 10 → code (digit n) ≡ b'0' + n
unfolding digit
code-digit zero h = refl
code-digit (suc zero) h = refl
code-digit (suc (suc zero)) h = refl
code-digit (suc (suc (suc zero))) h = refl
code-digit (suc (suc (suc (suc zero)))) h = refl
code-digit (suc (suc (suc (suc (suc zero))))) h = refl
code-digit (suc (suc (suc (suc (suc (suc zero)))))) h = refl
code-digit (suc (suc (suc (suc (suc (suc (suc zero))))))) h = refl
code-digit (suc (suc (suc (suc (suc (suc (suc (suc zero)))))))) h = refl
code-digit (suc (suc (suc (suc (suc (suc (suc (suc (suc zero))))))))) h = refl
code-digit (suc (suc (suc (suc (suc (suc (suc (suc (suc (suc n)))))))))) h = absurd (omega arith)

-- The digits of `n` in front of `out`. A number has fewer digits than `suc n`.
print_from : ℕ → ℕ → String → String
print_from zero n out = out
print_from (suc f) n out =
    let more = print_from f (n / 10) (String.◌∷◌ (digit (n % 10)) out) in
    if ltb n 10 then String.◌∷◌ (digit n) out else more

unfoldable pub print_nat : ℕ → String
unfolding print_from digit
print_nat n = print_from (suc n) n ""

unfoldable pub print_int : ℤ → String
unfolding print_nat
print_int (pos n) = print_nat n
print_int (negsuc n) = String.◌∷◌ "-" (print_nat (suc n))

scan : String → ℕ → Option ℕ
scan String.[] acc = some acc
scan (String.◌∷◌ c s) acc =
    let d = code c - b'0' in
    let rest = scan s (acc * 10 + d) in
    if ltb (code c) b'0' || ltb b'9' (code c) then none else rest

-- At least one digit, and digits alone.
parse_digits : String → Option ℕ
unfolding scan
parse_digits String.[] = none
parse_digits (String.◌∷◌ c s) = scan (String.◌∷◌ c s) 0

in_range : ℕ → Option ℕ → Option ℕ
in_range max none = none
in_range max (some n) = if leb n max then some n else none

negate : Option ℕ → Option ℤ
negate none = none
negate (some zero) = some (pos 0)
negate (some (suc n)) = some (negsuc n)

positive : Option ℕ → Option ℤ
positive none = none
positive (some n) = some (pos n)

-- strconv.ParseInt(s, 10, bits), where `half` is 2 ^ (bits - 1): `none` where it returns an error.
unfoldable pub parse_int : ℕ → String → Option ℤ
unfolding parse_digits in_range negate positive
parse_int half String.[] = none
parse_int half (String.◌∷◌ c s) =
    if code c == b'-'
    then negate (in_range half (parse_digits s))
    else if code c == b'+'
    then positive (in_range (half - 1) (parse_digits s))
    else positive (in_range (half - 1) (parse_digits (String.◌∷◌ c s)))

scan-print_from : (f n : ℕ) (out : String) → n < f → scan (print_from f n out) 0 ≡ scan out n
unfolding print_from scan
scan-print_from zero n out h = absurd (omega arith)
scan-print_from (suc f) n out h = elim (Bool-cases (ltb n 10)) [
  | inl small ↦ rw small (ground (arith, code-digit n))
  | inr large ↦ rw large (
      rw (scan-print_from f (n / 10) (String.◌∷◌ (digit (n % 10)) out) (ground arith))
        (ground (arith, code-digit (n % 10))))
]

-- A printed number begins with a digit.
record IsPrinted (t : String) : Type 0 where
  first : Char
  rest : String
  split_off : t ≡ String.◌∷◌ first rest
  low : b'0' ≤ code first
  high : code first ≤ b'9'

print_from-IsPrinted : (f n : ℕ) (out : String) → n < f → IsPrinted (print_from f n out)
unfolding print_from
print_from-IsPrinted zero n out h = absurd (omega arith)
print_from-IsPrinted (suc f) n out h = elim (Bool-cases (ltb n 10)) [
  | inl small ↦ rw small (record {
    first = digit n;
    rest = out;
    split_off = refl;
    low = ground (arith, code-digit n);
    high = ground (arith, code-digit n);
  })
  | inr large ↦
      rw large (print_from-IsPrinted f (n / 10) (String.◌∷◌ (digit (n % 10)) out) (ground arith))
]

read_first :
    (half : ℕ) (c : Char) (s : String) (n : ℕ)
    → b'0' ≤ code c
    → code c ≤ b'9'
    → scan (String.◌∷◌ c s) 0 ≡ some n
    → n < half
    → parse_int half (String.◌∷◌ c s) ≡ some (pos n)
unfolding parse_int
read_first half c s n low high e h = ground arith

read_IsPrinted :
    (half : ℕ) (t : String) (n : ℕ)
    → IsPrinted t
    → scan t 0 ≡ some n
    → n < half
    → parse_int half t ≡ some (pos n)
unfolding parse_int
read_IsPrinted half t n p e h =
    rw p.split_off (read_first half p.first p.rest n p.low p.high (rw p.split_off at e) h)

-- Reading back a printed number.
pub parse_int-print_int :
    (half n : ℕ) → n < half → parse_int half (print_int (pos n)) ≡ some (pos n)
unfolding print_int scan
parse_int-print_int half n h =
    read_IsPrinted half (print_nat n) n (print_from-IsPrinted (suc n) n "" (omega arith))
      (scan-print_from (suc n) n "" (omega arith)) h

occurs-print_from :
    (sep f n : ℕ) (out : String)
    → (sep < b'0') ⊎ (b'9' < sep)
    → occurs sep out ≡ 0
    → occurs sep (print_from f n out) ≡ 0
unfolding print_from occurs
occurs-print_from sep zero n out h e = e
occurs-print_from sep (suc f) n out h e = ground (
  arith,
  code-digit n,
  code-digit (n % 10),
  occurs-print_from sep f (n / 10) (String.◌∷◌ (digit (n % 10)) out) h,
)

-- A character that is no digit does not occur in a printed number.
pub occurs-print_int : (sep n : ℕ) → b'9' < sep → occurs sep (print_int (pos n)) ≡ 0
unfolding print_int occurs
occurs-print_int sep n h = occurs-print_from sep (suc n) n "" (inr h) refl

pub occurs_low-print_int : (sep n : ℕ) → sep < b'0' → occurs sep (print_int (pos n)) ≡ 0
unfolding print_int occurs
occurs_low-print_int sep n h = occurs-print_from sep (suc n) n "" (inl h) refl
