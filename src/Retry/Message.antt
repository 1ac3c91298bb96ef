-- ===== src/Retry/Message.antt =====
-- retry_wall.go, the text of the condition: serializeConditionMessage and
-- unserializeConditionMessage.
use Prim.Native.String.{◌++◌}
use text.Mathlib.TextLemmas.{nil-append, cons-append}
use draino.Prelude.{
  ℕ, suc, ◌+◌, ◌^◌, ◌≡◌, ◌≢◌, ◌∙◌, refl, ◌<◌, String, List, [], ◌∷◌, Option, none, some, ℤ, pos, ap,
  arith, length,
}
use draino.Prelude.Texts.{
  split, print_int, parse_int, parse_int-print_int, occurs, occurs-append, occurs-print_int,
  length-split, split-append, split_lacks,
}
use draino.K8s.{Time}

-- retryConditionMsgSeparator, and the code of its one character.
abbrev pub separator : String
separator = "|"

abbrev pub separator_code : ℕ
separator_code = b'|'

unfoldable pub serialize : (format_time : Time → String) → ℤ → Time → String → String
serialize format_time retry_count blocked_until reason =
    print_int retry_count ++ (separator ++ (format_time blocked_until ++ (separator ++ reason)))

-- `none` where the code returns an error.
unfoldable pub read_parts : List String → Option ℤ
read_parts (count ∷ until ∷ reason ∷ []) = parse_int (2 ^ 31) count
read_parts _ = none

unfoldable pub unserialize : String → Option ℤ
unfolding read_parts
unserialize message = read_parts (split separator_code message)

separator-append : (s : String) → separator ++ s ≡ String.◌∷◌ "|" s
separator-append s = cons-append "|" "" s ∙ ap (String.◌∷◌ "|") (nil-append s)

occurs_in_serialized :
    (format_time : Time → String) (n : ℕ) (until : Time) (reason : String)
    → occurs separator_code (serialize format_time (pos n) until reason)
      ≡ 2 + occurs separator_code (format_time until) + occurs separator_code reason
unfolding serialize occurs
occurs_in_serialized format_time n until reason =
    let n_lacks = occurs-print_int separator_code n (omega arith) in
    simp (occurs-append, n_lacks)
      (occurs_two (occurs separator_code (format_time until)) (occurs separator_code reason))
  where
    occurs_two :
        (a b : ℕ)
        → 0 + (occurs separator_code separator + (a + (occurs separator_code separator + b)))
          ≡ 2 + a + b
    occurs_two a b = omega arith

-- The count of a condition message is read back, if neither the reason nor the printed time holds
-- a separator and the count fits an int32.
pub unserialize-serialize :
    (format_time : Time → String) (n : ℕ) (until : Time) (reason : String)
    → n < 2 ^ 31
    → occurs separator_code (format_time until) ≡ 0
    → occurs separator_code reason ≡ 0
    → unserialize (serialize format_time (pos n) until reason) ≡ some (pos n)
unfolding unserialize serialize
unserialize-serialize format_time n until reason h e k =
    let n_lacks = occurs-print_int separator_code n (omega arith) in
    let parts = split-append separator_code "|" (print_int (pos n)) in
    let until_part = split-append separator_code "|" (format_time until) in
    rw
      (
        separator-append,
        separator-append,
        parts _ refl n_lacks,
        until_part _ refl e,
        split_lacks separator_code reason k,
      )
      (parse_int-print_int (2 ^ 31) n h)

unserialize_not_three :
    (message : String) → occurs separator_code message ≢ 2 → unserialize message ≡ none
unfolding unserialize
unserialize_not_three message h =
    go (split separator_code message) (length-split separator_code message)
  where
    go :
        (parts : List String)
        → length parts ≡ suc (occurs separator_code message)
        → read_parts parts ≡ none
    go [] e = refl
    go (a ∷ []) e = refl
    go (a ∷ b ∷ []) e = refl
    go (a ∷ b ∷ c ∷ []) e = absurd (h (omega arith))
    go (a ∷ b ∷ c ∷ d ∷ rest) e = refl

-- A message whose reason holds a separator is an error to the reader, whatever the count was.
pub unserialize_separator :
    (format_time : Time → String) (n : ℕ) (until : Time) (reason : String)
    → 0 < occurs separator_code reason
    → unserialize (serialize format_time (pos n) until reason) ≡ none
unserialize_separator format_time n until reason h =
    unserialize_not_three _ (omega (arith, occurs_in_serialized format_time n until reason))
