-- ===== src/ScopeObserver/Names.antt =====
-- The names that a label holds, between dots, and what a rearrangement of them keeps.
use Prim.Native.Char.{Char}
use Prim.Native.String.{◌++◌}
use mathlib.Core.List.{Perm, Permᴰ}
use mathlib.Core.List.Permᴰ as Rearranged
use mathlib.Core.Logic.{∥∥₁_map}
use text.Mathlib.TextLemmas.{nil-append, cons-append}
use draino.Prelude.{
  ◌≡◌, refl, sym, ap, ◌∙◌, String, Bool, true, false, List, [], ◌∷◌, ltb, keep_if, any, arith,
  Bool-cases, inl, inr,
}
use draino.Prelude.Texts.{occurs, split, cons_head, join, split-append, split_lacks}

abbrev pub has_dot : String → Bool
has_dot p = ltb 0 (occurs b'.' p)

has_dot-cons_head :
    (c : Char) (ps : List String)
    → has_dot (String.◌∷◌ c "") ≡ false
    → any has_dot ps ≡ false
    → any has_dot (cons_head c ps) ≡ false
unfolding any cons_head occurs
has_dot-cons_head c [] h k = ground (arith, h)
has_dot-cons_head c (p ∷ ps) h k = ground (arith, h, k)

pub has_dot-split : (s : String) → any has_dot (split b'.' s) ≡ false
unfolding any split occurs
has_dot-split String.[] = refl
has_dot-split (String.◌∷◌ c s) = ground (arith, has_dot-split s, has_dot-cons_head c (split b'.' s))

dot-append : (s : String) → "." ++ s ≡ String.◌∷◌ "." s
dot-append s = cons-append "." "" s ∙ ap (String.◌∷◌ ".") (nil-append s)

-- Names without dots are read back from the text that joins them.
split-join_cons :
    (p : String) (ps : List String)
    → any has_dot (p ∷ ps) ≡ false
    → split b'.' (join "." (p ∷ ps)) ≡ p ∷ ps
unfolding any join
split-join_cons p [] h = split_lacks b'.' p (ground (arith, h))
split-join_cons p (q ∷ ps) h =
    ap (λ t. split b'.' (p ++ t)) (dot-append (join "." (q ∷ ps)))
    ∙ split-append b'.' "." p (join "." (q ∷ ps)) refl (ground (arith, h))
    ∙ ap (λ l. p ∷ l) (split-join_cons q ps (ground (arith, h)))

abbrev pub is_inhabited : List String → Bool
is_inhabited xs = any (λ x. true) xs

pub split-join :
    (ps : List String)
    → is_inhabited ps ≡ true
    → any has_dot ps ≡ false
    → split b'.' (join "." ps) ≡ ps
unfolding any
split-join [] i h = ground (arith, i)
split-join (p ∷ ps) i h = split-join_cons p ps h

module _ {A : Type 0} (p : A → Bool) where
  keep_if-Permᴰ : {xs ys : List A} → Permᴰ xs ys → Permᴰ (keep_if p xs) (keep_if p ys)
  unfolding keep_if
  keep_if-Permᴰ Permᴰ.nil = Permᴰ.nil
  keep_if-Permᴰ (Permᴰ.cons {a} e d) = elim (Bool-cases (p a)) [
    | inl h ↦ rw (sym e, h) (Permᴰ.cons refl (keep_if-Permᴰ d))
    | inr h ↦ rw (sym e, h) (keep_if-Permᴰ d)
  ]
  keep_if-Permᴰ (Permᴰ.swap {a} {b} {l = l} e d) = elim (Bool-cases (p a)) [
    | inl h ↦ elim (Bool-cases (p b)) [
      | inl k ↦ rw (sym e, sym d, h, k) (Permᴰ.swap refl refl)
      | inr k ↦ rw (sym e, sym d, h, k) (Rearranged.refl _)
    ]
    | inr h ↦ elim (Bool-cases (p b)) [
      | inl k ↦ rw (sym e, sym d, h, k) (Rearranged.refl _)
      | inr k ↦ rw (sym e, sym d, h, k) (Rearranged.refl _)
    ]
  ]
  keep_if-Permᴰ (Permᴰ.trans d e) = Permᴰ.trans (keep_if-Permᴰ d) (keep_if-Permᴰ e)

  pub keep_if-Perm : {xs ys : List A} → Perm xs ys → Perm (keep_if p xs) (keep_if p ys)
  keep_if-Perm {xs} {ys} d = ∥∥₁_map {B = Permᴰ (keep_if p xs) (keep_if p ys)} d keep_if-Permᴰ
