-- ===== src/Patches/Pointer.antt =====
-- internal/kubernetes/k8sclient/kube_patch.go, JSONAnnotationPatch: the path of the patch names the
-- annotation. `unescape` and the parts between slashes are a JSON pointer as RFC 6901 reads it.
use Prim.Native.Char.{code}
use Prim.Native.String.{String, ◌++◌}
use text.Mathlib.TextLemmas.{nil-append, cons-append, append_assoc}
use text.Mathlib.TextEquality.{Char-path}
use draino.Prelude.{
  ◌≡◌, refl, Bool, true, false, [], ◌∷◌, if◌then◌else◌, ◌==◌, Bool-cases, inl, inr, arith, ==_iff,
  ap, ◌∙◌, map,
}
use draino.Prelude.Texts.{split, occurs, split_lacks, split-append}
use draino.Patches.{escape_slashes, json_annotation_patch}

-- With `tilde`, the character before was a tilde: "~1" stands for a slash and "~0" for a tilde.
unfoldable pub unescape : (tilde : Bool) → String → String
unescape false String.[] = ""
unescape true String.[] = "~"
unescape false (String.◌∷◌ c s) =
    let marked = unescape true s in
    let plain = String.◌∷◌ c (unescape false s) in if code c == b'~' then marked else plain
unescape true (String.◌∷◌ c s) =
    let rest = unescape false s in
    if code c == b'1'
    then String.◌∷◌ "/" rest
    else if code c == b'0'
    then String.◌∷◌ "~" rest
    else String.◌∷◌ "~" (String.◌∷◌ c rest)

escape_lacks : (s : String) → occurs b'/' (escape_slashes s) ≡ 0
unfolding escape_slashes occurs
escape_lacks String.[] = refl
escape_lacks (String.◌∷◌ c s) = ground (arith, escape_lacks s)

unescape-escape : (s : String) → occurs b'~' s ≡ 0 → unescape false (escape_slashes s) ≡ s
unfolding escape_slashes unescape occurs
unescape-escape String.[] h = refl
unescape-escape (String.◌∷◌ c s) h =
    let rest = unescape-escape s (ground (arith, h)) in
    elim (Bool-cases (code c == b'/')) [
      | inl e ↦
          let slash : c ≡ "/" = Char-path c "/" ((==_iff (code c) b'/').0 e) in
          rw e (rw (rest, slash) refl)
      | inr e ↦
          let plain : (code c == b'~') ≡ false = ground (arith, h) in rw e (rw (plain, rest) refl)
    ]

split_word : (w s : String) → occurs b'/' w ≡ 0 → split b'/' ((w ++ "/") ++ s) ≡ w ∷ split b'/' s
split_word w s h =
    ap (split b'/') (append_assoc w "/" s ∙ ap (λ t. w ++ t) (cons-append "/" "" s))
    ∙ split-append b'/' "/" w ("" ++ s) refl h
    ∙ ap (λ t. w ∷ split b'/' t) (nil-append s)

split_prefix :
    (s : String)
    → split b'/' ("/metadata/annotations/" ++ s) ≡ "" ∷ "metadata" ∷ "annotations" ∷ split b'/' s
unfolding occurs
split_prefix s =
    ap (split b'/') (append_assoc "/" "metadata/annotations/" s)
    ∙ split_word "" ("metadata/annotations/" ++ s) refl
    ∙ ap (λ t. "" ∷ split b'/' t) (append_assoc "metadata/" "annotations/" s)
    ∙ ap (λ l. "" ∷ l) (split_word "metadata" ("annotations/" ++ s) refl)
    ∙ ap (λ l. "" ∷ "metadata" ∷ l) (split_word "annotations" s refl)

-- The path of the patch that replaces an annotation, read as a JSON pointer, leads to the metadata's
-- annotations and there to the key, slashes included, if the key has no tilde.
pub json_annotation_patch-path :
    (key value : String)
    → occurs b'~' key ≡ 0
    → map (unescape false) (split b'/' (json_annotation_patch key value).path)
      ≡ "" ∷ "metadata" ∷ "annotations" ∷ key ∷ []
unfolding json_annotation_patch unescape
json_annotation_patch-path key value h =
    rw (split_prefix (escape_slashes key), split_lacks b'/' _ (escape_lacks key))
      (rw (unescape-escape key h) refl)
