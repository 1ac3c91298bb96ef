-- ===== src/PreProcessors/Reset.antt =====
-- internal/drain_runner/pre_processor/pre_activities.go: Reset, which sets every activity back to not
-- started. Annotations are a function of an object's id and a key; `sent` is what the API server is
-- asked.
use mathlib.Core.List.{Mem, mem-cons, not-mem-nil}
use mathlib.Core.Logic.Or
use text.Mathlib.TextEquality.{IsScalar-prop}
use draino.Prelude.{
  ◌≡◌, ◌≢◌, ◌⊎◌, refl, String, ◌&&◌, List, [], ◌∷◌, ◌++◌, Option, none, some, if◌then◌else◌, str_eq,
  arith, eq_refl, inl, inr, sym, ap, subst,
}
use draino.Utils.{join_errors}
use draino.Patches.{JsonPatchValue, json_annotation_patch}
use draino.PreProcessors.{PreActivity}

abbrev pub Annotations : Type 0
Annotations = (source key : String) → Option String

-- What becomes of the patch for an activity: its object is no API object, the object is gone, or the
-- API server's answer.
pub data Patched : Type 0 where
  no_object missing patched : Patched
  patch_error : String → Patched

pub record ResetRun : Type 0 where
  pub annotations : Annotations
  pub errors : List String
  pub sent : List (String × JsonPatchValue)

abbrev pub set_annotation : Annotations → (source key value : String) → Annotations
set_annotation w source key value =
    λ s k. if str_eq source s && str_eq key k then some value else w s k

unfoldable pub after_patch : (answer : Patched) → PreActivity → Annotations → Annotations
after_patch no_object a w = w
after_patch missing a w = w
after_patch patched a w = set_annotation w a.source_object a.annotation ""
after_patch (patch_error e) a w = w

unfoldable pub errors_of : (answer : Patched) → List String
errors_of no_object = "cannot cast source object" ∷ []
errors_of missing = []
errors_of patched = []
errors_of (patch_error e) = e ∷ []

unfoldable pub sent_for : (answer : Patched) → PreActivity → List (String × JsonPatchValue)
sent_for no_object a = []
sent_for missing a = (a.source_object, json_annotation_patch a.annotation "") ∷ []
sent_for patched a = (a.source_object, json_annotation_patch a.annotation "") ∷ []
sent_for (patch_error e) a = (a.source_object, json_annotation_patch a.annotation "") ∷ []

-- The range over the activities, in the order in which the map is iterated.
unfoldable pub reset_activities :
    (answer : PreActivity → Patched) → List (String × PreActivity) → Annotations → ResetRun
unfolding after_patch errors_of sent_for
reset_activities answer [] w = record { annotations = w; errors = []; sent = [] }
reset_activities answer ((key, a) ∷ rest) w =
    let run = reset_activities answer rest (after_patch (answer a) a w) in
    record {
      annotations = run.annotations;
      errors = errors_of (answer a) ++ run.errors;
      sent = sent_for (answer a) a ++ run.sent;
    }

-- Reset: the run and the error that is returned. The search for the activities may fail.
unfoldable pub reset :
    (answer : PreActivity → Patched)
    → (searched : List (String × PreActivity) ⊎ String) → Annotations
    → ResetRun × Option String
unfolding reset_activities join_errors
reset answer (inr e) w = (record { annotations = w; errors = []; sent = [] }, some e)
reset answer (inl activities) w =
    let run = reset_activities answer activities w in (run, join_errors run.errors ";")

abbrev IsReset : PreActivity → Annotations → Type 0
IsReset a w = w a.source_object a.annotation ≡ some ""

after_patch-keeps :
    (answer : Patched) (a b : PreActivity) (w : Annotations)
    → IsReset b w
    → IsReset b (after_patch answer a w)
unfolding after_patch
after_patch-keeps no_object a b w h = h
after_patch-keeps missing a b w h = h
after_patch-keeps patched a b w h = ground (arith, h)
after_patch-keeps (patch_error e) a b w h = h

reset_activities-keeps :
    (answer : PreActivity → Patched) (rest : List (String × PreActivity)) (b : PreActivity)
    → (w : Annotations) → IsReset b w
    → IsReset b (reset_activities answer rest w).annotations
unfolding reset_activities
reset_activities-keeps answer [] b w h = h
reset_activities-keeps answer ((key, a) ∷ rest) b w h =
    reset_activities-keeps answer rest b _ (after_patch-keeps (answer a) a b w h)

-- An activity that raised no error, and whose object is there, is reset at once.
no_error-IsReset :
    (answer : Patched) (a : PreActivity) (es : List String) (w : Annotations)
    → errors_of answer ++ es ≡ []
    → answer ≢ missing
    → IsReset a (after_patch answer a w)
unfolding errors_of after_patch
no_error-IsReset no_object a es w h k = cc
no_error-IsReset missing a es w h k = absurd (k refl)
no_error-IsReset patched a es w h k = rw (eq_refl a.source_object, eq_refl a.annotation) refl
no_error-IsReset (patch_error e) a es w h k = cc

no_error-rest : (answer : Patched) (es : List String) → errors_of answer ++ es ≡ [] → es ≡ []
unfolding errors_of
no_error-rest no_object es h = cc
no_error-rest missing es h = h
no_error-rest patched es h = h
no_error-rest (patch_error e) es h = cc

option_prop : (x y : Option String) → IsProp (x ≡ y)
option_prop x y = hlevel (IsScalar-prop)

all-IsReset :
    (answer : PreActivity → Patched) (activities : List (String × PreActivity)) (w : Annotations)
    → (key : String) (a : PreActivity) → (reset_activities answer activities w).errors ≡ []
    → Mem (key, a) activities
    → answer a ≢ missing
    → IsReset a (reset_activities answer activities w).annotations
unfolding reset_activities
all-IsReset answer [] w key a h m k = absurd (not-mem-nil m)
all-IsReset answer ((own, b) ∷ rest) w key a h m k =
    Or.elim (option_prop _ _) (mem-cons.0 m)
      (λ e.
        let same : a ≡ b = ap (λ p. p.1) e in
        subst (λ x. IsReset x (reset_activities answer ((own, b) ∷ rest) w).annotations) (sym same)
          (reset_activities-keeps answer rest b _
            (no_error-IsReset (answer b) b _ w h (subst (λ x. answer x ≢ missing) same k))))
      (λ n. all-IsReset answer rest _ key a (no_error-rest (answer b) _ h) n k)

-- If Reset returns no error, each activity that the search found, and whose object still exists, is
-- not started, whatever the order in which the activities were visited.
pub reset-not_started :
    (answer : PreActivity → Patched) (activities : List (String × PreActivity)) (w : Annotations)
    → (key : String) (a : PreActivity) → (reset answer (inl activities) w).1 ≡ none
    → Mem (key, a) activities
    → answer a ≢ missing
    → (reset answer (inl activities) w).0.annotations a.source_object a.annotation ≡ some ""
unfolding reset
reset-not_started answer activities w key a h m k =
    all-IsReset answer activities w key a (no_errors _ h) m k
  where
    no_errors : (es : List String) → join_errors es ";" ≡ none → es ≡ []
    no_errors [] e = refl
    no_errors (d ∷ es) e = absurd (ground (arith, e))
