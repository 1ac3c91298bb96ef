-- ===== src/Taints/Sample.antt =====
-- A small model of the package taints, to run the code on.
use draino.Prelude.{
  ◌≡◌, refl, ◌&&◌, Bool, true, List, [], ◌∷◌, none, some, str_eq, arith, if◌then◌else◌, eq_refl,
}
use draino.K8s.{Taint}
use draino.Taints.{TaintLib, find_taint}
use draino.Taints.Laws.{TaintLaws}

abbrev pub same_taint : Taint → Taint → Bool
same_taint t s = str_eq t.key s.key && str_eq t.effect s.effect

unfoldable pub drop_taint : Taint → List Taint → List Taint
drop_taint s [] = []
drop_taint s (t ∷ ts) = let rest = drop_taint s ts in if same_taint t s then rest else t ∷ rest

abbrev pub plain_lib : TaintLib
plain_lib = record {
  match_taint = same_taint;
  add_or_update_taint = λ n t. some (record n { taints = t ∷ drop_taint t n.taints }, true);
  remove_taint = λ n t. some (record n { taints = drop_taint t n.taints }, true);
}

find-drop_taint : (s : Taint) (ts : List Taint) → find_taint same_taint s (drop_taint s ts) ≡ none
unfolding find_taint drop_taint
find-drop_taint s [] = refl
find-drop_taint s (t ∷ ts) = ground (arith, find-drop_taint s ts)

pub plain_lib-TaintLaws : TaintLaws plain_lib
unfolding find_taint
plain_lib-TaintLaws = record {
  matches = λ t s. refl;
  added = λ n m t e. ground (arith, e, eq_refl t.key, eq_refl t.effect);
  kept = λ n m t e. cc;
  removed = λ n m t e. ground (arith, e, find-drop_taint t n.taints);
}
