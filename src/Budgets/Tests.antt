-- ===== src/Budgets/Tests.antt =====
-- Two pods of one namespace and a budget that selects one of them.
use mathlib.Core.List.Perm
use draino.Prelude.{
  ◌≡◌, refl, String, false, List, [], ◌∷◌, Option, none, some, if◌then◌else◌, str_eq, lookup,
  lookup_text, insert, any, keep_if, ◌&&◌,
}
use draino.Budgets.{
  LabelledPod, Budget, pod_index_key, selects, or_empty, items_at, append_at, per_namespace,
  add_to_pods, add_budgets, budgets_in, add_namespaces, get_pdbs_for_pods, key_of,
  get_associated_pods_for_pdb, get_pdbs_blocked_by_pod,
}
use draino.Budgets.Selected.{get_pdbs_for_pods-exact}

abbrev pod : (name app : String) → LabelledPod
pod name app = record {
  name = name;
  namespace = "ns";
  labels = ("app", app) ∷ [];
  is_ready = false;
}

abbrev pods : List LabelledPod
pods = pod "web-0" "web" ∷ pod "db-0" "db" ∷ []

abbrev web_budget : Budget
web_budget = record {
  name = "web";
  namespace = "ns";
  selector = some (λ labels. str_eq (lookup_text "app" labels) "web");
}

abbrev broken_budget : Budget
broken_budget = record { name = "broken"; namespace = "ns"; selector = none }

abbrev list : String → Option (List Budget)
list namespace = if str_eq namespace "ns" then some (broken_budget ∷ web_budget ∷ []) else none

web_selected : items_at "ns/web-0" (get_pdbs_for_pods list (λ m. m) pods) ≡ web_budget ∷ []
unfolding items_at or_empty get_pdbs_for_pods per_namespace append_at add_namespaces budgets_in
    add_budgets add_to_pods selects pod_index_key insert lookup lookup_text
web_selected = refl

web_blocks :
    get_pdbs_blocked_by_pod (λ namespace. pods) (web_budget ∷ broken_budget ∷ []) "web-0" "ns"
    ≡ web_budget ∷ []
unfolding get_pdbs_blocked_by_pod get_associated_pods_for_pdb selects pod_index_key keep_if any
    lookup lookup_text
web_blocks = refl

get_pdbs_for_pods-exact_example :
    any (λ b. str_eq b.name "web") (items_at "ns/web-0" (get_pdbs_for_pods list (λ m. m) pods))
    ≡ any
        (λ p.
          any
            (λ b. selects b p && (str_eq (key_of p) "ns/web-0" && str_eq b.name "web"))
            (budgets_in list p.namespace))
        pods
get_pdbs_for_pods-exact_example =
    get_pdbs_for_pods-exact list (λ m. m) (λ m. Perm.refl m) pods "ns/web-0"
      (λ b. str_eq b.name "web")
