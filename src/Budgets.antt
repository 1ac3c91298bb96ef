-- ===== src/Budgets.antt =====
-- internal/kubernetes/index/pdb.go: the disruption budgets that select a pod. A selector is what
-- LabelSelectorAsSelector makes of it, a test on labels or an error.
pub mod Selected
mod Tests
use Prim.Native.String.{◌++◌ as append}
use draino.Prelude.{
  String, Bool, true, false, not, ◌&&◌, List, [], ◌∷◌, ◌++◌, Option, none, some, if◌then◌else◌,
  str_eq, Dict, lookup, insert, any, keep_if, map,
}

pub record LabelledPod : Type 0 where
  pub name : String
  pub namespace : String
  pub labels : Dict String
  pub is_ready : Bool

pub record Budget : Type 0 where
  pub name : String
  pub namespace : String
  pub selector : Option (Dict String → Bool)

-- GeneratePodIndexKey.
unfoldable pub pod_index_key : (name namespace : String) → String
pod_index_key name namespace = append namespace (append "/" name)

abbrev pub key_of : LabelledPod → String
key_of p = pod_index_key p.name p.namespace

-- A budget whose selector cannot be built selects no pod.
unfoldable pub selects : Budget → LabelledPod → Bool
selects b p = elim b.selector [ none ↦ false | some matches ↦ matches p.labels ]

-- Go's read of a map of slices: a missing key reads as an empty slice.
unfoldable pub or_empty : {T : Type 0} → Option (List T) → List T
or_empty none = []
or_empty (some items) = items

unfoldable pub items_at : {T : Type 0} → String → Dict (List T) → List T
unfolding or_empty
items_at key m = or_empty (lookup key m)

unfoldable pub append_at : {T : Type 0} → String → T → Dict (List T) → Dict (List T)
unfolding items_at
append_at key item m = insert key (items_at key m ++ item ∷ []) m

-- The pods by their namespaces.
unfoldable pub per_namespace : Dict (List LabelledPod) → List LabelledPod → Dict (List LabelledPod)
per_namespace m [] = m
per_namespace m (p ∷ ps) = per_namespace (append_at p.namespace p m) ps

unfoldable pub add_to_pods : Budget → List LabelledPod → Dict (List Budget) → Dict (List Budget)
add_to_pods b [] result = result
add_to_pods b (p ∷ ps) result =
    add_to_pods b ps (if selects b p then append_at (key_of p) b result else result)

unfoldable pub add_budgets :
    List Budget → List LabelledPod → Dict (List Budget) → Dict (List Budget)
add_budgets [] ps result = result
add_budgets (b ∷ bs) ps result = add_budgets bs ps (add_to_pods b ps result)

-- The answer of List for a namespace; an error passes the namespace over.
unfoldable pub budgets_in : (list : String → Option (List Budget)) → String → List Budget
budgets_in list namespace = or_empty (list namespace)

unfoldable pub add_namespaces :
    (list : String → Option (List Budget))
    → List (String × List LabelledPod)
    → Dict (List Budget)
    → Dict (List Budget)
add_namespaces list [] result = result
add_namespaces list ((namespace, ps) ∷ rest) result =
    add_namespaces list rest (add_budgets (budgets_in list namespace) ps result)

-- `order` is the order in which the map is iterated.
unfoldable pub get_pdbs_for_pods :
    (list : String → Option (List Budget))
    → (order : List (String × List LabelledPod) → List (String × List LabelledPod))
    → List LabelledPod
    → Dict (List Budget)
get_pdbs_for_pods list order pods = add_namespaces list (order (per_namespace [] pods)) []

-- getAssociatedPodsForPDB, on the pods of the budget's namespace.
unfoldable pub get_associated_pods_for_pdb :
    Budget → (only_not_ready_pods : Bool) → List LabelledPod → List String
get_associated_pods_for_pdb b only_not_ready_pods pods =
    map (λ p. key_of p) (keep_if (λ p. not (only_not_ready_pods && p.is_ready) && selects b p) pods)

-- GetPDBsBlockedByPod: the budgets that the index holds under the pod's key, of which it has one
-- entry for each key that indexPDBBlockingPod gives.
unfoldable pub get_pdbs_blocked_by_pod :
    (pods_in : String → List LabelledPod) → List Budget → (name namespace : String) → List Budget
get_pdbs_blocked_by_pod pods_in budgets name namespace =
    keep_if
      (λ b.
        any (str_eq (pod_index_key name namespace))
          (get_associated_pods_for_pdb b true (pods_in b.namespace)))
      budgets
