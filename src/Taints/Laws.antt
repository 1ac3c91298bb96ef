-- ===== src/Taints/Laws.antt =====
-- What the package taints of Kubernetes documents, and the status that a node has by its taint.
use draino.Prelude.{
  ◌≡◌, refl, String, Bool, true, false, List, [], ◌∷◌, ◌&&◌, Option, none, some, str_eq, arith,
}
use draino.K8s.{Time, time_zero, Node, Taint}
use draino.Taints.{
  TaintLib, create_nla_taint, taint_drain_candidate, find_taint, get_nla_taint, update_node,
  add_nla_taint, remove_nla_taint,
}

-- MatchTaint compares key and effect; AddOrUpdateTaint leaves the given taint as the one that
-- matches it, or finds a matching taint with the same value there; RemoveTaint leaves none that
-- matches. Both touch nothing but the taints.
pub record TaintLaws (lib : TaintLib) : Type 0 where
  pub matches :
      (t s : Taint) → lib.match_taint t s ≡ (str_eq t.key s.key && str_eq t.effect s.effect)
  pub added :
      (n m : Node) (t : Taint)
      → lib.add_or_update_taint n t ≡ some (m, true)
      → (find_taint lib.match_taint t m.taints ≡ some t) × (m ≡ record n { taints = m.taints })
  pub kept :
      (n m : Node) (t : Taint)
      → lib.add_or_update_taint n t ≡ some (m, false)
      → (s : Taint) × (find_taint lib.match_taint t n.taints ≡ some s) × (s.value ≡ t.value)
  pub removed :
      (n m : Node) (t : Taint)
      → lib.remove_taint n t ≡ some (m, true)
      → (find_taint lib.match_taint t m.taints ≡ none) × (m ≡ record n { taints = m.taints })

-- The value of the node-lifecycle taint, if there is one.
unfoldable pub status : TaintLib → Node → Option String
status lib n = elim (get_nla_taint lib n) [ none ↦ none | some t ↦ some t.value ]

update_node-written :
    (fails : Bool) (n m : Node) (r : Option (Node × Bool))
    → (update_node fails n r).written ≡ some m
    → r ≡ some (m, true)
unfolding update_node
update_node-written fails n m none e = cc
update_node-written true n m (some (k, true)) e = cc
update_node-written false n m (some (k, true)) e = ground (arith, e)
update_node-written fails n m (some (k, false)) e = cc

update_node-kept :
    (fails : Bool) (n : Node) (r : Option (Node × Bool))
    → (update_node fails n r).written ≡ none
    → (update_node fails n r).failed ≡ false
    → (m : Node) × (r ≡ some (m, false))
unfolding update_node
update_node-kept fails n none e h = cc
update_node-kept true n (some (k, true)) e h = cc
update_node-kept false n (some (k, true)) e h = cc
update_node-kept fails n (some (k, false)) e h = (k, refl)

module _ (lib : TaintLib) (laws : TaintLaws lib) where
  -- Value and time of the searched taint play no part.
  find_nla :
      (value : String) (now : Time) (ts : List Taint)
      → find_taint lib.match_taint (create_nla_taint value now) ts
        ≡ find_taint lib.match_taint (create_nla_taint taint_drain_candidate time_zero) ts
  unfolding find_taint
  find_nla value now [] = refl
  find_nla value now (t ∷ ts) = ground (
    arith,
    laws.matches t (create_nla_taint value now),
    laws.matches t (create_nla_taint taint_drain_candidate time_zero),
    find_nla value now ts,
  )

  -- What an addition wrote has the value that was given, and differs from the node in its taints only.
  pub add-written :
      (fails : Bool) (n m : Node) (now : Time) (value : String)
      → (add_nla_taint lib fails n now value).written ≡ some m
      → (status lib m ≡ some value) × (m ≡ record n { taints = m.taints })
  unfolding add_nla_taint status get_nla_taint
  add-written fails n m now value e =
      let a = laws.added n m _ (update_node-written fails n m _ e) in
      (ground (arith, a.0, find_nla value now m.taints), a.1)

  pub remove-written :
      (fails : Bool) (n m : Node)
      → (remove_nla_taint lib fails n).written ≡ some m
      → (status lib m ≡ none) × (m ≡ record n { taints = m.taints })
  unfolding remove_nla_taint status get_nla_taint
  remove-written fails n m e =
      let r = laws.removed n m _ (update_node-written fails n m _ e) in
      (ground (arith, r.0, find_nla "whatever" time_zero m.taints), r.1)

  -- An addition that writes nothing and does not fail finds the value there.
  pub add-kept :
      (fails : Bool) (n : Node) (now : Time) (value : String)
      → (add_nla_taint lib fails n now value).written ≡ none
      → (add_nla_taint lib fails n now value).failed ≡ false
      → status lib n ≡ some value
  unfolding add_nla_taint status get_nla_taint
  add-kept fails n now value e h =
      let r = update_node-kept fails n _ e h in
      let k = laws.kept n r.0 _ r.1 in ground (arith, k.1, k.2, find_nla value now n.taints)
