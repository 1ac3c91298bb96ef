-- ===== src/DrainRunner/Stuck.antt =====
-- The nodes of a group that a pass picks, and the nodes that a stopped process left in draining.
use draino.Prelude.{
  ◌≡◌, refl, String, Bool, true, false, List, [], ◌∷◌, some, any, arith, eq_iff, All, Bool-cases,
  Option-cases, inl, inr,
}
use draino.K8s.{Time, Node}
use draino.Taints.{TaintLib, taint_drain_candidate, get_nla_taint, remove_nla_taint}
use draino.Taints.Laws.{TaintLaws, status}
use draino.Retry.Wall.{RetryWall, set_new_retry_wall_timestamp}
use draino.DrainBuffer.{DrainBuffer}
use draino.DrainRunner.{Calls, handle_candidate}
use draino.DrainRunner.Path.{is_path, handle_candidate-is_path}
use draino.DrainRunner.Rounds.{
  has_value, nodes_with_value, removes_from_nil, stuck_reason, handle_left_over_draining,
}

has_value-status :
    (lib : TaintLib) (value : String) (n : Node)
    → has_value lib (value ∷ []) n ≡ true
    → status lib n ≡ some value
unfolding has_value any status
has_value-status lib value n e = elim (Option-cases (get_nla_taint lib n)) [
  | inl f ↦ ground (arith, e, f)
  | inr (t, f) ↦ ground (arith, e, f, eq_iff value t.value)
]

nodes_with_value-status :
    (lib : TaintLib) (value : String) (nodes : List Node)
    → All (λ n. status lib n ≡ some value) (nodes_with_value lib (value ∷ []) nodes)
unfolding nodes_with_value
nodes_with_value-status lib value [] = tt
nodes_with_value-status lib value (n ∷ ns) = elim (Bool-cases (has_value lib (value ∷ []) n)) [
  | inl e ↦ rw (e) (has_value-status lib value n e, nodes_with_value-status lib value ns)
  | inr e ↦ rw (e) (nodes_with_value-status lib value ns)
]

-- The loop over the nodes left in draining comes to call RemoveTaint on a nil node if one of the
-- nodes cannot be given its retry wall, unless the removal of the taint of another fails.
pub handle_left_over_draining_nil :
    (lib : TaintLib) (wall : RetryWall) (wall_fails remove_fails : Node → Bool) (now : Time)
    (nodes : List Node)
    → any wall_fails nodes ≡ true
    → All
        (λ n.
          (remove_nla_taint lib
            (remove_fails n)
            (set_new_retry_wall_timestamp wall n stuck_reason now)).failed
          ≡ false)
        nodes
    → (handle_left_over_draining lib wall wall_fails remove_fails now nodes).1 ≡ removes_from_nil
unfolding handle_left_over_draining any
handle_left_over_draining_nil lib wall wall_fails remove_fails now [] e h = cc
handle_left_over_draining_nil lib wall wall_fails remove_fails now (n ∷ ns) e h =
    elim (Bool-cases (wall_fails n)) [
      | inl f ↦ rw (f) refl
      | inr f ↦
          rw (f, h.0)
            (handle_left_over_draining_nil lib wall wall_fails remove_fails now ns
              (ground (arith, e, f)) h.1)
    ]

map-All :
    {A : Type 0} {P Q : A → Type 0} (f : (a : A) → P a → Q a) (xs : List A) → All P xs → All Q xs
map-All f [] h = tt
map-All f (x ∷ xs) h = (f x h.0, map-All f xs h.1)

-- Every node that handleGroup takes from the index is written along a path of the life of a
-- candidate, whatever the buffer was when its turn came.
handle_group-is_path :
    (lib : TaintLib) (laws : TaintLaws lib) (wall : RetryWall) (calls : Node → Calls) (key : String)
    (nodes : List Node)
    → All
        (λ n.
          (b : DrainBuffer)
          → is_path lib
              (some taint_drain_candidate)
              (handle_candidate lib wall (calls n) key b n).actions
            ≡ true)
        (nodes_with_value lib (taint_drain_candidate ∷ []) nodes)
handle_group-is_path lib laws wall calls key nodes =
    map-All (λ n h b. handle_candidate-is_path lib laws wall (calls n) key b n h) _
      (nodes_with_value-status lib taint_drain_candidate nodes)
