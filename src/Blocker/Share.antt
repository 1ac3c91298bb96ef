-- ===== src/Blocker/Share.antt =====
-- blocker.go: when a started runner is blocked, and by which blocker.
use draino.Prelude.{
  ℕ, ◌*◌, ◌≡◌, refl, Bool, true, false, not, List, [], ◌∷◌, some, map, any, keep_if, length, arith,
  leb, Bool-cases, inl, inr,
}
use draino.K8s.{Node}
use draino.Blocker.{
  Blocker, GlobalBlocksRunner, update_block_state, start, first_blocked, is_blocked, exceeds,
  max_not_ready_nodes, get_readiness_state,
}

abbrev pub is_unready : Node → Bool
is_unready n = not (get_readiness_state n).0

abbrev pub unready : List Node → ℕ
unready nodes = length (keep_if is_unready nodes)

-- As many unready nodes as the maximum block, although they do not exceed it, where the maximum is a
-- number; where it is a share of all nodes, reaching it does not block.
pub max_not_ready_nodes-at_bound :
    (max share : ℕ) (nodes : List Node)
    → unready nodes ≡ max
    → 100 * unready nodes ≡ share * length nodes
    → (max_not_ready_nodes false max (some nodes) ≡ true)
      × (max_not_ready_nodes true share (some nodes) ≡ false)
unfolding max_not_ready_nodes exceeds
max_not_ready_nodes-at_bound max share nodes h k = (ground (arith, h), ground (arith, k))

first_blocked-any :
    (bs : List Blocker) → (first_blocked (map update_block_state bs)).0 ≡ any (λ b. b.check) bs
unfolding first_blocked any
first_blocked-any [] = refl
first_blocked-any (b ∷ bs) = ground (arith, first_blocked-any bs)

none_blocked :
    (bs : List Blocker) → leb (length bs) 0 ≡ true → (first_blocked bs).0 ≡ any (λ b. b.check) bs
unfolding first_blocked any
none_blocked [] h = refl
none_blocked (b ∷ bs) h = absurd (ground (arith, h))

-- A runner that was not started, and has a blocker, is blocked after its start exactly if a check
-- says so.
pub start-is_blocked :
    (g : GlobalBlocksRunner)
    → g.started ≡ false
    → (is_blocked (start g)).0 ≡ any (λ b. b.check) g.blockers
unfolding start is_blocked any
start-is_blocked g h = elim (Bool-cases (leb (length g.blockers) 0)) [
  | inl e ↦ rw (h, e) (none_blocked g.blockers e)
  | inr e ↦ rw (h, e) (first_blocked-any g.blockers)
]
