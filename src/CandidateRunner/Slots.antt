-- ===== src/CandidateRunner/Slots.antt =====
-- The slots of a group: how many nodes an evaluation makes candidates.
use draino.Prelude.{
  ℕ, ◌+◌, ◌-◌, ◌≤◌, ◌<◌, ◌≡◌, refl, false, List, [], ◌∷◌, ◌++◌, Option, none, some, length,
  length-append, if◌then◌else◌, arith,
}
use draino.K8s.{Node}
use draino.Taints.{TaintLib, add_nla_taint, taint_drain_candidate}
use draino.CandidateRunner.{
  has_taint, check_loop, check_already_candidates, Answers, written_list, group_iteration,
  evaluate_candidates,
}

-- The nodes that carry the node-lifecycle taint.
unfoldable pub count_tainted : TaintLib → List Node → ℕ
count_tainted lib [] = 0
count_tainted lib (n ∷ ns) = (if has_taint lib n then 1 else 0) + count_tainted lib ns

length-written_list : (o : Option Node) → length (written_list o) ≤ 1
length-written_list none = omega arith
length-written_list (some n) = omega arith

group_iteration-bound :
    (lib : TaintLib) (answers : Answers) (slots : ℕ) (nodes : List Node)
    → 0 < slots
    → length (group_iteration lib answers slots nodes).written ≤ slots
unfolding group_iteration
group_iteration-bound lib answers slots [] h = omega arith
group_iteration-bound lib answers slots (n ∷ ns) h =
    let u = add_nla_taint lib (answers.update_fails n) n answers.now taint_drain_candidate in
    ground (
      arith,
      length-append (written_list u.written) (group_iteration lib answers (slots - 1) ns).written,
      length-append (written_list u.written) [],
      length-written_list u.written,
      group_iteration-bound lib answers slots ns,
      group_iteration-bound lib answers (slots - 1) ns,
    )

check_loop-already :
    (lib : TaintLib) (max : ℕ) (remaining already nodes : List Node)
    → 0 < max
    → length already < max
    → (check_loop lib max remaining already nodes).max_reached ≡ false
    → (length (check_loop lib max remaining already nodes).already
        ≡ length already + count_tainted lib nodes)
      × (length (check_loop lib max remaining already nodes).already < max)
unfolding check_loop count_tainted
check_loop-already lib max remaining already [] h k e = (omega arith, k)
check_loop-already lib max remaining already (n ∷ ns) h k e =
    let without = check_loop-already lib max (remaining ++ n ∷ []) already ns h k in
    let with_one = check_loop-already lib max remaining (already ++ n ∷ []) ns h in
    let appended = length-append already (n ∷ []) in
    (ground (arith, e, appended, without, with_one), ground (arith, e, appended, without, with_one))

-- An evaluation never fills more slots than the tainted nodes of the group leave of the maximum,
-- whatever the filter, the order, the simulator and the API server do, if there is a maximum.
pub evaluate_candidates-bound :
    (lib : TaintLib) (answers : Answers) (max : ℕ) (filter order : List Node → List Node)
    (nodes : List Node)
    → 0 < max
    → length (evaluate_candidates lib answers max filter order nodes).written
      ≤ max - count_tainted lib nodes
unfolding evaluate_candidates check_already_candidates
evaluate_candidates-bound lib answers max filter order nodes h =
    let c = check_already_candidates lib max nodes in
    ground (
      arith,
      check_loop-already lib max [] [] nodes h h,
      group_iteration-bound lib answers (max - length c.already) (order (filter c.remaining)),
    )

check_loop-remaining :
    (lib : TaintLib) (max : ℕ) (remaining already nodes : List Node)
    → count_tainted lib remaining ≡ 0
    → count_tainted lib (check_loop lib max remaining already nodes).remaining ≡ 0
unfolding check_loop count_tainted
check_loop-remaining lib max remaining already [] h = h
check_loop-remaining lib max remaining already (n ∷ ns) h = ground (
  arith,
  h,
  count_append remaining n,
  check_loop-remaining lib max (remaining ++ n ∷ []) already ns,
  check_loop-remaining lib max remaining (already ++ n ∷ []) ns,
)
  where
    count_append :
        (ms : List Node) (m : Node)
        → count_tainted lib (ms ++ m ∷ [])
          ≡ count_tainted lib ms + (if has_taint lib m then 1 else 0)
    count_append [] m = omega arith
    count_append (k ∷ ms) m = omega (arith, count_append ms m)

-- Only nodes without the taint go on to the filter.
pub check_already_candidates-untainted :
    (lib : TaintLib) (max : ℕ) (nodes : List Node)
    → count_tainted lib (check_already_candidates lib max nodes).remaining ≡ 0
unfolding check_already_candidates count_tainted
check_already_candidates-untainted lib max nodes = check_loop-remaining lib max [] [] nodes refl
