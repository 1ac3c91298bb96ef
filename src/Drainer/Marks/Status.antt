-- ===== src/Drainer/Marks/Status.antt =====
-- drainer.go: what GetDrainConditionStatus reads of the condition that MarkDrain writes.
use Prim.Native.String.{◌++◌ as append}
use draino.Prelude.{
  ℕ, ◌≡◌, refl, String, true, false, not, ◌&&◌, List, [], ◌∷◌, ◌++◌, Option, some, inl, inr,
  if◌then◌else◌, any, map, ℤ, pos, arith, ◌∙◌, Bool-cases,
}
use draino.Prelude.Texts.{
  print_int, contains, first_part, occurs, occurs-append, occurs-print_int, occurs_low-print_int,
  contains_lacks, contains_behind, contains_at, first_part-append, starts_with-append,
}
use draino.K8s.{Time, Condition}
use draino.Drainer.Marks.{
  Mark, is_finished, is_drain_condition, message_suffix, drain_message, mark_status, stamp_drain,
  new_drain_condition, stamped, StatusRead, read_status, read_condition, get_drain_condition_status,
}

abbrev pub bracketed : ℕ → String
bracketed n = append "[" (append (print_int (pos n)) "]")

-- The reader's status by the arguments of the writer.
abbrev pub Reads : Mark → StatusRead → Type 0
Reads k r =
    (r.has_error ≡ false)
    × (r.status.marked ≡ true)
    × (r.status.completed ≡ (is_finished k && not k.failed))
    × (r.status.failed ≡ (is_finished k && k.failed))
    × (r.status.failed_count ≡ k.fail_count)

module _ (format_time : Time → String) (scan : String → Option ℤ) where
  occurs_space : (n : ℕ) → occurs b' ' (bracketed n) ≡ 0
  unfolding occurs
  occurs_space n = rw (occurs-append, occurs-append, occurs_low-print_int b' ' n (omega arith)) refl

  first-drain_message :
      (k : Mark) (n : ℕ)
      → k.fail_count ≡ pos n
      → first_part " | " (drain_message format_time k) ≡ bracketed n
  unfolding drain_message
  first-drain_message k n e = rw e (first_part-append " " "| " (bracketed n) _ (occurs_space n))

  outcome_in-drain_message :
      (k : Mark)
      → is_finished k ≡ true
      → contains (if k.failed then "Failed" else "Completed") (drain_message format_time k) ≡ true
  unfolding drain_message message_suffix
  outcome_in-drain_message k e =
      let outcome : String = if k.failed then "Failed" else "Completed" in
      rw e (
        contains_behind outcome _ _ (
          contains_behind outcome " | " _ (
            contains_behind outcome "Drain activity scheduled " _ (
              contains_behind outcome (format_time k.when) _ (
                contains_behind outcome " | " _
                  (contains_at outcome (append ": " (format_time k.finish))))))))

  failed-drain_message :
      (k : Mark) (n : ℕ)
      → k.fail_count ≡ pos n
      → is_finished k ≡ true
      → k.failed ≡ true
      → ((t : Time) → occurs b'C' (format_time t) ≡ 0)
      → contains "Completed" (drain_message format_time k) ≡ false
  unfolding drain_message message_suffix occurs
  failed-drain_message k n c e f lacks =
      let n_lacks = occurs-print_int b'C' n (omega arith) in
      contains_lacks "C" "ompleted" (drain_message format_time k)
        (rw (c, e, f) (simp (occurs-append, lacks, n_lacks) refl))

  read_status-Reads :
      (k : Mark) (n : ℕ)
      → k.fail_count ≡ pos n
      → ((t : Time) → occurs b'C' (format_time t) ≡ 0)
      → (c : Condition) → c.message ≡ drain_message format_time k
      → c.status ≡ mark_status k
      → Reads k (read_status scan c k.fail_count)
  unfolding read_status
  read_status-Reads k n e lacks c m s = elim (Bool-cases (is_finished k)) [
    | inr f ↦ rw (s, f) (refl, refl, refl, refl, refl)
    | inl f ↦
        let outcome = outcome_in-drain_message k f in
        elim (Bool-cases k.failed) [
          | inr g ↦
              let held : contains "Completed" c.message ≡ true = ground (arith, outcome, m, g) in
              rw (s, f, held, g) (refl, refl, refl, refl, refl)
          | inl g ↦
              let held : contains "Failed" c.message ≡ true = ground (arith, outcome, m, g) in
              let lost : contains "Completed" c.message ≡ false =
                ground (arith, failed-drain_message k n e f g lacks, m) in
              rw (s, f, lost, held, g) (refl, refl, refl, refl, refl)
        ]
  ]

  read_condition-Reads :
      (k : Mark) (n : ℕ)
      → k.fail_count ≡ pos n
      → scan (bracketed n) ≡ some (pos n)
      → ((t : Time) → occurs b'C' (format_time t) ≡ 0)
      → (c : Condition) → c.message ≡ drain_message format_time k
      → c.status ≡ mark_status k
      → Reads k (read_condition scan c)
  unfolding read_condition
  read_condition-Reads k n e scanned lacks c m s =
      let prefix : first_part " | " c.message ≡ bracketed n = rw m (first-drain_message k n e) in
      let count : k.fail_count ≡ pos n = e in
      rw (prefix, starts_with-append "[" (append (print_int (pos n)) "]"), scanned, ← e)
        (read_status-Reads k n e lacks c m s)

  get_own :
      (c : Condition) (cs : List Condition)
      → is_drain_condition c ≡ true
      → get_drain_condition_status scan (c ∷ cs) ≡ read_condition scan c
  unfolding get_drain_condition_status
  get_own c cs h = rw h refl

  get_other :
      (c : Condition) (cs : List Condition)
      → is_drain_condition c ≡ false
      → get_drain_condition_status scan (c ∷ cs) ≡ get_drain_condition_status scan cs
  unfolding get_drain_condition_status
  get_other c cs h = rw h refl

  stamp_drain_lem :
      (k : Mark) (now : Time) (c : Condition)
      → (is_drain_condition (stamp_drain format_time k now c) ≡ is_drain_condition c)
        × (is_drain_condition c ≡ true
            → ((stamp_drain format_time k now c).message ≡ drain_message format_time k)
              × ((stamp_drain format_time k now c).status ≡ mark_status k))
  unfolding stamp_drain
  stamp_drain_lem k now c = elim (Bool-cases (is_drain_condition c)) [
    | inl h ↦ (rw h h, λ f. rw h (refl, refl))
    | inr h ↦ (rw h h, λ f. cc)
  ]

  -- Whoever reads the condition of a node on which MarkDrain has set it finds what was set: that a
  -- drain is scheduled, or that it is finished and how, and the count of the failures; if the count
  -- is a natural number that Sscanf reads back, and no printed time holds a "C".
  pub get_drain_condition_status-stamped :
      (k : Mark) (n : ℕ) (now : Time) (cs : List Condition)
      → k.fail_count ≡ pos n
      → scan (bracketed n) ≡ some (pos n)
      → ((t : Time) → occurs b'C' (format_time t) ≡ 0)
      → Reads k (get_drain_condition_status scan (stamped format_time k now cs))
  unfolding stamped any
  get_drain_condition_status-stamped k n now cs e scanned lacks =
      elim (Bool-cases (any is_drain_condition cs)) [
        | inl h ↦ rw h (matched cs h)
        | inr h ↦ rw h (appended cs h)
      ]
    where
      matched :
          (ds : List Condition)
          → any is_drain_condition ds ≡ true
          → Reads k (get_drain_condition_status scan (map (stamp_drain format_time k now) ds))
      matched [] h = cc
      matched (d ∷ ds) h =
          let (kind, sets) = stamp_drain_lem k now d in
          elim (Bool-cases (is_drain_condition d)) [
            | inl f ↦ rw (get_own (stamp_drain format_time k now d) _ (kind ∙ f)) (
                read_condition-Reads k n e scanned lacks (stamp_drain format_time k now d)
                  (sets f).0 (sets f).1)
            | inr f ↦
                rw (get_other (stamp_drain format_time k now d) _ (kind ∙ f))
                  (matched ds (ground (arith, h, f)))
          ]

      appended :
          (ds : List Condition)
          → any is_drain_condition ds ≡ false
          → Reads k
              (get_drain_condition_status scan (ds ++ new_drain_condition format_time k now ∷ []))
      appended [] h = rw (get_own (new_drain_condition format_time k now) [] refl) (
          read_condition-Reads k n e scanned lacks (new_drain_condition format_time k now) refl
            refl)
      appended (d ∷ ds) h =
          rw (get_other d (ds ++ new_drain_condition format_time k now ∷ []) (ground (arith, h)))
            (appended ds (ground (arith, h)))
