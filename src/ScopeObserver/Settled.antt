-- ===== src/ScopeObserver/Settled.antt =====
-- internal/observability/observability.go: what a configuration writes into the label that it
-- shares with the others, and that it then leaves the label alone.
use draino.Prelude.{
  ℕ, ◌≡◌, ◌≢◌, refl, sym, ap, ◌∙◌, subst, String, Bool, true, false, not, List, [], ◌∷◌, none, some,
  if◌then◌else◌, str_eq, keep_if, any, arith, lookup_text, insert, lookup-insert, eq_refl, eq_iff,
  Bool-cases, inl, inr,
}
use draino.Prelude.Texts.{split}
use draino.K8s.{Node}
use draino.Budgets.Selected.{any-Perm}
use draino.ScopeObserver.{
  Observer, configuration_label_key, out_of_scope_label_value, value_desired, scope, is_in_scope,
  LabelUpdate, update, get_label_update, patch_if_out_of_date, patch_node_labels, queue_call,
  forget, process_node, with_label, update_error, nodes_to_queue, configs, got,
}
use draino.ScopeObserver.Shared.{value_desired-after_both}
use draino.ScopeObserver.Entries.{
  IsName, SortsTexts, desired_of, split-value_desired, value_desired_twice, any-configs,
  label_update-value,
}

-- Where the name of the configuration is neither empty nor the special value and has no dot, and
-- sorting only rearranges: the label that getLabelUpdate wants holds the name of the configuration exactly if the
-- node is in its scope, and each other name, but for the empty and the special one, exactly if it
-- stood there before.
pub get_label_update-entries :
    (o : Observer) (n : Node) (desired : String) (out_of_date in_scope : Bool) (reason c : String)
    → IsName o.config_name
    → SortsTexts o.sort
    → is_in_scope o n ≡ scope in_scope reason
    → get_label_update o n ≡ update desired out_of_date
    → str_eq c "" ≡ false
    → str_eq c out_of_scope_label_value ≡ false
    → any (str_eq c) (split b'.' desired) ≡ (
        if str_eq c o.config_name
        then in_scope
        else any (str_eq c) (split b'.' (lookup_text configuration_label_key n.labels)))
get_label_update-entries o n desired out_of_date in_scope reason c name sorts h k e s =
    let original = lookup_text configuration_label_key n.labels in
    let wanted : value_desired o original in_scope ≡ desired =
      ap desired_of (sym (label_update-value o name sorts n in_scope reason h) ∙ k) in
    ap (λ v. any (str_eq c) (split b'.' v)) (sym wanted)
    ∙ ap (any (str_eq c)) (split-value_desired o name sorts original in_scope)
    ∙ any-Perm (str_eq c) (sorts.sort-perm (configs o original in_scope))
    ∙ any-configs o name sorts original in_scope c e s

some_inj : {a b : String} → some a ≡ some b → a ≡ b
some_inj {a} h = ap (λ o. elim o [ none ↦ a | some x ↦ x ]) h

lookup_text-insert : (k v : String) (m : List (String × String)) → lookup_text k (insert k v m) ≡ v
unfolding lookup_text
lookup_text-insert k v m = rw (lookup_text, lookup-insert k k v m, eq_refl k) refl

sent-desired :
    (answer : LabelUpdate) (desired : String) (count : ℕ)
    → (patch_if_out_of_date none answer).sent ≡ some desired
    → (desired_of answer ≡ desired)
      × (queue_call count (patch_if_out_of_date none answer).error ≡ forget)
unfolding patch_if_out_of_date queue_call
sent-desired (update_error e) desired count h = ground (arith, h)
sent-desired (update value false) desired count h = ground (arith, h)
sent-desired (update value true) desired count h = (some_inj h, refl)

abbrev label_update_from : Observer → Bool → (original : String) → LabelUpdate
label_update_from o in_scope original =
    let desired = value_desired o original in_scope in
    update desired (not (str_eq desired original))

fixed-settled :
    (o : Observer) (m : Node) (value reason : String) (in_scope : Bool)
    → IsName o.config_name
    → SortsTexts o.sort
    → is_in_scope o (with_label value m) ≡ scope in_scope reason
    → value_desired o value in_scope ≡ value
    → get_label_update o (with_label value m) ≡ update value false
fixed-settled o m value reason in_scope name sorts k fixed =
    label_update-value o name sorts (with_label value m) in_scope reason k
    ∙ ap (label_update_from o in_scope) (lookup_text-insert configuration_label_key value m.labels)
    ∙ ap (λ d. update d (not (str_eq d value))) fixed
    ∙ ap (λ b. update value (not b)) (eq_refl value)

update-desired :
    (o : Observer) (n : Node) (desired reason : String) (out_of_date in_scope : Bool)
    → IsName o.config_name
    → SortsTexts o.sort
    → is_in_scope o n ≡ scope in_scope reason
    → get_label_update o n ≡ update desired out_of_date
    → value_desired o (lookup_text configuration_label_key n.labels) in_scope ≡ desired
update-desired o n desired reason out_of_date in_scope name sorts h k =
    ap desired_of (sym (label_update-value o name sorts n in_scope reason h) ∙ k)

differs : (x y : String) → x ≢ y → str_eq x y ≡ false
differs x y n = elim (Bool-cases (str_eq x y)) [ inl e ↦ absurd (n ((eq_iff x y).0 e)) | inr e ↦ e ]

-- Where the name of the configuration is neither empty nor the special value and has no dot, and
-- sorting only rearranges: after the API server took the label that a turn of the queue sent, the
-- queue forgets the name, and if the scope of the node is the same with the new label, the label is
-- up to date and a period of the observer does not put the node in the queue again.
pub process_node-settles :
    (o : Observer) (n : Node) (in_scope : Bool) (reason desired : String) (requeue_count : ℕ)
    → IsName o.config_name
    → SortsTexts o.sort
    → is_in_scope o n ≡ scope in_scope reason
    → is_in_scope o (with_label desired n) ≡ scope in_scope reason
    → (patch_node_labels o (got n) none).sent ≡ some desired
    → ((process_node o true requeue_count (got n) none).1 ≡ forget)
      × (get_label_update o (with_label desired n) ≡ update desired false)
      × (nodes_to_queue o (with_label desired n ∷ []) ≡ [])
unfolding process_node nodes_to_queue keep_if patch_node_labels
process_node-settles o n in_scope reason desired requeue_count name sorts h k sent =
    let left = with_label desired n in
    let parts = sent-desired (get_label_update o n) desired requeue_count sent in
    let wanted : value_desired o (lookup_text configuration_label_key n.labels) in_scope ≡ desired =
      ap desired_of (sym (label_update-value o name sorts n in_scope reason h)) ∙ parts.0 in
    let fixed : value_desired o desired in_scope ≡ desired =
      subst (λ d. value_desired o d in_scope ≡ d) wanted
        (value_desired_twice o name sorts _ in_scope) in
    let settled : get_label_update o left ≡ update desired false =
      fixed-settled o n desired reason in_scope name sorts k fixed in
    (parts.1, settled, rw settled refl)

-- Two configurations with different names, both without a dot and neither the empty text nor the
-- special value, with a sort that only rearranges, write the label of a node one after the other.
-- If the scope of each stays the same with the new label, both then find the label up to date:
-- neither undoes or repeats what the other wrote.
pub get_label_update-undisturbed :
    (a b : Observer) (n : Node) (in_a in_b out_of_date_a out_of_date_b : Bool)
    → (why_a why_b written final : String) → a.config_name ≢ b.config_name
    → IsName a.config_name
    → IsName b.config_name
    → SortsTexts a.sort
    → SortsTexts b.sort
    → ((xs : List String) → a.sort xs ≡ b.sort xs)
    → is_in_scope a n ≡ scope in_a why_a
    → get_label_update a n ≡ update written out_of_date_a
    → is_in_scope b (with_label written n) ≡ scope in_b why_b
    → get_label_update b (with_label written n) ≡ update final out_of_date_b
    → is_in_scope a (with_label final (with_label written n)) ≡ scope in_a why_a
    → is_in_scope b (with_label final (with_label written n)) ≡ scope in_b why_b
    → (get_label_update a (with_label final (with_label written n)) ≡ update final false)
      × (get_label_update b (with_label final (with_label written n)) ≡ update final false)
get_label_update-undisturbed a b n in_a in_b date_a date_b why_a why_b written final ne a_name
      b_name a_sorts b_sorts same_sort sa wa sb wb ka kb =
    let middle = with_label written n in
    let original = lookup_text configuration_label_key n.labels in
    let by_a : value_desired a original in_a ≡ written =
      update-desired a n written why_a date_a in_a a_name a_sorts sa wa in
    let by_b : value_desired b written in_b ≡ final =
      ap (λ v. value_desired b v in_b)
        (sym (lookup_text-insert configuration_label_key written n.labels))
      ∙ update-desired b middle final why_b date_b in_b b_name b_sorts sb wb in
    let both : value_desired b (value_desired a original in_a) in_b ≡ final =
      ap (λ v. value_desired b v in_b) by_a ∙ by_b in
    let a_fixed : value_desired a final in_a ≡ final =
      subst (λ v. value_desired a v in_a ≡ v) both
        (value_desired-after_both a b a_name b_name a_sorts b_sorts (differs _ _ ne)
          (differs _ _ (λ e. ne (sym e))) same_sort original in_a in_b) in
    let b_fixed : value_desired b final in_b ≡ final =
      subst (λ v. value_desired b v in_b ≡ v) by_b
        (value_desired_twice b b_name b_sorts written in_b) in
    (
      fixed-settled a middle final why_a in_a a_name a_sorts ka a_fixed,
      fixed-settled b middle final why_b in_b b_name b_sorts kb b_fixed,
    )
