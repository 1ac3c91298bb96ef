-- ===== src/ScopeObserver/Tests.antt =====
-- Two configurations of which one finds every node in its scope, and the other does as well.
use draino.Prelude.{
  ◌≡◌, ◌≢◌, refl, ap, String, true, false, [], ◌∷◌, none, some, if◌then◌else◌, str_eq, keep_if, any,
  lookup, lookup_text, insert, arith,
}
use draino.Prelude.Texts.{split, cons_head, join, occurs}
use draino.K8s.{Node}
use draino.Scheduler.Tests.{put, insertion_sort}
use draino.ScopeObserver.{
  Observer, listed, passes, scope, is_in_scope, is_node_nla_enable_by_label, listed_in_scope,
  pods_in_scope, is_other, configs, configuration_label_key, value_desired, update,
  get_label_update, with_label, got, patch_node_labels, patch_if_out_of_date, forget, process_node,
  nodes_to_queue,
}
use draino.ScopeObserver.Entries.{IsName}
use draino.ScopeObserver.Settled.{
  get_label_update-entries, process_node-settles, get_label_update-undisturbed,
}
use draino.ScopeObserver.TextOrder.{sort_texts, sort_texts-SortsTexts}

abbrev named : String → Observer
named config_name = record {
  config_name = config_name;
  node_filter = λ n. true;
  list_pods_for_node = λ name. listed [];
  pod_filter = λ p. passes true "";
  sort = sort_texts;
}

abbrev fresh : Node
fresh = record {
  name = "n";
  labels = [];
  annotations = [];
  taints = [];
  conditions = [];
  deletion_timestamp = none;
}

a_IsName : IsName "a"
a_IsName = record { not_empty = refl; no_dot = unfold occurs in refl; not_special = refl }

b_IsName : IsName "b"
b_IsName = record { not_empty = refl; no_dot = unfold occurs in refl; not_special = refl }

in_scope : (config_name : String) → is_in_scope (named config_name) fresh ≡ scope true ""
unfolding is_in_scope is_node_nla_enable_by_label listed_in_scope pods_in_scope lookup
in_scope config_name = refl

in_scope_labelled :
    (config_name value : String)
    → is_in_scope (named config_name) (with_label value fresh) ≡ scope true ""
unfolding is_in_scope is_node_nla_enable_by_label listed_in_scope pods_in_scope lookup insert
in_scope_labelled config_name value = refl

in_scope_twice :
    (config_name value later : String)
    → is_in_scope (named config_name) (with_label later (with_label value fresh)) ≡ scope true ""
unfolding is_in_scope is_node_nla_enable_by_label listed_in_scope pods_in_scope lookup insert
in_scope_twice config_name value later = refl

first : get_label_update (named "a") fresh ≡ update "a" true
unfolding get_label_update is_in_scope is_node_nla_enable_by_label listed_in_scope pods_in_scope
    lookup lookup_text value_desired configs is_other split cons_head keep_if join put
    insertion_sort
first = refl

second : get_label_update (named "b") (with_label "a" fresh) ≡ update "a.b" true
unfolding get_label_update is_in_scope is_node_nla_enable_by_label listed_in_scope pods_in_scope
    lookup lookup_text insert value_desired configs is_other split cons_head keep_if join put
    insertion_sort
second = refl

nobody : value_desired (named "a") "a" false ≡ "out-of-scope"
unfolding value_desired configs is_other split cons_head keep_if join put insertion_sort
nobody = refl

-- With a dot in the name of a configuration its label grows with every period.
dot_grows : value_desired (named "a.b") "a.b" true ≡ "a.a.b.b"
unfolding value_desired configs is_other split cons_head keep_if join put insertion_sort
dot_grows = refl

sent : (patch_node_labels (named "a") (got fresh) none).sent ≡ some "a"
unfolding patch_node_labels patch_if_out_of_date get_label_update is_in_scope
    is_node_nla_enable_by_label listed_in_scope pods_in_scope lookup lookup_text value_desired
    configs is_other split cons_head keep_if join put insertion_sort
sent = refl

get_label_update-entries_example : any (str_eq "a") (split b'.' "a.b") ≡ (
    if str_eq "a" "b"
    then true
    else any
        (str_eq "a")
        (split b'.' (lookup_text configuration_label_key (with_label "a" fresh).labels)))
get_label_update-entries_example =
    get_label_update-entries (named "b") (with_label "a" fresh) "a.b" true true "" "a" b_IsName
      sort_texts-SortsTexts (in_scope_labelled "b" "a") second refl refl

process_node-settles_example :
    ((process_node (named "a") true 3 (got fresh) none).1 ≡ forget)
    × (get_label_update (named "a") (with_label "a" fresh) ≡ update "a" false)
    × (nodes_to_queue (named "a") (with_label "a" fresh ∷ []) ≡ [])
process_node-settles_example =
    process_node-settles (named "a") fresh true "" "a" 3 a_IsName sort_texts-SortsTexts
      (in_scope "a") (in_scope_labelled "a" "a") sent

different : (named "a").config_name ≢ (named "b").config_name
different e = ground (arith, ap (λ s. str_eq s "b") e)

get_label_update-undisturbed_example :
    (get_label_update (named "a") (with_label "a.b" (with_label "a" fresh)) ≡ update "a.b" false)
    × (get_label_update (named "b") (with_label "a.b" (with_label "a" fresh)) ≡ update "a.b" false)
get_label_update-undisturbed_example =
    get_label_update-undisturbed (named "a") (named "b") fresh true true true true "" "" "a" "a.b"
      different a_IsName b_IsName sort_texts-SortsTexts sort_texts-SortsTexts (λ xs. refl)
      (in_scope "a") first (in_scope_labelled "b" "a") second (in_scope_twice "a" "a" "a.b")
      (in_scope_twice "b" "a" "a.b")
