-- ===== src/Labels/Tests.antt =====
-- Two labels, of which one has no value.
use draino.Prelude.{◌≡◌, refl, String, false, List, [], ◌∷◌, lookup, insert}
use draino.Conditions.{split_once}
use draino.Labels.{
  add_label, add_parts, collect_labels, conflict, crash, expression_of,
  convert_labels_to_filter_expr, filter_processed,
}

abbrev two : List String
two = "pool=a" ∷ "spot=" ∷ []

abbrev as_expression : String
as_expression = "metadata.labels['pool'] == 'a' && 'spot' in metadata.labels"

two_pools : convert_labels_to_filter_expr (λ ks. ks) ("pool=a" ∷ "pool=b" ∷ []) ≡ conflict "a" "b"
unfolding convert_labels_to_filter_expr collect_labels add_parts add_label expression_of split_once
    lookup insert
two_pools = refl

no_equals_sign : convert_labels_to_filter_expr (λ ks. ks) ("spot" ∷ "pool=a" ∷ []) ≡ crash
unfolding convert_labels_to_filter_expr collect_labels add_parts expression_of split_once
no_equals_sign = refl

seen_once : (filter_processed "1" (filter_processed "1" []).0).1 ≡ false
unfolding filter_processed lookup insert
seen_once = refl
