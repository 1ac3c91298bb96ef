-- ===== src/Groups/Override.antt =====
-- The overrides of a group key.
use draino.Prelude.{
  ◌≡◌, ◌≢◌, refl, ◌∙◌, sym, ap, String, Bool, true, false, not, ◌&&◌, List, [], ◌∷◌, Option, none,
  some, if◌then◌else◌, str_eq, eq_iff, eq_refl, lookup, insert, delete, lookup-insert,
  lookup-delete, arith, Bool-cases, Option-cases, inl, inr, ◌==◌, ◌⊎◌,
}
use Prim.Native.String.{◌++◌ as append}
use Prim.Native.Char.{Char, code}
use text.Mathlib.TextLemmas.{nil-append, cons-append, append-nil, cons≢nil}
use draino.Prelude.Texts.{split, join, replace, cons_head}
use draino.K8s.{Node}
use draino.Taints.{TaintLib}
use draino.Groups.{
  GroupKeyFromMetadata, drain_group_key, pod_suffix, key_of_override, get_group_override_annotation,
  get_group_key, unique_override, get_group_override_from_pods, update_group_key_on_node,
  is_in_drain, same_bool, store_pod_override, update_pod_group_override_annotation,
}

join_step :
    (c : Char) (p : String) (ps : List String)
    → join "#" (if code c == b',' then "" ∷ p ∷ ps else cons_head c (p ∷ ps))
      ≡ String.◌∷◌ (if code c == b',' then "#" else c) (join "#" (p ∷ ps))
unfolding join cons_head
join_step c p ps = elim (Bool-cases (code c == b',')) [
  | inl e ↦ rw (e, nil-append) (cons-append "#" "" _ ∙ ap (String.◌∷◌ "#") (nil-append _))
  | inr e ↦ rw (e) (head_step c p ps)
]
  where
    head_step :
        (c : Char) (p : String) (ps : List String)
        → join "#" (String.◌∷◌ c p ∷ ps) ≡ String.◌∷◌ c (join "#" (p ∷ ps))
    head_step c p [] = refl
    head_step c p (q ∷ qs) = cons-append c p _

split_nonempty : (s : String) → (p : String) × (ps : List String) × (split b',' s ≡ p ∷ ps)
unfolding split cons_head
split_nonempty String.[] = ("", [], refl)
split_nonempty (String.◌∷◌ c s) = elim (Bool-cases (code c == b',')) [
  | inl e ↦ ("", split b',' s, ground (arith, e))
  | inr e ↦ let t = split_nonempty s in (String.◌∷◌ c t.0, t.1, ground (arith, e, t.2))
]

-- Splitting at one character and joining with another exchanges the two.
join-split : (s : String) → key_of_override s ≡ replace b',' "#" s
unfolding key_of_override split replace
join-split String.[] = unfold join in refl
join-split (String.◌∷◌ c s) =
    let t = split_nonempty s in rw (sym (join-split s), t.2) (join_step c t.0 t.1)

replace-replace : (s : String) → replace b',' "#" (replace b',' "#" s) ≡ replace b',' "#" s
unfolding replace
replace-replace String.[] = refl
replace-replace (String.◌∷◌ c s) = elim (Bool-cases (code c == b',')) [
  | inl e ↦ rw (e) (ap (String.◌∷◌ "#") (replace-replace s))
  | inr e ↦ rw (e, e) (ap (String.◌∷◌ c) (replace-replace s))
]

-- A key made from an override is the key of itself, so that it may be stored as an annotation.
pub key_of_override-idempotent :
    (s : String) → key_of_override (key_of_override s) ≡ key_of_override s
key_of_override-idempotent s = rw (join-split (key_of_override s), join-split s) (replace-replace s)

cons_nonempty : (c : Char) (s : String) → str_eq (String.◌∷◌ c s) "" ≡ false
cons_nonempty c s = elim (Bool-cases (str_eq (String.◌∷◌ c s) "")) [
  | inl e ↦ absurd (cons≢nil ((eq_iff (String.◌∷◌ c s) "").0 e))
  | inr e ↦ e
]

replace_nonempty : (t : String) → str_eq t "" ≡ false → str_eq (replace b',' "#" t) "" ≡ false
unfolding replace
replace_nonempty String.[] k = k
replace_nonempty (String.◌∷◌ c t) k = cons_nonempty _ _

nonempty : (s : String) → str_eq s "" ≡ false → str_eq (key_of_override s) "" ≡ false
nonempty s h = rw (join-split s) (replace_nonempty s h)

-- A node's own override, if it is not empty and the feature is configured, decides the key with
-- its commas replaced, whatever its labels, its other annotations and its pods say.
get_group_key-override :
    (g : GroupKeyFromMetadata) (n : Node) (override : String)
    → str_eq g.group_override_annotation_key "" ≡ false
    → lookup g.group_override_annotation_key n.annotations ≡ some override
    → str_eq override "" ≡ false
    → get_group_key g n ≡ replace b',' "#" override
unfolding get_group_key get_group_override_annotation
get_group_key-override g n override h e k =
    rw (append-nil g.group_override_annotation_key, h, e, k) (join-split override)

-- Two pods, of which one has an empty override: where the indexer lists it first, the override of the
-- other counts; where it lists it second, neither does.
pub override_from_pods-order :
    (override : String)
    → str_eq override "" ≡ false
    → (get_group_override_from_pods (some (some "" ∷ some override ∷ []))
        ≡ (replace b',' "#" override, true))
      × (get_group_override_from_pods (some (some override ∷ some "" ∷ [])) ≡ ("", false))
unfolding get_group_override_from_pods unique_override
override_from_pods-order override h = (
  ground (arith, h, eq_refl override, join-split override),
  ground (arith, h, eq_iff "" override, eq_iff override "", eq_refl override),
)

-- What the pods give: nothing, or a key that is made from an override.
from_pods-cases :
    (pods : Option (List (Option String)))
    → (get_group_override_from_pods pods ≡ ("", false))
      ⊎ ((k : String) × (get_group_override_from_pods pods ≡ (k, true))
          × (str_eq k "" ≡ false)
          × (key_of_override k ≡ k))
unfolding get_group_override_from_pods
from_pods-cases none = inl refl
from_pods-cases (some pods) = elim (Option-cases (unique_override "" pods)) [
  | inl e ↦ inl (ground (arith, e))
  | inr (o, e) ↦ elim (Bool-cases (str_eq o "")) [
    | inl f ↦ inl (ground (arith, e, f))
    | inr f ↦
        inr (key_of_override o, ground (arith, e, f), nonempty o f, key_of_override-idempotent o)
  ]
]

module _ (g : GroupKeyFromMetadata) (h : str_eq g.group_override_annotation_key "" ≡ false) where
  abbrev pod_key : String
  pod_key = append g.group_override_annotation_key pod_suffix

  override_at :
      (m : Node) (o : Option String)
      → lookup pod_key m.annotations ≡ o
      → get_group_override_annotation g m pod_suffix ≡ elim o [
        | none ↦ ("", false)
        | some v ↦ if str_eq v "" then ("", false) else (key_of_override v, true)
      ]
  unfolding get_group_override_annotation
  override_at m o e = rw (h, e) refl

  update_group_key-override :
      (read m : Node)
      → str_eq drain_group_key pod_key ≡ false
      → get_group_override_annotation g (update_group_key_on_node g read m) pod_suffix
        ≡ get_group_override_annotation g m pod_suffix
  unfolding get_group_override_annotation update_group_key_on_node
  update_group_key-override read m e =
      ground (arith, e, lookup-insert drain_group_key pod_key (get_group_key g read) m.annotations)

  deleted :
      (n : Node)
      → str_eq drain_group_key pod_key ≡ false
      → get_group_override_annotation g
          (update_group_key_on_node g n (record n { annotations = delete pod_key n.annotations }))
          pod_suffix
        ≡ ("", false)
  deleted n e =
      update_group_key-override n _ e
      ∙ override_at _ none
          (ground (arith, lookup-delete pod_key pod_key n.annotations, eq_refl pod_key))

  inserted :
      (n : Node) (v : String)
      → str_eq drain_group_key pod_key ≡ false
      → get_group_override_annotation g
          (update_group_key_on_node g n (record n { annotations = insert pod_key v n.annotations }))
          pod_suffix
        ≡ (if str_eq v "" then ("", false) else (key_of_override v, true))
  inserted n v e =
      update_group_key-override n _ e
      ∙ override_at _ (some v)
          (ground (arith, lookup-insert pod_key pod_key v n.annotations, eq_refl pod_key))

  store_pod_override-none :
      (n : Node)
      → str_eq drain_group_key pod_key ≡ false
      → get_group_override_annotation g (store_pod_override g ("", false) n) pod_suffix
        ≡ ("", false)
  unfolding store_pod_override
  store_pod_override-none n e =
      let of_node = get_group_override_annotation g n pod_suffix in
      ground (arith, deleted n e, inserted n "" e, eq_refl "", eq_iff "" of_node.0)

  store_pod_override-some :
      (n : Node) (k : String)
      → str_eq drain_group_key pod_key ≡ false
      → str_eq k "" ≡ false
      → key_of_override k ≡ k
      → get_group_override_annotation g (store_pod_override g (k, true) n) pod_suffix ≡ (k, true)
  unfolding store_pod_override
  store_pod_override-some n k e ne same =
      let of_node = get_group_override_annotation g n pod_suffix in
      ground (arith, ne, same, inserted n k e, eq_iff k of_node.0)

-- After the update, the override that the pods give is the one that the node keeps, if the node is
-- not being drained, the feature is configured with a key that is not the group's own, and no patch
-- fails.
pub update_pod_override-sets :
    (lib : TaintLib) (g : GroupKeyFromMetadata) (pods : Option (List (Option String))) (n : Node)
    → str_eq g.group_override_annotation_key "" ≡ false
    → str_eq drain_group_key (append g.group_override_annotation_key pod_suffix) ≡ false
    → is_in_drain lib n ≡ false
    → get_group_override_annotation g (update_pod_group_override_annotation lib g pods n) pod_suffix
      ≡ get_group_override_from_pods pods
unfolding update_pod_group_override_annotation
update_pod_override-sets lib g pods n h e f = elim (from_pods-cases pods) [
  | inl p ↦ rw (f, p) (store_pod_override-none g h n e)
  | inr (k, p, ne, same) ↦ rw (f, p) (store_pod_override-some g h n k e ne same)
]

-- The key that is written last is the one of the node that was read.
group_key-stored :
    (g : GroupKeyFromMetadata) (read stored : Node)
    → lookup drain_group_key stored.annotations ≡ lookup drain_group_key read.annotations
    → lookup drain_group_key (update_group_key_on_node g read stored).annotations
      ≡ some (get_group_key g read)
unfolding update_group_key_on_node
group_key-stored g read stored same =
    let key = get_group_key g read in
    let written : lookup drain_group_key (insert drain_group_key key stored.annotations)
        ≡ some key =
      lookup-insert drain_group_key drain_group_key key stored.annotations in
    elim (Option-cases (lookup drain_group_key read.annotations)) [
      | inl e ↦ rw (update_group_key_on_node, e) written
      | inr (old, e) ↦ elim (Bool-cases (str_eq old key)) [
        | inl k ↦ rw (update_group_key_on_node, e, k) (same ∙ e ∙ ap some ((eq_iff old key).0 k))
        | inr k ↦ rw (update_group_key_on_node, e, k) written
      ]
    ]

same_override : (a b : String × Bool) → (str_eq a.0 b.0 && same_bool a.1 b.1) ≡ true → a ≡ b
same_override (a, x) (b, y) h =
    let names : a ≡ b = (eq_iff a b).0 (ground (arith, h)) in
    let flags : x ≡ y = ground (arith, h) in λ i. (names i, flags i)

-- When the pods give another override than the node keeps, the node is left with the group key that
-- its annotations gave before the update, not with that of the override that it now keeps, if the
-- node is not being drained, the override's key is not the group's own, and no patch fails.
pub update_pod_override-stale_key :
    (lib : TaintLib) (g : GroupKeyFromMetadata) (pods : Option (List (Option String))) (n : Node)
    → str_eq drain_group_key (append g.group_override_annotation_key pod_suffix) ≡ false
    → is_in_drain lib n ≡ false
    → get_group_override_from_pods pods ≢ get_group_override_annotation g n pod_suffix
    → lookup drain_group_key (update_pod_group_override_annotation lib g pods n).annotations
      ≡ some (get_group_key g n)
unfolding update_pod_group_override_annotation store_pod_override
update_pod_override-stale_key lib g pods n e f differ =
    let of_pods = get_group_override_from_pods pods in
    let of_node = get_group_override_annotation g n pod_suffix in
    let key = append g.group_override_annotation_key pod_suffix in
    let behind : str_eq key drain_group_key ≡ false =
      ground (arith, e, eq_iff key drain_group_key, eq_iff drain_group_key key) in
    elim (Bool-cases (str_eq of_pods.0 of_node.0 && same_bool of_pods.1 of_node.1)) [
      | inl k ↦ absurd (differ (same_override of_pods of_node k))
      | inr k ↦ elim (Bool-cases (not of_pods.1 && of_node.1)) [
        | inl d ↦
            rw (f, k, d)
              (group_key-stored g n _
                (lookup-delete key drain_group_key n.annotations ∙ rw behind refl))
        | inr d ↦
            rw (f, k, d)
              (group_key-stored g n _
                (lookup-insert key drain_group_key of_pods.0 n.annotations ∙ rw behind refl))
      ]
    ]
