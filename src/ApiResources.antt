-- ===== src/ApiResources.antt =====
-- internal/kubernetes/util.go: the API resources that the options name by their kinds, which the
-- filters of pods by controller take. The discovery client and the parsers of the package schema
-- are parameters.
mod Tests
pub mod Named
use draino.Prelude.{
  String, Bool, true, false, not, ◌&&◌, ◌||◌, List, [], ◌∷◌, ◌++◌, Option, none, some,
  if◌then◌else◌, str_eq, keep_if, any, map,
}
use draino.Prelude.Texts.{contains}

pub record ApiResource : Type 0 where
  pub name : String
  pub kind : String
  pub group : String
  pub version : String

-- A kind with an optional group and version, which are empty texts when they are left out.
pub record GroupVersionKind : Type 0 where
  pub group : String
  pub version : String
  pub kind : String

-- `parse_kind_arg` gives the group, version and kind, if all are there, and the group and kind.
pub record Discovery : Type 0 where
  pub server_groups : Option (List (List String))
  pub parse_group_version : String → Option (String × String)
  pub server_resources : (group_version : String) → Option (Option (List ApiResource))
  pub parse_kind_arg : String → Option GroupVersionKind × (String × String)

-- The group and the version of the list are written into its resources.
unfoldable pub stamp : (group version : String) → List ApiResource → List ApiResource
stamp group version rs =
    map {A = ApiResource} (λ r. record r { group = group; version = version }) rs

-- The resources of one version; an error of the server, and a missing list, pass it over.
unfoldable pub resources_of : Option (Option (List ApiResource)) → List ApiResource
resources_of none = []
resources_of (some none) = []
resources_of (some (some rs)) = rs

unfoldable pub add_version :
    Option (String × String)
    → List ApiResource
    → (rest : Option (List ApiResource)) → Option (List ApiResource)
unfolding stamp
add_version none rs rest = none
add_version (some gv) rs none = none
add_version (some (group, version)) rs (some rest) = some (stamp group version rs ++ rest)

unfoldable pub resources_of_versions : Discovery → List String → Option (List ApiResource)
unfolding add_version resources_of
resources_of_versions d [] = some []
resources_of_versions d (v ∷ vs) =
    add_version (d.parse_group_version v) (resources_of (d.server_resources v))
      (resources_of_versions d vs)

abbrev pub concat_all : List (List String) → List String
concat_all [] = []
concat_all (xs ∷ xss) = xs ++ concat_all xss

unfoldable pub get_api_resources : Discovery → Option (List ApiResource)
unfolding resources_of_versions
get_api_resources d = elim d.server_groups [
  | none ↦ none
  | some groups ↦ resources_of_versions d (concat_all groups)
]

unfoldable pub gvk_of : Discovery → String → GroupVersionKind
gvk_of d text =
    let (full, group_kind) = d.parse_kind_arg text in
    let (group, kind) = group_kind in
    elim full [ none ↦ record { group = group; version = ""; kind = kind } | some gvk ↦ gvk ]

unfoldable pub is_named_by : GroupVersionKind → ApiResource → Bool
is_named_by gvk r =
    (str_eq gvk.version "" || str_eq gvk.version r.version)
    && ((str_eq gvk.group "" || str_eq gvk.group r.group) && str_eq gvk.kind r.kind)

-- What is found for one text: a text for which there is nothing is an error.
unfoldable pub add_found :
    (found : List ApiResource) → (rest : Option (List ApiResource)) → Option (List ApiResource)
add_found [] rest = none
add_found (r ∷ rs) none = none
add_found (r ∷ rs) (some rest) = some ((r ∷ rs) ++ rest)

unfoldable pub get_api_resources_for_groups_kind_version :
    Discovery → List ApiResource → List String → Option (List ApiResource)
unfolding add_found is_named_by gvk_of
get_api_resources_for_groups_kind_version d rs [] = some []
get_api_resources_for_groups_kind_version d rs (text ∷ texts) =
    let rest = get_api_resources_for_groups_kind_version d rs texts in
    if str_eq text "" then none else add_found (keep_if (is_named_by (gvk_of d text)) rs) rest

abbrev pub is_subresource : ApiResource → Bool
is_subresource r = contains "/" r.name

-- The empty text stands for pods without a controller, which is `none` in the result.
unfoldable pub with_uncontrolled :
    (has_empty : Bool) → Option (List ApiResource) → Option (List (Option ApiResource))
with_uncontrolled has_empty none = none
with_uncontrolled has_empty (some rs) =
    let named = map some (keep_if (λ r. not (is_subresource r)) rs) in
    some (if has_empty then none ∷ named else named)

unfoldable pub get_api_resources_for_gvk :
    Discovery → List String → Option (List (Option ApiResource))
unfolding get_api_resources get_api_resources_for_groups_kind_version with_uncontrolled
get_api_resources_for_gvk d gvks = elim (get_api_resources d) [
  | none ↦ none
  | some all_resources ↦ with_uncontrolled (any (λ g. str_eq g "") gvks) (
      get_api_resources_for_groups_kind_version d all_resources
        (keep_if (λ g. not (str_eq g "")) gvks))
]
