-- ===== src/ApiResources/Tests.antt =====
-- A server with one version, of a kind and its subresource.
use draino.Prelude.{
  ◌≡◌, refl, Bool, true, not, ◌&&◌, ◌||◌, [], ◌∷◌, Option, none, some, if◌then◌else◌, str_eq,
  keep_if, any, all,
}
use draino.Prelude.Texts.{contains}
use draino.ApiResources.{
  ApiResource, Discovery, get_api_resources, gvk_of, is_named_by, add_found, stamp, resources_of,
  add_version, resources_of_versions, get_api_resources_for_groups_kind_version, is_subresource,
  with_uncontrolled, get_api_resources_for_gvk,
}
use draino.ApiResources.Named.{get_api_resources_for_gvk-exact}

abbrev deployment : ApiResource
deployment = record { name = "deployments"; kind = "Deployment"; group = "apps"; version = "v1" }

abbrev scale : ApiResource
scale = record { name = "deployments/scale"; kind = "Deployment"; group = "apps"; version = "v1" }

abbrev server : Discovery
server = record {
  server_groups = some (("apps/v1" ∷ "broken/v1" ∷ []) ∷ []);
  parse_group_version = λ v. some (if str_eq v "apps/v1" then "apps" else "broken", "v1");
  server_resources = λ v.
      if str_eq v "apps/v1"
      then some (some (record deployment { group = "" } ∷ record scale { group = "" } ∷ []))
      else none;
  parse_kind_arg = λ text. (none, ("", text));
}

all_resources : get_api_resources server ≡ some (deployment ∷ scale ∷ [])
unfolding get_api_resources resources_of_versions add_version resources_of stamp
all_resources = refl

resolved :
    get_api_resources_for_gvk server ("Deployment" ∷ "" ∷ []) ≡ some (none ∷ some deployment ∷ [])
unfolding get_api_resources_for_gvk get_api_resources resources_of_versions add_version resources_of
    stamp get_api_resources_for_groups_kind_version add_found is_named_by gvk_of with_uncontrolled
    contains keep_if any
resolved = refl

unknown : get_api_resources_for_gvk server ("Job" ∷ []) ≡ none
unfolding get_api_resources_for_gvk get_api_resources resources_of_versions add_version resources_of
    stamp get_api_resources_for_groups_kind_version add_found is_named_by gvk_of with_uncontrolled
    contains keep_if any
unknown = refl

get_api_resources_for_gvk-exact_example :
    ((q : Option ApiResource → Bool)
      → any q (none ∷ some deployment ∷ [])
        ≡ (any (λ g. str_eq g "") ("Deployment" ∷ "" ∷ []) && q none)
          || any
              (λ g.
                not (str_eq g "")
                && any
                    (λ r. is_named_by (gvk_of server g) r && (not (is_subresource r) && q (some r)))
                    (deployment ∷ scale ∷ []))
              ("Deployment" ∷ "" ∷ []))
    × (all
          (λ g. str_eq g "" || any (is_named_by (gvk_of server g)) (deployment ∷ scale ∷ []))
          ("Deployment" ∷ "" ∷ [])
        ≡ true)
get_api_resources_for_gvk-exact_example =
    get_api_resources_for_gvk-exact server ("Deployment" ∷ "" ∷ []) (deployment ∷ scale ∷ [])
      (none ∷ some deployment ∷ []) all_resources resolved
