-- ===== src/Controller/Ownership.antt =====
-- `removeSupabaseProjectOwnerReference` and `mergeLabels` of
-- internal/controller/supabaseproject_controller.go
pub mod Laws
use cloudnative_supabase.Prelude.{
  String, ◌==◌, Bool, true, false, ◌||◌, ◌&&◌, not, Option, none, some, List, [], ◌∷◌, Map,
  if◌then◌else◌,
}
use cloudnative_supabase.Prelude.Maps.{lookup, insert}
use cloudnative_supabase.Kube.Meta.{OwnerReference}

abbrev pub supabase_project_kind : String
supabase_project_kind = "SupabaseProject"

abbrev pub project_group : String
project_group = "supabase.guion.dev"

abbrev pub group_is : Option String → Bool
group_is none = false
group_is (some group) = group == project_group

-- `parse_group` is the group of `schema.ParseGroupVersion`, if there is no error.
unfoldable pub is_project_owner : (String → Option String) → String → OwnerReference → Bool
is_project_owner parse_group project_name owner =
    group_is (parse_group owner.api_version)
    && (owner.kind == supabase_project_kind && owner.name == project_name)

-- The loop: `filtered` and `changed`.
unfoldable pub filter_owners :
    (String → Option String) → String → List OwnerReference → List OwnerReference × Bool
filter_owners parse_group project_name [] = ([], false)
filter_owners parse_group project_name (owner ∷ owners) =
    let rest = filter_owners parse_group project_name owners in
    if is_project_owner parse_group project_name owner
    then (rest.0, true)
    else (owner ∷ rest.0, rest.1)

-- The owners that the object is left with, and whether they changed.
unfoldable pub remove_supabase_project_owner_reference :
    (String → Option String) → List OwnerReference → String → List OwnerReference × Bool
remove_supabase_project_owner_reference parse_group owners project_name =
    let filtered = filter_owners parse_group project_name owners in
    if project_name == "" then (owners, false) else if filtered.1 then filtered else (owners, false)

-- `labels[key]`: an absent label reads as "".
abbrev pub label_of : String → Map String → String
label_of key labels = elim (lookup key labels) [ none ↦ "" | some value ↦ value ]

-- `if labels[key] != value { labels[key] = value }`
unfoldable pub set_label : String → String → Map String → Map String
set_label key value labels =
    if label_of key labels == value then labels else insert key value labels

-- The labels that the object is left with, and whether they changed.
unfoldable pub merge_labels : Map String → Map String → Map String × Bool
merge_labels labels [] = (labels, false)
merge_labels labels ((key, value) ∷ desired) =
    let rest = merge_labels (set_label key value labels) desired in
    (rest.0, not (label_of key labels == value) || rest.1)
