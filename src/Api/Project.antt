-- ===== src/Api/Project.antt =====
-- api/v1alpha1/supabaseproject_types.go: the resource. The names that all resources derive from it
-- are in internal/resources/common/labels.go.
use cloudnative_supabase.Prelude.{String, Map, [], ◌∷◌, codes}
use cloudnative_supabase.Prelude.Maps.{insert}
use cloudnative_supabase.Kube.Meta.{Bytes, ObjectMeta}
use cloudnative_supabase.Api.Spec.{SupabaseProjectSpec}
use cloudnative_supabase.Api.Status.{SupabaseProjectStatus}

pub record SupabaseProject : Type 0 where
  pub metadata : ObjectMeta
  pub open metadata use *
  pub spec : SupabaseProjectSpec
  pub status : SupabaseProjectStatus

abbrev pub label_managed_by : String
label_managed_by = "app.kubernetes.io/managed-by"

abbrev pub label_instance : String
label_instance = "app.kubernetes.io/instance"

abbrev pub label_component : String
label_component = "app.kubernetes.io/component"

abbrev pub label_part_of : String
label_part_of = "app.kubernetes.io/part-of"

abbrev pub label_name : String
label_name = "app.kubernetes.io/name"

unfoldable pub reloader_annotations : Map Bytes
reloader_annotations = ("reloader.stakater.com/auto", codes "true") ∷ []

unfoldable pub common_labels : SupabaseProject → Map String
common_labels project =
    (label_managed_by, "cloudnative-supabase")
    ∷ (label_instance, project.name)
    ∷ (label_part_of, "supabase")
    ∷ []

unfoldable pub component_labels : SupabaseProject → String → Map String
unfolding common_labels insert
component_labels project component =
    insert label_name component (insert label_component component (common_labels project))

unfoldable pub selector_labels : SupabaseProject → String → Map String
selector_labels project component =
    (label_instance, project.name) ∷ (label_component, component) ∷ []
