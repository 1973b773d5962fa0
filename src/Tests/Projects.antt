-- ===== src/Tests/Projects.antt =====
-- Schemas, the environment of GoTrue, and the objects of a project.
use cloudnative_supabase.Prelude.{
  ◌≡◌, String, ◌≢◌, ◌↔◌, refl, Option, none, some, List, [], ◌∷◌, ◌++◌, ok, codes, All,
}
use cloudnative_supabase.Prelude.Maps.{lookup}
use cloudnative_supabase.Kube.Meta.{Bytes}
use cloudnative_supabase.Kube.Core.{EnvVar}
use cloudnative_supabase.Kube.Cnpg.{BootstrapConfiguration}
use cloudnative_supabase.Api.Project.{selector_labels, component_labels}
use cloudnative_supabase.Api.Schemas.{effective_publication_schemas}
use cloudnative_supabase.Api.Schemas.Laws.{
  IsIdentifier, Distinct, effective_publication_schemas_iff,
}
use cloudnative_supabase.Common.Url.{Url}
use cloudnative_supabase.Deployments.GoTrueEnv.{apply_go_true_env}
use cloudnative_supabase.Deployments.GoTrueEnv.Laws.{
  or_else, permitted, value_of, value_of-apply_go_true_env,
}
use cloudnative_supabase.Services.{build_auth_service, build_rest_service, build_meta_service}
use cloudnative_supabase.Deployments.Helpers.Laws.{Selects, selector_labels_iff}
use cloudnative_supabase.Deployments.Reach.{Serves, core_services-Serves}
use cloudnative_supabase.Deployments.Auth.{build_auth_deployment}
use cloudnative_supabase.Deployments.Rest.{build_rest_deployment}
use cloudnative_supabase.Deployments.Meta.{build_meta_deployment}
use cloudnative_supabase.Deployments.AuthEnv.{plain, build_auth_env}
use cloudnative_supabase.Deployments.AuthEnv.Laws.{build_auth_env-IsContract, Contract}
use cloudnative_supabase.Cnpg.Parameters.{
  default_parameters, merge_parameters, lookup-merge_parameters, last_value, first_of,
}
use cloudnative_supabase.Cnpg.Roles.{apply_generated_role_defaults, base_roles, build_all_roles}
use cloudnative_supabase.Cnpg.Roles.Laws.{IsGenerated, powersync_part, build_all_roles-IsGenerated}
use cloudnative_supabase.Cnpg.Cluster.{build_cluster}
use cloudnative_supabase.Cnpg.Backup.{
  build_object_store, build_recovery_object_store, build_scheduled_backup,
}
use cloudnative_supabase.Cnpg.Coherence.{
  IsBackupPlan, IsStart, build_cluster-IsBackupPlan, build_cluster-IsStart,
}
use cloudnative_supabase.Tests.Objects.{
  test_project, test_powersync, test_schemas, test_secret_names, test_go_true_env,
}

effective_publication_schemas_iff_example :
    (effective_publication_schemas test_project ≡ ok test_schemas) ↔ (
      (test_schemas ≡ test_schemas)
      × (test_schemas ≢ [])
      × All IsIdentifier test_schemas
      × Distinct test_schemas)
effective_publication_schemas_iff_example =
    effective_publication_schemas_iff test_project test_powersync test_schemas test_schemas refl
      refl

abbrev operator_part : List EnvVar
operator_part =
    plain "GOTRUE_JWT_SECRET" (codes "ours") ∷ plain "GOTRUE_MAILER_OTP_EXP" (codes "3600") ∷ []

value_of-apply_go_true_env_example :
    value_of "GOTRUE_MAILER_OTP_EXP" (apply_go_true_env operator_part test_go_true_env)
    ≡ or_else
        (permitted "GOTRUE_MAILER_OTP_EXP" test_go_true_env)
        (value_of "GOTRUE_MAILER_OTP_EXP" operator_part)
value_of-apply_go_true_env_example =
    value_of-apply_go_true_env operator_part test_go_true_env "GOTRUE_MAILER_OTP_EXP"

-- URLs that are taken as they stand.
abbrev keep : Bytes → Bytes
keep bytes = bytes

abbrev no_url : Bytes → Option Url
no_url bytes = none

abbrev print_path : Url → Bytes
print_path u = u.path

build_auth_env-IsContract_example :
    Contract test_project test_secret_names keep no_url print_path
      (build_auth_env test_project test_secret_names keep no_url print_path (codes "shop-pg-rw"))
build_auth_env-IsContract_example =
    build_auth_env-IsContract test_project test_secret_names keep no_url print_path
      (codes "shop-pg-rw")

selector_labels_iff_example :
    Selects (selector_labels test_project "auth") (component_labels test_project "rest")
    ↔ ((test_project.name ≡ test_project.name) × (◌≡◌ {A = String} "rest" "auth"))
selector_labels_iff_example = selector_labels_iff test_project test_project "auth" "rest"

core_services-Serves_example :
    Serves
      (build_auth_service test_project)
      (build_auth_deployment keep no_url print_path test_project test_secret_names)
    × Serves
        (build_rest_service test_project)
        (build_rest_deployment test_project test_secret_names)
    × Serves
        (build_meta_service test_project)
        (build_meta_deployment test_project test_secret_names)
core_services-Serves_example =
    core_services-Serves keep no_url print_path test_project test_secret_names

lookup-merge_parameters_example :
    lookup "wal_level" (merge_parameters default_parameters (("wal_level", "replica") ∷ []))
    ≡ first_of
        (last_value "wal_level" (("wal_level", "replica") ∷ []))
        (last_value "wal_level" default_parameters)
lookup-merge_parameters_example =
    lookup-merge_parameters "wal_level" default_parameters (("wal_level", "replica") ∷ [])

build_all_roles-IsGenerated_example :
    (build_all_roles test_project test_secret_names
      ≡ apply_generated_role_defaults (base_roles test_secret_names)
        ++ ([] ++ powersync_part test_project test_secret_names))
    × All IsGenerated (apply_generated_role_defaults (base_roles test_secret_names))
    × All IsGenerated (powersync_part test_project test_secret_names)
build_all_roles-IsGenerated_example = build_all_roles-IsGenerated test_project test_secret_names

build_cluster-IsBackupPlan_example :
    IsBackupPlan
      (build_cluster test_project test_secret_names)
      (build_object_store test_project)
      (build_scheduled_backup test_project)
build_cluster-IsBackupPlan_example = build_cluster-IsBackupPlan test_project test_secret_names

build_cluster-IsStart_example :
    (bootstrap : BootstrapConfiguration) × ((build_cluster test_project
        test_secret_names).spec.bootstrap
      ≡ some bootstrap)
    × IsStart
        (build_cluster test_project test_secret_names)
        bootstrap
        (build_recovery_object_store test_project)
build_cluster-IsStart_example = build_cluster-IsStart test_project test_secret_names
