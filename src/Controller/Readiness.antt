-- ===== src/Controller/Readiness.antt =====
-- internal/controller/supabaseproject_controller.go: when parts of a project count as ready, and
-- which projects an object wakes.
pub mod Laws
use cloudnative_supabase.Prelude.{
  String, ◌==◌, Bool, true, false, ◌||◌, ◌&&◌, Option, none, some, List, [], ◌∷◌, Map, ℤ, pos,
  ◌=ℤ=◌, Result, ok, err, errorf, if◌then◌else◌,
}
use cloudnative_supabase.Prelude.Maps.{lookup}
use cloudnative_supabase.Kube.Meta.{NamespacedName}
use cloudnative_supabase.Kube.Core.{Deployment}
use cloudnative_supabase.Kube.Cnpg.{ClusterStatus, Publication}
use cloudnative_supabase.Api.Spec.{PowersyncSpec}
use cloudnative_supabase.Api.Project.{SupabaseProject}
use cloudnative_supabase.Common.Names.{
  cluster_name, scheduled_backup_name, object_store_name, recovery_object_store_name,
}

-- `deployment.Spec.Replicas`, or 1
abbrev pub expected_replicas : Option ℤ → ℤ
expected_replicas none = pos 1
expected_replicas (some replicas) = replicas

unfoldable pub deployment_is_ready : Deployment → Bool
deployment_is_ready deployment =
    let expected = expected_replicas deployment.replicas in
    let status = deployment.status in
    status.observed_generation =ℤ= deployment.meta.generation
    && (status.updated_replicas =ℤ= expected
        && (status.ready_replicas =ℤ= expected
            && (status.available_replicas =ℤ= expected && status.unavailable_replicas =ℤ= pos 0)))

unfoldable pub core_services_ready : SupabaseProject → Bool
core_services_ready project =
    let services = project.status.services in
    services.auth.ready
    && (services.rest.ready
        && (services.studio.ready && (services.meta.ready && services.gateway.ready)))

abbrev is_true : Option Bool → Bool
is_true none = false
is_true (some b) = b

unfoldable pub publication_is_applied : Publication → Bool
publication_is_applied publication =
    publication.observed_generation =ℤ= publication.meta.generation && is_true publication.applied

-- `m[key]`, where a missing key reads as no elements.
abbrev pub elements : String → Map (List String) → List String
elements key m = elim (lookup key m) [ none ↦ [] | some names ↦ names ]

abbrev pub contains : String → List String → Bool
contains name [] = false
contains name (n ∷ names) = n == name || contains name names

abbrev has_elements : List String → Bool
has_elements [] = false
has_elements (_ ∷ _) = true

unfoldable pub power_sync_managed_roles_ready : ClusterStatus → Result Bool
power_sync_managed_roles_ready status =
    if has_elements (elements "powersync_storage" status.cannot_reconcile)
    then err (errorf "CloudNativePG cannot reconcile role powersync_storage")
    else if has_elements (elements "powersync_replication" status.cannot_reconcile)
    then err (errorf "CloudNativePG cannot reconcile role powersync_replication")
    else let reconciled = elements "reconciled" status.roles_by_status in
      ok (contains "powersync_storage" reconciled && contains "powersync_replication" reconciled)

abbrev request_for : SupabaseProject → NamespacedName
request_for project = record { name = project.name; namespace = project.namespace }

-- The `continue` condition of the loop, negated.
abbrev pub reads_rules : String → Option PowersyncSpec → Bool
reads_rules name none = false
reads_rules name (some powersync) = powersync.sync_rules.config_map_ref == name

-- The loop of `mapPowerSyncConfigMapToProjects`, over the projects of the object's namespace.
unfoldable pub map_power_sync_config_map_to_projects :
    List SupabaseProject → String → List NamespacedName
map_power_sync_config_map_to_projects [] name = []
map_power_sync_config_map_to_projects (project ∷ projects) name =
    let rest = map_power_sync_config_map_to_projects projects name in
    if reads_rules name project.spec.powersync then request_for project ∷ rest else rest

-- The loop of `mapProjectCredentialsSecretToProjects`.
unfoldable pub map_project_credentials_secret_to_projects :
    List SupabaseProject → String → List NamespacedName
map_project_credentials_secret_to_projects [] name = []
map_project_credentials_secret_to_projects (project ∷ projects) name =
    let rest = map_project_credentials_secret_to_projects projects name in
    if project.spec.project_credentials_secret == name then request_for project ∷ rest else rest

-- The kinds of object that outlive a project.
pub data Durable : Type 0 where
  cluster : Durable
  scheduled_backup : Durable
  object_store : Durable
  other : Durable

unfoldable pub belongs : Durable → String → SupabaseProject → Bool
belongs cluster name project = name == cluster_name project
belongs scheduled_backup name project = name == scheduled_backup_name project
belongs object_store name project =
    name == object_store_name project || name == recovery_object_store_name project
belongs other name project = false
