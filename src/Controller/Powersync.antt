-- ===== src/Controller/Powersync.antt =====
-- `reconcilePowersync` and `cleanupPowerSync` with their parts, of
-- internal/controller/supabaseproject_controller.go, and `BuildPowersyncSyncRulesConfigMap` of
-- internal/resources/configmaps/powersync.go
pub mod Laws
use cloudnative_supabase.Prelude.{
  ℕ, String, ◌<>◌, ◌==◌, Bool, true, false, ◌||◌, ◌&&◌, not, Option, none, some, is_some, List, [],
  ◌∷◌, ◌++◌, Result, ok, err, Error, if◌then◌else◌, bytes_eq,
}
use cloudnative_supabase.Prelude.Maps.{lookup}
use cloudnative_supabase.Kube.Meta.{Bytes, or_empty, ObjectMeta, NamespacedName}
use cloudnative_supabase.Kube.Core.{ConfigMap, Deployment, CronJob}
use cloudnative_supabase.Api.Spec.{SyncRulesSpec}
use cloudnative_supabase.Api.Status.{ServiceStatus}
use cloudnative_supabase.Api.Project.{SupabaseProject}
use cloudnative_supabase.Common.Names.{
  powersync_api_deployment_name, powersync_replication_deployment_name,
  powersync_compact_cron_job_name, powersync_config_map_name, powersync_sync_rules_config_map_name,
  cdc_config_map_name, cdc_job_name,
}
use cloudnative_supabase.Cnpg.Cluster.{component_meta}
use cloudnative_supabase.Crypto.Library.{Library}
use cloudnative_supabase.Crypto.Decimal.{hex}
use cloudnative_supabase.Services.{build_powersync_api_service}
use cloudnative_supabase.Controller.Apply.Secrets.{
  create_or_update_config_map, create_or_update_service,
}
use cloudnative_supabase.Controller.Apply.Workloads.{
  create_or_update_deployment, create_or_update_cron_job,
}
use cloudnative_supabase.Controller.Builders.{Builders}
use cloudnative_supabase.Controller.Components.{
  no_status, annotate_template, deployment_status, set_services,
}
use cloudnative_supabase.Controller.Durable.{in_namespace}
use cloudnative_supabase.Controller.Effects.{
  Effect, ◌>>=◌, ◌>>◌, lift, done, rescue, ignore_not_found, Resource, Client, Machinery,
}
use cloudnative_supabase.Controller.State.{
  State, Next, proceed, on_world, with_project, set_condition, remove_condition,
  update_project_status, fail_condition, wait_condition,
}

-- The rules of the project itself, where no other ConfigMap is referred to.
unfoldable pub build_powersync_sync_rules_config_map :
    SupabaseProject → SyncRulesSpec → Option ConfigMap
build_powersync_sync_rules_config_map project rules =
    if rules.config_map_ref == ""
    then if bytes_eq rules.inline []
      then none
      else some (record {
        meta =
            component_meta project (powersync_sync_rules_config_map_name project)
              "powersync-sync-rules";
        data_ = ("sync_rules.yaml", rules.inline) ∷ [];
      })
    else none

unfoldable pub apply_power_sync_config_hash : Library → Deployment → Bytes → Bytes → Deployment
apply_power_sync_config_hash lib deployment config sync_rules =
    annotate_template "supabase.guion.dev/powersync-config-hash"
      (hex (lib.sha256 (config ++ (0 ∷ sync_rules)))) deployment

-- An object is deleted only if the project controls it.
unfoldable pub delete_power_sync_owned_resource :
    {W A : Type 0}
    → Machinery
    → Resource W A
    → (A → ObjectMeta)
    → SupabaseProject
    → NamespacedName
    → Effect W (Unit {0})
delete_power_sync_owned_resource machinery resource meta_of project key world =
    elim (resource.get key world) [
      | ok existing ↦
          if machinery.is_controlled_by (meta_of existing).owner_references project
          then ignore_not_found (resource.delete existing) world
          else (ok tt, world)
      | err e ↦ (if e.is_not_found then ok tt else err e, world)
    ]

unfoldable pub power_sync_status_needs_cleanup : Machinery → SupabaseProject → Bool
power_sync_status_needs_cleanup machinery project =
    let services = project.status.services in
    let conditions = project.status.conditions in
    not (machinery.equal.service_status services.powersync_api no_status)
    || (not (machinery.equal.service_status services.powersync_replication no_status)
        || (is_some (machinery.find_status_condition "CDCReady" conditions)
            || is_some (machinery.find_status_condition "PowersyncReady" conditions)))

module _ {W : Type 0} (machinery : Machinery) (client : Client W) where
  abbrev delete_owned :
      {A : Type 0}
      → Resource W A
      → (A → ObjectMeta)
      → SupabaseProject
      → String
      → Effect W (Unit {0})
  delete_owned resource meta_of project name =
      delete_power_sync_owned_resource machinery resource meta_of project
        (in_namespace project name)

  -- The objects in the order of the list.
  unfoldable pub delete_runtime : SupabaseProject → Effect W (Unit {0})
  delete_runtime project =
      delete_owned client.deployments (λ d. d.meta) project (powersync_api_deployment_name project)
      >> delete_owned client.deployments (λ d. d.meta) project
          (powersync_replication_deployment_name project)
      >> delete_owned client.services (λ s. s.meta) project (project.name <> "-powersync-api")
      >> delete_owned client.config_maps (λ c. c.meta) project (powersync_config_map_name project)
      >> delete_owned client.config_maps (λ c. c.meta) project
          (powersync_sync_rules_config_map_name project)
      >> delete_owned client.config_maps (λ c. c.meta) project (cdc_config_map_name project)
      >> delete_owned client.jobs (λ j. j.meta) project (cdc_job_name project)
      >> delete_owned client.cron_jobs (λ c. c.meta) project
          (powersync_compact_cron_job_name project)
      >> delete_owned client.publications (λ p. p.meta) project (project.name <> "-powersync")

  unfoldable pub clear_power_sync_status : Effect (State W) (Unit {0})
  clear_power_sync_status =
      set_services machinery client (λ services. record services {
        powersync_api = no_status;
        powersync_replication = no_status;
      })
      >> remove_condition machinery "CDCReady"
      >> remove_condition machinery "PowersyncReady"
      >> update_project_status machinery client

  unfoldable pub cleanup_power_sync : Effect (State W) (Unit {0})
  unfolding delete_runtime clear_power_sync_status
  cleanup_power_sync = with_project λ project.
      on_world (delete_runtime project)
      >> (if power_sync_status_needs_cleanup machinery project
          then clear_power_sync_status
          else done)

  abbrev pub cleanup_power_sync_compact : SupabaseProject → Effect W (Unit {0})
  cleanup_power_sync_compact project =
      delete_owned client.cron_jobs (λ c. c.meta) project (powersync_compact_cron_job_name project)

  -- An error that the condition of PowerSync reports with the given reason.
  abbrev pub reporting : {A : Type 0} → String → Effect W A → Effect (State W) A
  reporting reason m = rescue (on_world m) (fail_condition machinery client "PowersyncReady" reason)

  abbrev pub apply_rules : SupabaseProject → Option ConfigMap → Effect (State W) (Unit {0})
  apply_rules project none = done
  apply_rules project (some config_map) =
      reporting "SyncRulesConfigMapFailed"
        (create_or_update_config_map machinery client.config_maps project config_map)

  abbrev pub apply_compact : SupabaseProject → Option CronJob → Effect (State W) (Unit {0})
  apply_compact project none = on_world (cleanup_power_sync_compact project)
  apply_compact project (some cron_job) =
      reporting "CronJobFailed"
        (create_or_update_cron_job machinery client.cron_jobs project cron_job)

  -- The two statuses, and the condition that goes with them.
  unfoldable pub report_power_sync : ServiceStatus → ServiceStatus → Effect (State W) Next
  report_power_sync api replication =
      set_services machinery client
        (λ services. record services { powersync_api = api; powersync_replication = replication })
      >> (if api.ready && replication.ready
          then (set_condition machinery "PowersyncReady" "True" "Ready"
                "Powersync service is running"
              >> lift (ok proceed))
          else wait_condition machinery client "PowersyncReady" "DeploymentsPending"
              "Waiting for PowerSync deployments to become ready")

  unfoldable pub reconcile_powersync :
      Library → Builders → SyncRulesSpec → Bytes → Effect (State W) Next
  unfolding report_power_sync
  reconcile_powersync lib builders rules content = with_project λ project.
      let names = project.status.secret_names in
      let config_map = builders.build_powersync_config_map project in
      let config = or_empty (lookup "config.yaml" config_map.data_) in
      let api =
        apply_power_sync_config_hash lib (builders.build_powersync_api_deployment project names)
          config content in
      let replication =
        apply_power_sync_config_hash lib
          (builders.build_powersync_replication_deployment project names) config content in
      reporting "ConfigMapFailed"
        (create_or_update_config_map machinery client.config_maps project config_map)
      >> apply_rules project (build_powersync_sync_rules_config_map project rules)
      >> reporting "APIDeploymentFailed"
          (create_or_update_deployment machinery client.deployments project (some api))
      >> reporting "APIServiceFailed" (
          create_or_update_service machinery client.services project
            (some (build_powersync_api_service project)))
      >> reporting "ReplicationDeploymentFailed"
          (create_or_update_deployment machinery client.deployments project (some replication))
      >> apply_compact project (builders.build_powersync_compact_cron_job project names)
      >> on_world (deployment_status client (some api))
      >>= λ api_status.
          on_world (deployment_status client (some replication)) >>= λ replication_status.
          report_power_sync api_status replication_status
