-- ===== src/Controller/Reconcile.antt =====
-- `Reconcile` of internal/controller/supabaseproject_controller.go: the phases in their order.
pub mod Phase
pub mod Laws
use cloudnative_supabase.Prelude.{
  String, ◌==◌, Bool, Option, none, some, Result, ok, err, ℤ, if◌then◌else◌,
}
use cloudnative_supabase.Kube.Meta.{Bytes, NamespacedName}
use cloudnative_supabase.Api.Spec.{PowersyncSpec}
use cloudnative_supabase.Api.Status.{SupabaseProjectStatus}
use cloudnative_supabase.Api.Project.{SupabaseProject}
use cloudnative_supabase.Crypto.Library.{Library}
use cloudnative_supabase.Crypto.Random.{RandomSource}
use cloudnative_supabase.Secrets.Credentials.{ProjectCredentials}
use cloudnative_supabase.Controller.Semantic.{Semantic}
use cloudnative_supabase.Controller.Storage.{Quantities}
use cloudnative_supabase.Controller.Builders.{Builders}
use cloudnative_supabase.Controller.Readiness.{core_services_ready}
use cloudnative_supabase.Controller.Durable.{
  reconcile_durable_metadata_protection, validate_recovery_bootstrap_intent,
}
use cloudnative_supabase.Controller.Backup.{reconcile_backup_infrastructure}
use cloudnative_supabase.Controller.Database.{
  reconcile_cnpg_cluster, wait_for_database, wait_for_power_sync_managed_roles,
}
use cloudnative_supabase.Controller.CoreServices.{reconcile_services}
use cloudnative_supabase.Controller.ProjectSecrets.{
  reconcile_secrets, reconcile_init_sql, reconcile_jwks_config_map,
}
use cloudnative_supabase.Controller.Publications.{
  RulesDocument, reconcile_power_sync_rules_validation, reconcile_power_sync_publication,
  reconcile_cdc_permissions,
}
use cloudnative_supabase.Controller.Powersync.{reconcile_powersync, cleanup_power_sync}
use cloudnative_supabase.Controller.Effects.{
  Effect, ◌>>=◌, ◌>>◌, lift, done, rescue, Client, Machinery,
}
use cloudnative_supabase.Controller.State.{
  State, Next, proceed, requeue, for_project, with_project, modify_status, set_condition,
  update_project_status, fail_condition,
}

-- What the reconciler is given: the client, the libraries, and the packages that it calls.
pub record Reconciler (W Quantity : Type 0) : Type 0 where
  pub client : Client W
  pub machinery : Machinery
  pub semantic : Semantic
  pub quantities : Quantities Quantity
  pub lib : Library
  pub source : RandomSource W
  pub trim_space : Bytes → Bytes
  pub unmarshal_rules : Bytes → Result RulesDocument
  pub builders : Builders

-- What follows a step that has given `next`.
unfoldable pub follow : {W : Type 0} → Next → Effect (State W) Next → Effect (State W) Next
follow proceed rest = rest
follow requeue rest = lift (ok requeue)

infixr 4 ◌>=>◌
-- `if result, err := m; err != nil || result.RequeueAfter > 0 { return result, err }`
abbrev pub ◌>=>◌ :
    {W : Type 0} → Effect (State W) Next → Effect (State W) Next → Effect (State W) Next
m >=> rest = m >>= λ next. follow next rest

module _ {W Quantity : Type 0} (r : Reconciler W Quantity) where
  -- Phase 6, where PowerSync is wanted.
  unfoldable pub power_sync_phase : PowersyncSpec → Effect (State W) Next
  power_sync_phase powersync =
      reconcile_power_sync_rules_validation r.machinery r.client r.unmarshal_rules
        powersync.sync_rules
      >>= λ content.
          (wait_for_power_sync_managed_roles r.machinery r.client
            >=> reconcile_power_sync_publication r.machinery r.client
            >=> reconcile_cdc_permissions r.machinery r.client r.lib r.builders
            >=> reconcile_powersync r.machinery r.client r.lib r.builders powersync.sync_rules
                content)

  abbrev pub power_sync_step : Effect (State W) Next
  power_sync_step = with_project λ project. elim project.spec.powersync [
    | some powersync ↦ power_sync_phase powersync
    | none ↦ cleanup_power_sync r.machinery r.client >> lift (ok proceed)
  ]

  -- All phases are complete.
  unfoldable pub mark_running : Effect (State W) (Unit {0})
  unfolding with_project modify_status set_condition ◌>>◌
  mark_running =
      with_project (λ project.
        modify_status
          (λ status. record status { phase = "Running"; observed_generation = project.generation }))
      >> set_condition r.machinery "Ready" "True" "AllComponentsReady"
          "All Supabase components are running"

  unfoldable pub complete : Effect (State W) Next
  complete = mark_running >> update_project_status r.machinery r.client >> lift (ok proceed)

  -- `if !coreServicesReady(project) { return ctrl.Result{RequeueAfter: RequeueDelay}, nil }`
  abbrev pub core_services_step : Effect (State W) Next
  core_services_step =
      with_project λ project. lift (ok (if core_services_ready project then proceed else requeue))

  -- The phases from the secrets on. The tokens are verified at the two times.
  unfoldable pub phases : ℤ → ℤ → Effect (State W) Next
  unfolding power_sync_phase complete
  phases anon_now service_now =
      for_project (reconcile_durable_metadata_protection r.machinery r.client)
      >> reconcile_secrets r.machinery r.client r.source r.trim_space r.lib anon_now service_now
      >>= λ credentials.
          rescue (for_project (validate_recovery_bootstrap_intent r.client r.semantic))
            (fail_condition r.machinery r.client "DatabaseReady" "BootstrapImmutable")
          >> reconcile_init_sql r.machinery r.client r.builders
          >> reconcile_jwks_config_map r.machinery r.client credentials.public_jwks
          >> reconcile_backup_infrastructure r.machinery r.client
          >> (reconcile_cnpg_cluster r.machinery r.client r.semantic r.quantities
              >=> wait_for_database r.machinery r.client
              >=> (reconcile_services r.machinery r.client r.lib r.builders
                    credentials.pod_template_hash
                  >> core_services_step)
              >=> power_sync_step
              >=> complete)

  -- The project as it is read, with the phase that a new one starts in.
  abbrev pub initial : SupabaseProject → W → State W
  initial project world = record {
    project = record project {
      status = record project.status {
        phase = if project.status.phase == "" then "Pending" else project.status.phase;
      };
    };
    world = world;
  }

  abbrev world_of : {A : Type 0} → Result A × State W → Result A × W
  world_of (result, state) = (result, state.world)

  unfoldable pub reconcile : ℤ → ℤ → NamespacedName → Effect W Next
  unfolding phases
  reconcile anon_now service_now request world = elim (r.client.get_project request world) [
    | err e ↦ (if e.is_not_found then ok proceed else err e, world)
    | ok project ↦ world_of (phases anon_now service_now (initial project world))
  ]
