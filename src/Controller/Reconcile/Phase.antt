-- ===== src/Controller/Reconcile/Phase.antt =====
-- What PowerSync's phase leaves of the project's status: internal/controller.
use cloudnative_supabase.Prelude.{Option, none, some, true, false, ok, err, String, Bool, Result}
use cloudnative_supabase.Kube.Core.{ConfigMap, CronJob}
use cloudnative_supabase.Kube.Cnpg.{Publication}
use cloudnative_supabase.Api.Spec.{PowersyncSpec, SyncRulesSpec}
use cloudnative_supabase.Api.Status.{ServiceStatus}
use cloudnative_supabase.Api.Project.{SupabaseProject}
use cloudnative_supabase.Common.Names.{cluster_name}
use cloudnative_supabase.Kube.Meta.{Bytes}
use cloudnative_supabase.Crypto.Library.{Library}
use cloudnative_supabase.Controller.Builders.{Builders}
use cloudnative_supabase.Controller.Durable.{in_namespace}
use cloudnative_supabase.Controller.Effects.{Effect, ◌>>◌, lift, Client, Machinery, key_of, own}
use cloudnative_supabase.Controller.State.{State, Next, with_status, proceed, requeue}
use cloudnative_supabase.Controller.Database.{wait_for_power_sync_managed_roles, check_roles}
use cloudnative_supabase.Controller.Readiness.{power_sync_managed_roles_ready}
use cloudnative_supabase.Controller.Publications.{
  RulesDocument, reconcile_power_sync_rules_validation, reconcile_power_sync_publication,
  adopt_publication, refresh_publication, check_applied, create_publication,
  reconcile_cdc_permissions, report_cdc, wait_for_publication,
}
use cloudnative_supabase.Controller.Powersync.{
  reconcile_powersync, report_power_sync, cleanup_power_sync, clear_power_sync_status, apply_rules,
  apply_compact,
}
use cloudnative_supabase.Controller.Reconcile.{
  Reconciler, follow, ◌>=>◌, power_sync_phase, power_sync_step,
}
use cloudnative_supabase.Controller.Keeps.{
  done-Keeps, read-Keeps, IgnoresConditions, Keeps, bind-Keeps, then-Keeps, rescue-Keeps,
  lift-Keeps, on_world-Keeps, with_project-Keeps, modify_status-Keeps, if-Keeps, attempt-Keeps,
  set_condition-Keeps, remove_condition-Keeps, update_project_status-Keeps, fail_condition-Keeps,
  wait_condition-Keeps, reporting-Keeps,
}

-- The property does not depend on the status of PowerSync's two services.
abbrev pub IgnoresPowersync : (SupabaseProject → Type 0) → Type 0
IgnoresPowersync P =
    (project : SupabaseProject) (api replication : ServiceStatus)
    → P project
    → P (
        with_status
          (λ status. record status {
            services = record status.services {
              powersync_api = api;
              powersync_replication = replication;
            };
          })
          project)

module _ (W : Type 0) (P : SupabaseProject → Type 0) (machinery : Machinery) (client : Client W)
    (conditions : IgnoresConditions P) where
  wait_for_publication-Keeps :
      (message : String) → Keeps W P (wait_for_publication machinery client message)
  wait_for_publication-Keeps message =
      wait_condition-Keeps W P machinery client conditions "CDCReady" "PublicationPending" message

  check_applied-Keeps :
      (existing : Publication) → Keeps W P (check_applied machinery client existing)
  unfolding check_applied
  check_applied-Keeps existing =
      if-Keeps W P _ _ _ (lift-Keeps W P (ok proceed)) (wait_for_publication-Keeps _)

  refresh_publication-Keeps :
      (desired existing : Publication)
      → Keeps W P (refresh_publication machinery client desired existing)
  unfolding refresh_publication
  refresh_publication-Keeps desired existing = with_project-Keeps W P _ λ project.
      bind-Keeps W P _ _ (lift-Keeps W P (own machinery project existing.meta)) λ meta.
        if-Keeps W P _ _ _
          (then-Keeps W P _ _ (rescue-Keeps W P _ _ (on_world-Keeps W P _) (λ e. lift-Keeps W P _))
            (lift-Keeps W P (ok requeue)))
          (check_applied-Keeps existing)

  publication-Keeps : Keeps W P (reconcile_power_sync_publication machinery client)
  unfolding reconcile_power_sync_publication adopt_publication create_publication
  publication-Keeps = with_project-Keeps W P _ λ project.
      bind-Keeps W P _ _ (lift-Keeps W P _) λ desired.
        attempt-Keeps W P (λ state. client.publications.get (key_of desired.meta) state.world)
          (adopt_publication machinery client desired) _
          (λ existing. with_project-Keeps W P _ λ now.
            if-Keeps W P _ _ _ (refresh_publication-Keeps desired existing) (lift-Keeps W P _))
          (λ e.
            if-Keeps W P _ _ _
              (with_project-Keeps W P _ λ now.
                bind-Keeps W P _ _ (lift-Keeps W P (own machinery now desired.meta))
                  λ meta. then-Keeps W P _ _ (on_world-Keeps W P _) (wait_for_publication-Keeps _))
              (lift-Keeps W P (err e)))

  report_cdc-Keeps : (completed : Bool) → Keeps W P (report_cdc machinery client completed)
  unfolding report_cdc
  report_cdc-Keeps false =
      wait_condition-Keeps W P machinery client conditions "CDCReady" "JobRunning" _
  report_cdc-Keeps true =
      then-Keeps W P _ _ (set_condition-Keeps W P machinery client conditions "CDCReady" "True" _ _)
        (lift-Keeps W P (ok proceed))

  cdc-Keeps :
      (lib : Library) (builders : Builders)
      → Keeps W P (reconcile_cdc_permissions machinery client lib builders)
  unfolding reconcile_cdc_permissions
  cdc-Keeps lib builders = with_project-Keeps W P _ λ project.
      bind-Keeps W P _ _ (lift-Keeps W P _) λ config_map.
        bind-Keeps W P _ _
          (then-Keeps W P _ _ (reporting-Keeps W P machinery client conditions _ _ _)
            (reporting-Keeps W P machinery client conditions _ _ _))
          report_cdc-Keeps

  check_roles-Keeps : (ready : Result Bool) → Keeps W P (check_roles machinery client ready)
  unfolding check_roles
  check_roles-Keeps (err e) = fail_condition-Keeps W P machinery client conditions _ "CDCReady" _ e
  check_roles-Keeps (ok true) = lift-Keeps W P (ok proceed)
  check_roles-Keeps (ok false) = wait_condition-Keeps W P machinery client conditions "CDCReady" _ _

  roles-Keeps : Keeps W P (wait_for_power_sync_managed_roles machinery client)
  unfolding wait_for_power_sync_managed_roles
  roles-Keeps =
      attempt-Keeps W P
        (λ state.
          client.clusters.get (in_namespace state.project (cluster_name state.project)) state.world)
        _ _ (λ cluster. check_roles-Keeps (power_sync_managed_roles_ready cluster.status))
        (λ e. lift-Keeps W P (err e))

  rules-Keeps :
      (unmarshal : Bytes → Result RulesDocument) (rules : SyncRulesSpec)
      → Keeps W P (reconcile_power_sync_rules_validation machinery client unmarshal rules)
  unfolding reconcile_power_sync_rules_validation
  rules-Keeps unmarshal rules =
      rescue-Keeps W P _ _ (read-Keeps W P _)
        (fail_condition-Keeps W P machinery client conditions _ "PowersyncReady" _)

  module _ (powersync : IgnoresPowersync P) where
    report_power_sync-Keeps :
        (api replication : ServiceStatus)
        → Keeps W P (report_power_sync machinery client api replication)
    unfolding report_power_sync
    report_power_sync-Keeps api replication =
        then-Keeps W P _ _
          (modify_status-Keeps W P _ (λ project p. powersync project api replication p))
          (if-Keeps W P _ _ _
            (then-Keeps W P _ _
              (set_condition-Keeps W P machinery client conditions "PowersyncReady" "True" _ _)
              (lift-Keeps W P (ok proceed)))
            (wait_condition-Keeps W P machinery client conditions "PowersyncReady" _ _))

    apply_rules-Keeps :
        (project : SupabaseProject) (config_map : Option ConfigMap)
        → Keeps W P (apply_rules machinery client project config_map)
    apply_rules-Keeps project none = done-Keeps W P
    apply_rules-Keeps project (some config_map) =
        reporting-Keeps W P machinery client conditions _ _ _

    apply_compact-Keeps :
        (project : SupabaseProject) (cron_job : Option CronJob)
        → Keeps W P (apply_compact machinery client project cron_job)
    apply_compact-Keeps project none = on_world-Keeps W P _
    apply_compact-Keeps project (some cron_job) =
        reporting-Keeps W P machinery client conditions _ _ _

    reconcile_powersync-Keeps :
        (lib : Library) (builders : Builders) (rules : SyncRulesSpec) (content : Bytes)
        → Keeps W P (reconcile_powersync machinery client lib builders rules content)
    unfolding reconcile_powersync
    reconcile_powersync-Keeps lib builders rules content = with_project-Keeps W P _ λ project.
        bind-Keeps W P _ _
          (then-Keeps W P _ _
            (then-Keeps W P _ _
              (then-Keeps W P _ _
                (then-Keeps W P _ _
                  (then-Keeps W P _ _
                    (then-Keeps W P _ _ (reporting-Keeps W P machinery client conditions _ _ _)
                      (apply_rules-Keeps project _))
                    (reporting-Keeps W P machinery client conditions _ _ _))
                  (reporting-Keeps W P machinery client conditions _ _ _))
                (reporting-Keeps W P machinery client conditions _ _ _))
              (apply_compact-Keeps project _))
            (on_world-Keeps W P _))
          λ api.
            bind-Keeps W P _ _ (on_world-Keeps W P _)
              λ replication. report_power_sync-Keeps api replication

    cleanup-Keeps : Keeps W P (cleanup_power_sync machinery client)
    unfolding cleanup_power_sync clear_power_sync_status
    cleanup-Keeps = with_project-Keeps W P _ λ project. then-Keeps W P _ _ (on_world-Keeps W P _) (
        if-Keeps W P _ _ _
          (then-Keeps W P _ _
            (then-Keeps W P _ _
              (then-Keeps W P _ _ (modify_status-Keeps W P _ (λ project p. powersync project _ _ p))
                (remove_condition-Keeps W P machinery client conditions "CDCReady"))
              (remove_condition-Keeps W P machinery client conditions "PowersyncReady"))
            (update_project_status-Keeps W P machinery client))
          (done-Keeps W P))

module _ {W Quantity : Type 0} (r : Reconciler W Quantity) (P : SupabaseProject → Type 0)
    (conditions : IgnoresConditions P) (powersync : IgnoresPowersync P) where
  follow-Keeps :
      (next : Next) (rest : Effect (State W) Next) → Keeps W P rest → Keeps W P (follow next rest)
  unfolding follow
  follow-Keeps proceed rest k = k
  follow-Keeps requeue rest k = lift-Keeps W P (ok requeue)

  gate-Keeps :
      (m rest : Effect (State W) Next) → Keeps W P m → Keeps W P rest → Keeps W P (m >=> rest)
  gate-Keeps m rest h k = bind-Keeps W P _ _ h λ next. follow-Keeps next rest k

  phase-Keeps : (powersync : PowersyncSpec) → Keeps W P (power_sync_phase r powersync)
  unfolding power_sync_phase
  phase-Keeps spec =
      bind-Keeps W P _ _
        (rules-Keeps W P r.machinery r.client conditions r.unmarshal_rules spec.sync_rules)
        λ content. gate-Keeps _ _ (roles-Keeps W P r.machinery r.client conditions) (
          gate-Keeps _ _ (publication-Keeps W P r.machinery r.client conditions) (
            gate-Keeps _ _ (cdc-Keeps W P r.machinery r.client conditions r.lib r.builders) (
              reconcile_powersync-Keeps W P r.machinery r.client conditions powersync r.lib
                r.builders spec.sync_rules content)))

  spec-Keeps :
      (spec : Option PowersyncSpec)
      → Keeps W P (elim spec [
        | some powersync ↦ power_sync_phase r powersync
        | none ↦ cleanup_power_sync r.machinery r.client >> lift (ok proceed)
      ])
  spec-Keeps (some spec) = phase-Keeps spec
  spec-Keeps none =
      then-Keeps W P _ _ (cleanup-Keeps W P r.machinery r.client conditions powersync)
        (lift-Keeps W P (ok proceed))

  pub power_sync_step-Keeps : Keeps W P (power_sync_step r)
  power_sync_step-Keeps = with_project-Keeps W P _ λ project. spec-Keeps project.spec.powersync
