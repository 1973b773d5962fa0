-- ===== src/Controller/Apply/Workloads.antt =====
-- `createOrUpdateDeployment` and `createOrUpdateCronJob` of
-- internal/controller/supabaseproject_controller.go
use cloudnative_supabase.Prelude.{◌==◌, Bool, false, ◌&&◌, not, Option, none, some, if◌then◌else◌}
use cloudnative_supabase.Kube.Core.{Deployment, DeploymentStrategy, CronJob, CronJobSpec}
use cloudnative_supabase.Api.Project.{SupabaseProject}
use cloudnative_supabase.Controller.Defaults.{normalize_pod_template_defaults}
use cloudnative_supabase.Controller.Ownership.{merge_labels}
use cloudnative_supabase.Controller.Effects.{
  Effect, ◌>>=◌, lift, done, Resource, Machinery, own, create_or, key_of,
}

-- `if spec.Suspend == nil { spec.Suspend = ptr.To(false) }`
unfoldable pub suspend_or_false : Option Bool → Option Bool
suspend_or_false none = some false
suspend_or_false (some suspend) = some suspend

unfoldable pub normalize_cron_job_defaults : CronJobSpec → CronJobSpec
unfolding suspend_or_false
normalize_cron_job_defaults spec = record spec {
  suspend = suspend_or_false spec.suspend;
  template = normalize_pod_template_defaults spec.template;
}

unfoldable pub strategy_changed : Machinery → DeploymentStrategy → DeploymentStrategy → Bool
strategy_changed machinery actual desired =
    not (desired.type == "") && not (machinery.equal.strategy actual desired)

module _ {W : Type 0} (machinery : Machinery) where
  -- Only the fields of the operator are written: replicas, template and, if it is said, strategy.
  unfoldable pub refresh_deployment :
      Resource W Deployment → SupabaseProject → Deployment → Deployment → Effect W (Unit {0})
  unfolding strategy_changed
  refresh_deployment deployments project deployment existing =
      lift (own machinery project existing.meta) >>= λ meta.
      let desired = normalize_pod_template_defaults deployment.template in
      let actual = normalize_pod_template_defaults existing.template in
      let strategy = strategy_changed machinery existing.strategy deployment.strategy in
      if machinery.equal.replicas existing.replicas deployment.replicas
        && (machinery.equal.template actual desired
            && (machinery.equal.owners existing.meta.owner_references meta.owner_references
                && not strategy))
      then done
      else deployments.update (record existing {
        meta = meta;
        replicas = deployment.replicas;
        template = desired;
        strategy = if strategy then deployment.strategy else existing.strategy;
      })

  unfoldable pub create_or_update_deployment :
      Resource W Deployment → SupabaseProject → Option Deployment → Effect W (Unit {0})
  unfolding refresh_deployment
  create_or_update_deployment deployments project none = done
  create_or_update_deployment deployments project (some deployment) =
      lift (own machinery project deployment.meta) >>= λ meta.
      create_or deployments (key_of deployment.meta) (record deployment { meta = meta })
        (refresh_deployment deployments project deployment)

  unfoldable pub refresh_cron_job :
      Resource W CronJob → SupabaseProject → CronJob → CronJob → Effect W (Unit {0})
  refresh_cron_job cron_jobs project cron_job existing =
      lift (own machinery project existing.meta) >>= λ meta.
      let desired = normalize_cron_job_defaults cron_job.spec in
      let labels = merge_labels existing.meta.labels cron_job.meta.labels in
      if machinery.equal.cron_spec (normalize_cron_job_defaults existing.spec) desired
        && (machinery.equal.owners existing.meta.owner_references meta.owner_references
            && not labels.1)
      then done
      else cron_jobs.update
          (record existing { meta = record meta { labels = labels.0 }; spec = desired })

  unfoldable pub create_or_update_cron_job :
      Resource W CronJob → SupabaseProject → CronJob → Effect W (Unit {0})
  unfolding refresh_cron_job
  create_or_update_cron_job cron_jobs project cron_job =
      lift (own machinery project cron_job.meta) >>= λ meta.
      create_or cron_jobs (key_of cron_job.meta) (record cron_job { meta = meta })
        (refresh_cron_job cron_jobs project cron_job)
