-- ===== src/Controller/Components.antt =====
-- `reconcileServiceComponent`, which deploys one component, of
-- internal/controller/supabaseproject_controller.go
pub mod Laws
use cloudnative_supabase.Prelude.{
  String, ◌<>◌, false, Option, none, some, [], ok, err, Error, pos, bytes_eq, if◌then◌else◌,
}
use cloudnative_supabase.Prelude.Maps.{insert}
use cloudnative_supabase.Kube.Meta.{Bytes}
use cloudnative_supabase.Kube.Core.{Deployment, Service}
use cloudnative_supabase.Api.Status.{ServiceStatus, ServicesStatus}
use cloudnative_supabase.Controller.Readiness.{deployment_is_ready}
use cloudnative_supabase.Controller.Apply.Secrets.{create_or_update_service}
use cloudnative_supabase.Controller.Apply.Workloads.{create_or_update_deployment}
use cloudnative_supabase.Controller.Effects.{Effect, ◌>>=◌, ◌>>◌, rescue, Client, Machinery, key_of}
use cloudnative_supabase.Controller.State.{
  State, on_world, with_project, modify_status, set_condition, fail_condition,
}

abbrev pub no_status : ServiceStatus
no_status = record { ready = false; available_replicas = pos 0 }

-- `serviceReconcileConfig`, with what the two builders build.
pub record ServiceReconcileConfig : Type 0 where
  pub name : String
  pub condition_type : String
  pub deployment : Deployment
  pub service : Service
  pub set_status : ServiceStatus → ServicesStatus → ServicesStatus
  pub credential_hash : Bytes

-- `template.Annotations[key] = value`
unfoldable pub annotate_template : String → Bytes → Deployment → Deployment
annotate_template key value deployment = record deployment {
  template = record deployment.template {
    annotations = insert key value deployment.template.annotations;
  };
}

unfoldable pub apply_project_credentials_hash : Deployment → Bytes → Deployment
unfolding annotate_template
apply_project_credentials_hash deployment hash =
    if bytes_eq hash []
    then deployment
    else annotate_template "supabase.guion.dev/project-credentials-hash" hash deployment

abbrev pub status_of : Deployment → ServiceStatus
status_of deployment = record {
  ready = deployment_is_ready deployment;
  available_replicas = deployment.status.available_replicas;
}

-- A deployment that is not there is not ready.
unfoldable pub deployment_status :
    {W : Type 0} → Client W → Option Deployment → Effect W ServiceStatus
deployment_status client none world = (ok no_status, world)
deployment_status client (some desired) world =
    elim (client.deployments.get (key_of desired.meta) world) [
      | ok existing ↦ (ok (status_of existing), world)
      | err e ↦ (if e.is_not_found then ok no_status else err e, world)
    ]

module _ {W : Type 0} (machinery : Machinery) (client : Client W) where
  abbrev pub set_services : (ServicesStatus → ServicesStatus) → Effect (State W) (Unit {0})
  set_services f = modify_status λ status. record status { services = f status.services }

  -- The component is recorded as not running.
  unfoldable pub fail_component :
      {A : Type 0} → ServiceReconcileConfig → String → Error → Effect (State W) A
  fail_component config reason e =
      set_services (config.set_status no_status)
      >> fail_condition machinery client config.condition_type reason e

  -- The status that was read, and the condition that goes with it.
  unfoldable pub report_component :
      ServiceReconcileConfig → ServiceStatus → Effect (State W) (Unit {0})
  report_component config status =
      set_services (config.set_status status)
      >> (if status.ready
          then set_condition machinery config.condition_type "True" "Ready"
              (config.name <> " service is running")
          else set_condition machinery config.condition_type "False" "DeploymentPending"
              ("Waiting for " <> config.name <> " deployment to become ready"))

  unfoldable pub reconcile_service_component : ServiceReconcileConfig → Effect (State W) (Unit {0})
  unfolding fail_component report_component deployment_status
  reconcile_service_component config = with_project λ project.
      let deployment = apply_project_credentials_hash config.deployment config.credential_hash in
      rescue
        (on_world
          (create_or_update_deployment machinery client.deployments project (some deployment)))
        (fail_component config "DeploymentFailed")
      >> rescue
          (on_world
            (create_or_update_service machinery client.services project (some config.service)))
          (fail_component config "ServiceFailed")
      >> rescue (on_world (deployment_status client (some deployment)))
          (fail_component config "DeploymentStatusFailed")
      >>= report_component config
