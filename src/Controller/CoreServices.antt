-- ===== src/Controller/CoreServices.antt =====
-- `reconcileServices` and the steps for Auth, REST, Studio, Meta and the gateway, of
-- internal/controller/supabaseproject_controller.go
use cloudnative_supabase.Prelude.{
  String, ◌<>◌, ◌==◌, Bool, false, Option, none, some, [], Result, ok, err, Error, wrap,
  if◌then◌else◌,
}
use cloudnative_supabase.Prelude.Maps.{lookup}
use cloudnative_supabase.Kube.Meta.{Bytes, or_empty}
use cloudnative_supabase.Kube.Core.{Secret, Deployment}
use cloudnative_supabase.Api.Auth.{EmailHookSpec}
use cloudnative_supabase.Api.Status.{SecretNamesStatus}
use cloudnative_supabase.Api.Project.{SupabaseProject}
use cloudnative_supabase.Common.Names.{email_hook_secret_name, gateway_name}
use cloudnative_supabase.Crypto.Library.{Library}
use cloudnative_supabase.Crypto.Decimal.{hex}
use cloudnative_supabase.Secrets.Implementation.{validate_email_hook_secret}
use cloudnative_supabase.Services.{
  build_auth_service, build_rest_service, build_studio_service, build_meta_service,
  build_gateway_service,
}
use cloudnative_supabase.Controller.Readiness.{core_services_ready}
use cloudnative_supabase.Controller.Apply.Secrets.{create_or_update_config_map}
use cloudnative_supabase.Controller.Builders.{Builders}
use cloudnative_supabase.Controller.Durable.{in_namespace}
use cloudnative_supabase.Controller.Sources.{validate_go_true_env_sources}
use cloudnative_supabase.Controller.Effects.{
  Effect, ◌>>=◌, ◌>>◌, lift, done, rescue, Client, Machinery,
}
use cloudnative_supabase.Controller.State.{
  State, on_world, with_project, modify_status, set_condition, update_project_status,
  fail_condition,
}
use cloudnative_supabase.Controller.Components.{
  no_status, set_services, ServiceReconcileConfig, annotate_template, fail_component,
  reconcile_service_component,
}

-- `hook != nil && hook.Enabled`
abbrev pub hook_enabled : Option EmailHookSpec → Bool
hook_enabled none = false
hook_enabled (some hook) = hook.enabled

module _ {W : Type 0} (machinery : Machinery) (client : Client W) where
  unfoldable pub fail_auth_go_true_env : Error → Effect (State W) (Unit {0})
  fail_auth_go_true_env e =
      set_services machinery client (λ services. record services { auth = no_status })
      >> fail_condition machinery client "AuthReady" "GoTrueEnvSourceInvalid" e

  module _ (lib : Library) (builders : Builders) where
    -- The hash of the email-hook Secret, once it was validated.
    unfoldable pub annotate_hook : Deployment → Secret → Result Deployment
    annotate_hook deployment secret = elim (validate_email_hook_secret lib (some secret)) [
      | err e ↦ err e
      | ok _ ↦ ok (
          annotate_template "supabase.guion.dev/email-hook-secret-hash"
            (hex (lib.sha256 (or_empty (lookup "secret" secret.data_)))) deployment)
    ]

    abbrev hook_secret_name : SupabaseProject → SecretNamesStatus → String
    hook_secret_name project names =
        if names.email_hook == "" then email_hook_secret_name project else names.email_hook

    unfoldable pub build_auth_deployment :
        SupabaseProject → SecretNamesStatus → W → Result Deployment
    unfolding annotate_hook
    build_auth_deployment project names world =
        let deployment = builders.build_auth_deployment project names in
        let name = hook_secret_name project names in
        if hook_enabled project.spec.auth.email_hook
        then elim (client.secrets.get (in_namespace project name) world) [
          | err e ↦ err (wrap ("getting email hook secret " <> name) e)
          | ok secret ↦ annotate_hook deployment secret
        ]
        else ok deployment

    abbrev pub auth_config : SupabaseProject → Deployment → Bytes → ServiceReconcileConfig
    auth_config project deployment hash = record {
      name = "Auth";
      condition_type = "AuthReady";
      deployment = deployment;
      service = build_auth_service project;
      set_status = λ status services. record services { auth = status };
      credential_hash = hash;
    }

    -- Without `failAuthGoTrueEnv` for an error of the builder.
    unfoldable pub reconcile_auth : Bytes → Effect (State W) (Unit {0})
    unfolding build_auth_deployment
    reconcile_auth hash = with_project λ project.
        rescue
          (λ state. (
            validate_go_true_env_sources client project.namespace state.world
                project.spec.auth.go_true_env,
            state,
          ))
          fail_auth_go_true_env
        >> (λ state. (build_auth_deployment project project.status.secret_names state.world, state))
        >>= λ deployment.
            reconcile_service_component machinery client (auth_config project deployment hash)

    unfoldable pub reconcile_rest : Bytes → Effect (State W) (Unit {0})
    reconcile_rest hash = with_project λ project.
        reconcile_service_component machinery client (record {
          name = "REST";
          condition_type = "RestReady";
          deployment = builders.build_rest_deployment project project.status.secret_names;
          service = build_rest_service project;
          set_status = λ status services. record services { rest = status };
          credential_hash = hash;
        })

    unfoldable pub reconcile_studio : Bytes → Effect (State W) (Unit {0})
    reconcile_studio hash = with_project λ project.
        reconcile_service_component machinery client (record {
          name = "Studio";
          condition_type = "StudioReady";
          deployment = builders.build_studio_deployment project project.status.secret_names;
          service = build_studio_service project;
          set_status = λ status services. record services { studio = status };
          credential_hash = hash;
        })

    -- postgres-meta has no hash: it is not rolled with the credentials.
    unfoldable pub reconcile_meta : Effect (State W) (Unit {0})
    reconcile_meta = with_project λ project. reconcile_service_component machinery client (record {
      name = "Meta";
      condition_type = "MetaReady";
      deployment = builders.build_meta_deployment project project.status.secret_names;
      service = build_meta_service project;
      set_status = λ status services. record services { meta = status };
      credential_hash = [];
    })

    abbrev pub gateway_config : SupabaseProject → Bytes → ServiceReconcileConfig
    gateway_config project hash = record {
      name = "Gateway";
      condition_type = "GatewayReady";
      deployment = builders.build_gateway_deployment project;
      service = build_gateway_service project;
      set_status = λ status services. record services { gateway = status };
      credential_hash = hash;
    }

    unfoldable pub reconcile_gateway : Bytes → Effect (State W) (Unit {0})
    reconcile_gateway hash = with_project λ project.
        rescue
          (on_world (
            create_or_update_config_map machinery client.config_maps project
              (builders.build_envoy_config_map project)))
          (fail_component machinery client (gateway_config project hash) "ConfigMapFailed")
        >> reconcile_service_component machinery client (gateway_config project hash)
        >> modify_status (λ status. record status {
          endpoints = record status.endpoints { api = gateway_name project <> ":8000" };
        })

  -- The status of the aggregate failure; a failure to write it is only logged.
  unfoldable pub fail_core_services : Error → Effect (State W) (Unit {0})
  fail_core_services e =
      modify_status (λ status. record status { phase = "Provisioning" })
      >> set_condition machinery "Ready" "False" "CoreServicesFailed"
          ("Core service reconciliation failed: " <> e.message)
      >> rescue (update_project_status machinery client) (λ _. done)
      >> lift (err e)

  -- `if !coreServicesReady(project)`
  unfoldable pub report_pending : Effect (State W) (Unit {0})
  report_pending = with_project λ project.
      if core_services_ready project
      then done
      else (modify_status (λ status. record status { phase = "Provisioning" })
          >> set_condition machinery "Ready" "False" "CoreServicesPending"
              "Waiting for all core service deployments to become ready"
          >> update_project_status machinery client)

  unfoldable pub reconcile_services : Library → Builders → Bytes → Effect (State W) (Unit {0})
  unfolding reconcile_auth reconcile_rest reconcile_studio reconcile_meta reconcile_gateway
      fail_core_services report_pending
  reconcile_services lib builders hash =
      rescue (reconcile_auth lib builders hash) fail_core_services
      >> rescue (reconcile_rest lib builders hash) fail_core_services
      >> rescue (reconcile_studio lib builders hash) fail_core_services
      >> rescue (reconcile_meta lib builders) fail_core_services
      >> rescue (reconcile_gateway lib builders hash) fail_core_services
      >> report_pending
