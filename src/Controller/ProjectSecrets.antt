-- ===== src/Controller/ProjectSecrets.antt =====
-- `reconcileSecrets`, `failReconcileSecrets`, `reconcileInitSQL` and `reconcileJWKSConfigMap` of
-- internal/controller/supabaseproject_controller.go, and `BuildJWKSConfigMap` of
-- internal/resources/configmaps/envoy.go
pub mod Laws
use cloudnative_supabase.Prelude.{
  String, ◌<>◌, ◌==◌, Bool, Option, some, [], ◌∷◌, Result, ok, err, Error, errorf, ℤ, if◌then◌else◌,
}
use cloudnative_supabase.Kube.Meta.{Bytes}
use cloudnative_supabase.Kube.Core.{Secret, ConfigMap}
use cloudnative_supabase.Api.Project.{SupabaseProject}
use cloudnative_supabase.Common.Names.{jwks_config_map_name}
use cloudnative_supabase.Cnpg.Cluster.{component_meta}
use cloudnative_supabase.Crypto.Library.{Library}
use cloudnative_supabase.Crypto.Random.{RandomSource}
use cloudnative_supabase.Secrets.Credentials.{ProjectCredentials, validate_project_credentials}
use cloudnative_supabase.Controller.Apply.Secrets.{create_or_update_config_map}
use cloudnative_supabase.Controller.Builders.{Builders}
use cloudnative_supabase.Controller.Credentials.{reconcile_implementation_secrets}
use cloudnative_supabase.Controller.Durable.{in_namespace}
use cloudnative_supabase.Controller.Effects.{
  Effect, ◌>>=◌, ◌>>◌, lift, done, rescue, Client, Machinery,
}
use cloudnative_supabase.Controller.State.{
  State, on_world, with_project, modify_status, set_condition, update_project_status,
  fail_condition,
}

unfoldable pub build_jwks_config_map : SupabaseProject → Bytes → ConfigMap
build_jwks_config_map project jwks = record {
  meta = component_meta project (jwks_config_map_name project) "auth-jwks";
  data_ = ("jwks.json", jwks) ∷ [];
}

module _ {W : Type 0} (machinery : Machinery) (client : Client W) where
  -- The aggregate condition becomes false with the detailed one.
  unfoldable pub fail_reconcile_secrets :
      {A : Type 0} → String → String → Error → Effect (State W) A
  fail_reconcile_secrets reason message e =
      set_condition machinery "SecretsReady" "False" reason message
      >> set_condition machinery "Ready" "False" "SecretsNotReady"
          "Project credentials and implementation secrets are not ready"
      >> update_project_status machinery client
      >> lift (err e)

  -- The same, with the error's own text.
  abbrev pub fail_with : {A : Type 0} → String → Error → Effect (State W) A
  fail_with reason e = fail_reconcile_secrets reason e.message e

  abbrev pub unavailable : String → Error
  unavailable name = errorf ("project credential Secret \"" <> name <> "\" unavailable")

  abbrev pub unavailable_text : String → Error → String
  unavailable_text name e =
      "project credential Secret \""
      <> name
      <> (if e.is_not_found then "\" is unavailable" else "\" could not be read")

  -- The external Secret, or the failure of reading it.
  unfoldable pub read_credentials : SupabaseProject → Effect (State W) Secret
  unfolding fail_reconcile_secrets
  read_credentials project =
      let name = project.spec.project_credentials_secret in
      if name == ""
      then fail_with "CredentialsReferenceMissing" (
          errorf
            "project credential field \"projectCredentialsSecret\": Secret reference is required")
      else λ state. elim (client.secrets.get (in_namespace project name) state.world) [
        | ok secret ↦ (ok secret, state)
        | err e ↦
            fail_reconcile_secrets "CredentialsSecretUnavailable" (unavailable_text name e)
              (unavailable name) state
      ]

  module _ (source : RandomSource W) (trim_space : Bytes → Bytes) (lib : Library) where
    -- The two role tokens of the bundle are verified at `anon_now` and `service_now`.
    unfoldable pub reconcile_secrets : ℤ → ℤ → Effect (State W) ProjectCredentials
    unfolding read_credentials
    reconcile_secrets anon_now service_now =
        modify_status (λ status. record status {
          phase = if status.phase == "Pending" then "Provisioning" else status.phase;
        })
        >> with_project read_credentials
        >>= λ external.
            rescue (lift (validate_project_credentials lib anon_now service_now (some external)))
              (fail_with "InvalidProjectCredentials")
            >>= λ credentials.
                rescue (reconcile_implementation_secrets machinery client source trim_space lib)
                  (fail_with "ImplementationSecretFailed")
                >> set_condition machinery "SecretsReady" "True" "CredentialsValidated"
                    "Project credentials and implementation secrets are ready"
                >> update_project_status machinery client
                >> lift (ok credentials)

  unfoldable pub reconcile_init_sql : Builders → Effect (State W) (Unit {0})
  reconcile_init_sql builders = with_project λ project. on_world (
      create_or_update_config_map machinery client.config_maps project
        (builders.build_init_sql_config_map project))

  unfoldable pub reconcile_jwks_config_map : Bytes → Effect (State W) (Unit {0})
  unfolding build_jwks_config_map
  reconcile_jwks_config_map jwks = with_project λ project.
      rescue
        (on_world (
          create_or_update_config_map machinery client.config_maps project
            (build_jwks_config_map project jwks)))
        (fail_condition machinery client "SecretsReady" "JWKSConfigMapFailed")
