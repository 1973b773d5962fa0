-- ===== src/Controller/Credentials.antt =====
-- `reconcileSecrets` and its parts, of internal/controller/supabaseproject_controller.go
use cloudnative_supabase.Prelude.{
  String, ◌<>◌, ◌==◌, Bool, true, false, none, some, List, [], ◌∷◌, ok, err, Error, wrap,
  if◌then◌else◌, ℤ,
}
use cloudnative_supabase.Kube.Meta.{Bytes}
use cloudnative_supabase.Kube.Core.{Secret}
use cloudnative_supabase.Api.Status.{SecretNamesStatus}
use cloudnative_supabase.Api.Project.{SupabaseProject}
use cloudnative_supabase.Common.Names.{
  email_hook_secret_name, powersync_storage_secret_name, powersync_replication_secret_name,
  powersync_api_token_secret_name,
}
use cloudnative_supabase.Crypto.Library.{Library}
use cloudnative_supabase.Crypto.Random.{RandomSource}
use cloudnative_supabase.Secrets.Implementation.{
  validate_email_hook_secret, validate_powersync_api_token_secret,
}
use cloudnative_supabase.Secrets.Generation.{
  generate_secrets, generate_email_hook_secret, generate_powersync_secrets,
  generate_powersync_api_token_secret,
}
use cloudnative_supabase.Controller.Apply.Secrets.{create_or_update_secret}
use cloudnative_supabase.Controller.CoreServices.{hook_enabled}
use cloudnative_supabase.Controller.Durable.{in_namespace}
use cloudnative_supabase.Controller.Effects.{
  Effect, ◌>>=◌, ◌>>◌, lift, done, rescue, wrap_error, Client, Machinery,
}
use cloudnative_supabase.Controller.State.{
  State, on_world, with_project, modify_status, set_condition, update_project_status,
  fail_condition,
}

abbrev pub with_hook : String → SecretNamesStatus → SecretNamesStatus
with_hook name names = record names { email_hook = name }

abbrev pub with_powersync : SupabaseProject → SecretNamesStatus → SecretNamesStatus
with_powersync project names = record names {
  powersync_storage_password = powersync_storage_secret_name project;
  powersync_replication_password = powersync_replication_secret_name project;
}

module _ {W : Type 0} (machinery : Machinery) (client : Client W) (source : RandomSource W) where
  abbrev pub apply_secret : SupabaseProject → Secret → Effect W (Unit {0})
  apply_secret = create_or_update_secret machinery client.secrets

  -- The loop over the generated Secrets.
  unfoldable pub apply_secrets : SupabaseProject → List Secret → Effect W (Unit {0})
  apply_secrets project [] = done
  apply_secrets project (secret ∷ secrets) =
      apply_secret project secret >> apply_secrets project secrets

  -- Whether all of the named Secrets are there. The loop ends with the first that is not.
  unfoldable pub all_exist : SupabaseProject → List String → Effect W Bool
  all_exist project [] world = (ok true, world)
  all_exist project (name ∷ names) world =
      let rest = all_exist project names world in
      elim (client.secrets.get (in_namespace project name) world) [
        | ok _ ↦ rest
        | err e ↦ (if e.is_not_found then ok false else err e, world)
      ]

  -- `reconcilePowersyncAPITokenSecret`: a token that is valid is only adopted.
  abbrev placeholder : SupabaseProject → Secret
  placeholder project = record {
    meta = record {
      name = powersync_api_token_secret_name project;
      namespace = project.namespace;
      labels = [];
      annotations = [];
      owner_references = [];
      uid = "";
      generation = ℤ.pos 0;
    };
    type = "";
    data_ = [];
    string_data = [];
  }

  module _ (trim_space : Bytes → Bytes) where
    unfoldable pub adopt_token : SupabaseProject → Secret → Effect W (Unit {0})
    adopt_token project existing =
        let name = powersync_api_token_secret_name project in
        wrap_error ("validating PowerSync API token Secret \"" <> name <> "\"")
          (lift (validate_powersync_api_token_secret trim_space (some existing)))
        >> wrap_error ("adopting PowerSync API token Secret \"" <> name <> "\"")
            (apply_secret project (placeholder project))

    unfoldable pub reconcile_powersync_api_token_secret : SupabaseProject → Effect W (Unit {0})
    unfolding adopt_token
    reconcile_powersync_api_token_secret project world =
        let name = powersync_api_token_secret_name project in
        elim (client.secrets.get (in_namespace project name) world) [
          | ok existing ↦ adopt_token project existing world
          | err e ↦
              if e.is_not_found
              then (generate_powersync_api_token_secret source project >>= λ generated.
                    wrap_error ("creating PowerSync API token Secret \"" <> name <> "\"")
                      (apply_secret project generated))
                  world
              else (err (wrap ("getting PowerSync API token Secret \"" <> name <> "\"") e), world)
        ]

    abbrev pub fail_secrets : {A : Type 0} → String → Error → Effect (State W) A
    fail_secrets = fail_condition machinery client "SecretsReady"

    -- The two role Secrets, if one of them is missing.
    unfoldable pub generate_missing : SupabaseProject → Bool → Effect (State W) (Unit {0})
    unfolding apply_secrets
    generate_missing project true = done
    generate_missing project false =
        rescue (on_world (generate_powersync_secrets source project))
          (fail_secrets "PowersyncSecretsFailed")
        >>= λ secrets.
            rescue (on_world (apply_secrets project secrets)) (fail_secrets "CreateFailed")

    unfoldable pub reconcile_powersync_secrets : SupabaseProject → Effect (State W) (Unit {0})
    unfolding generate_missing all_exist reconcile_powersync_api_token_secret
    reconcile_powersync_secrets project =
        on_world (
          all_exist project (
            powersync_storage_secret_name project ∷ powersync_replication_secret_name project ∷ []))
        >>= generate_missing project
        >> on_world (reconcile_powersync_api_token_secret project)

    unfoldable pub create_hook : SupabaseProject → Effect (State W) (Unit {0})
    create_hook project =
        rescue (on_world (generate_email_hook_secret source project))
          (fail_secrets "EmailHookSecretGenerationFailed")
        >>= λ generated.
            rescue (on_world (apply_secret project generated.secret))
              (fail_secrets "EmailHookSecretCreateFailed")

    module _ (lib : Library) where
      -- The Secret of the hook: made if it is missing, validated if it is there.
      unfoldable pub ensure_hook : SupabaseProject → Effect (State W) (Unit {0})
      unfolding create_hook
      ensure_hook project state =
          elim (client.secrets.get (in_namespace project (email_hook_secret_name project))
            state.world) [
              | ok existing ↦
                  rescue (lift (validate_email_hook_secret lib (some existing)))
                    (fail_secrets "InvalidEmailHookSecret") state
              | err e ↦
                  if e.is_not_found
                  then create_hook project state
                  else fail_secrets "EmailHookSecretUnavailable" e state
            ]

      abbrev set_hook : String → Effect (State W) (Unit {0})
      set_hook name =
          modify_status
            λ status. record status { secret_names = with_hook name status.secret_names }

      unfoldable pub reconcile_email_hook_secret : Effect (State W) (Unit {0})
      unfolding ensure_hook
      reconcile_email_hook_secret = with_project λ project.
          if hook_enabled project.spec.auth.email_hook
          then (ensure_hook project
              >> set_hook (email_hook_secret_name project)
              >> set_condition machinery "SecretsReady" "True" "SecretsReady"
                  "All secrets, including the email hook secret, are ready"
              >> update_project_status machinery client)
          else if project.status.secret_names.email_hook == ""
          then done
          else (set_hook "" >> update_project_status machinery client)

      -- The names of the Secrets, PowerSync's where it is wanted.
      abbrev powersync_step :
          SupabaseProject → SecretNamesStatus → Effect (State W) SecretNamesStatus
      powersync_step project names = elim project.spec.powersync [
        | none ↦ lift (ok names)
        | some _ ↦ reconcile_powersync_secrets project >> lift (ok (with_powersync project names))
      ]

      unfoldable pub reconcile_implementation_secrets : Effect (State W) (Unit {0})
      unfolding reconcile_powersync_secrets reconcile_email_hook_secret apply_secrets
      reconcile_implementation_secrets = with_project λ project.
          on_world (generate_secrets source project) >>= λ generated.
          on_world (apply_secrets project generated.secrets)
          >> powersync_step project generated.names
          >>= λ names.
              reconcile_email_hook_secret
              >> modify_status (λ status. record status {
                secret_names = with_hook status.secret_names.email_hook names;
              })
