-- ===== src/Deployments/AuthEnv/Laws.antt =====
-- The authentication contract of GoTrue's environment.
use cloudnative_supabase.Prelude.{◌≡◌, ◌∙◌, String, Option, none, some, List, ◌++◌, arith, codes}
use cloudnative_supabase.Kube.Meta.{Bytes}
use cloudnative_supabase.Kube.Core.{EnvVar}
use cloudnative_supabase.Api.Status.{SecretNamesStatus}
use cloudnative_supabase.Api.Project.{SupabaseProject}
use cloudnative_supabase.Common.Names.{go_true_fallback_secret_name}
use cloudnative_supabase.Common.Url.{Url, auth_issuer_url}
use cloudnative_supabase.Deployments.GoTrueEnv.{is_operator_owned_go_true_env}
use cloudnative_supabase.Deployments.GoTrueEnv.Laws.{
  or_else, value_of, permitted, value_of-apply_go_true_env,
}
use cloudnative_supabase.Deployments.AuthEnv.{
  plain, from_secret, or_default, provider_env, email_hook_env, operator_env, build_auth_env,
}

module _ (project : SupabaseProject) (secret_names : SecretNamesStatus) (trim_space : Bytes → Bytes)
    (parse : Bytes → Option Url) (print : Url → Bytes) where
  abbrev optional_env : List EnvVar
  optional_env =
      provider_env project.spec.auth.providers
      ++ email_hook_env project secret_names project.spec.auth.email_hook

  seen :
      (name : String) (db_host : Bytes)
      → value_of name (build_auth_env project secret_names trim_space parse print db_host)
        ≡ or_else
            (permitted name project.spec.auth.go_true_env)
            (value_of name (operator_env project secret_names trim_space parse print db_host))
  unfolding build_auth_env
  seen name db_host =
      value_of-apply_go_true_env (operator_env project secret_names trim_space parse print db_host)
        project.spec.auth.go_true_env name

  keys_absent : value_of "GOTRUE_JWT_KEYS" optional_env ≡ none
  unfolding provider_env email_hook_env
  keys_absent = ground arith

  secret_absent : value_of "GOTRUE_JWT_SECRET" optional_env ≡ none
  unfolding provider_env email_hook_env
  secret_absent = ground arith

  methods_absent : value_of "GOTRUE_JWT_VALID_METHODS" optional_env ≡ none
  unfolding provider_env email_hook_env
  methods_absent = ground arith

  issuer_absent : value_of "GOTRUE_JWT_ISSUER" optional_env ≡ none
  unfolding provider_env email_hook_env
  issuer_absent = ground arith

  aud_absent : value_of "GOTRUE_JWT_AUD" optional_env ≡ none
  unfolding provider_env email_hook_env
  aud_absent = ground arith

  admin_absent : value_of "GOTRUE_JWT_ADMIN_ROLES" optional_env ≡ none
  unfolding provider_env email_hook_env
  admin_absent = ground arith

  -- What an environment must show.
  abbrev pub Contract : List EnvVar → Type 0
  Contract env =
      (value_of "GOTRUE_JWT_KEYS" env
        ≡ some
            (from_secret "GOTRUE_JWT_KEYS" project.spec.project_credentials_secret "signingKeys"))
      × (value_of "GOTRUE_JWT_SECRET" env
          ≡ some (
              from_secret "GOTRUE_JWT_SECRET"
                (or_default secret_names.go_true_fallback (go_true_fallback_secret_name project))
                "secret"))
      × (value_of "GOTRUE_JWT_VALID_METHODS" env
          ≡ some (plain "GOTRUE_JWT_VALID_METHODS" (codes "ES256")))
      × (value_of "GOTRUE_JWT_ISSUER" env
          ≡ some (
              plain "GOTRUE_JWT_ISSUER"
                (auth_issuer_url trim_space parse print project.spec.auth.external_url)))
      × (value_of "GOTRUE_JWT_AUD" env ≡ some (plain "GOTRUE_JWT_AUD" (codes "authenticated")))
      × (value_of "GOTRUE_JWT_ADMIN_ROLES" env
          ≡ some (plain "GOTRUE_JWT_ADMIN_ROLES" (codes "service_role")))

  -- Whatever the user's GoTrue settings are, GoTrue's container sees these values: the signing keys
  -- of the project's credentials Secret, the fallback secret of the Secret that the status names (or
  -- of the default one), ES256 as the only method, the issuer made of the external URL, the audience
  -- "authenticated" and the administrator role "service_role".
  pub build_auth_env-IsContract :
      (db_host : Bytes)
      → Contract (build_auth_env project secret_names trim_space parse print db_host)
  unfolding build_auth_env operator_env is_operator_owned_go_true_env
  build_auth_env-IsContract db_host = (
    seen "GOTRUE_JWT_KEYS" db_host ∙ simp keys_absent,
    seen "GOTRUE_JWT_SECRET" db_host ∙ simp secret_absent,
    seen "GOTRUE_JWT_VALID_METHODS" db_host ∙ simp methods_absent,
    seen "GOTRUE_JWT_ISSUER" db_host ∙ simp issuer_absent,
    seen "GOTRUE_JWT_AUD" db_host ∙ simp aud_absent,
    seen "GOTRUE_JWT_ADMIN_ROLES" db_host ∙ simp admin_absent,
  )
