-- ===== src/Deployments/AuthEnv.antt =====
-- internal/resources/deployments/auth.go and helpers.go: the environment of GoTrue.
pub mod Laws
use cloudnative_supabase.Prelude.{
  String, Bool, true, false, ◌&&◌, Option, none, some, List, [], ◌∷◌, ◌++◌, ◌==◌, ℤ, pos,
  if◌then◌else◌, codes,
}
use cloudnative_supabase.Kube.Meta.{Bytes}
use cloudnative_supabase.Kube.Core.{EnvVarSource, EnvVar}
use cloudnative_supabase.Api.Auth.{
  AuthProvidersSpec, GoogleProviderSpec, AppleProviderSpec, EmailHookSpec,
}
use cloudnative_supabase.Api.Status.{SecretNamesStatus}
use cloudnative_supabase.Api.Project.{SupabaseProject}
use cloudnative_supabase.Common.Names.{
  get_access_token_expiration, go_true_fallback_secret_name, email_hook_secret_name,
}
use cloudnative_supabase.Common.Url.{Url, auth_issuer_url}
use cloudnative_supabase.Crypto.Decimal.{format_int}
use cloudnative_supabase.Deployments.GoTrueEnv.{apply_go_true_env}

-- `corev1.EnvVar{Name: name, Value: value}`
abbrev pub plain : String → Bytes → EnvVar
plain name value = record { name = name; value = value; value_from = none }

-- A variable that refers to a key of a Secret.
abbrev pub from_secret : String → String → String → EnvVar
from_secret name secret key = record {
  name = name;
  value = [];
  value_from = some (record {
    secret_key_ref = some (record { name = secret; key = key; optional = none });
    config_map_key_ref = none;
  });
}

-- `%t`
abbrev format_bool : Bool → Bytes
format_bool true = codes "true"
format_bool false = codes "false"

-- `if name == "" { name = fallback }`
abbrev pub or_default : String → String → String
or_default name fallback = if name == "" then fallback else name

unfoldable pub build_database_env : Bytes → List EnvVar
build_database_env db_host =
    plain "DB_HOST" db_host
    ∷ plain "DB_PORT" (codes "5432")
    ∷ plain "DB_DRIVER" (codes "postgres")
    ∷ plain "DB_SSL" (codes "disable")
    ∷ plain "DB_NAME" (codes "supabase")
    ∷ []

google_env : Option GoogleProviderSpec → List EnvVar
google_env none = []
google_env (some google) =
    if google.enabled
    then plain "GOTRUE_EXTERNAL_GOOGLE_ENABLED" (codes "true")
      ∷ (if google.skip_nonce_check
          then plain "GOTRUE_EXTERNAL_GOOGLE_SKIP_NONCE_CHECK" (codes "true") ∷ []
          else [])
    else []

apple_env : Option AppleProviderSpec → List EnvVar
apple_env none = []
apple_env (some apple) =
    if apple.enabled then plain "GOTRUE_EXTERNAL_APPLE_ENABLED" (codes "true") ∷ [] else []

provider_env : Option AuthProvidersSpec → List EnvVar
unfolding google_env apple_env
provider_env none = []
provider_env (some providers) = google_env providers.google ++ apple_env providers.apple

module _ (project : SupabaseProject) (secret_names : SecretNamesStatus) where
  email_hook_env : Option EmailHookSpec → List EnvVar
  email_hook_env none = []
  email_hook_env (some hook) =
      if hook.enabled
      then plain "GOTRUE_HOOK_SEND_EMAIL_ENABLED" (codes "true")
        ∷ plain "GOTRUE_HOOK_SEND_EMAIL_URI" hook.uri
        ∷ from_secret "GOTRUE_HOOK_SEND_EMAIL_SECRETS"
            (or_default secret_names.email_hook (email_hook_secret_name project)) "secret"
        ∷ []
      else []

  module _ (trim_space : Bytes → Bytes) (parse : Bytes → Option Url) (print : Url → Bytes) where
    -- The operator's own variables.
    unfoldable pub operator_env : Bytes → List EnvVar
    unfolding build_database_env provider_env email_hook_env
    operator_env db_host =
        let spec = project.spec.auth in
        let base =
          plain "GOTRUE_API_HOST" (codes "0.0.0.0")
          ∷ plain "GOTRUE_API_PORT" (format_int (pos 9999))
          ∷ plain "API_EXTERNAL_URL" spec.external_url
          ∷ plain "GOTRUE_SITE_URL" spec.site_url
          ∷ plain "GOTRUE_URI_ALLOW_LIST" (codes "*")
          ∷ plain "GOTRUE_JWT_DEFAULT_GROUP_NAME" (codes "authenticated")
          ∷ plain "GOTRUE_JWT_ADMIN_ROLES" (codes "service_role")
          ∷ plain "GOTRUE_JWT_AUD" (codes "authenticated")
          ∷ plain "GOTRUE_JWT_EXP" (format_int (get_access_token_expiration project))
          ∷ plain "GOTRUE_JWT_ISSUER" (auth_issuer_url trim_space parse print spec.external_url)
          ∷ plain "GOTRUE_JWT_VALID_METHODS" (codes "ES256")
          ∷ from_secret "GOTRUE_JWT_KEYS" project.spec.project_credentials_secret "signingKeys"
          ∷ plain "GOTRUE_DISABLE_SIGNUP" (format_bool spec.disable_signup)
          ∷ plain "GOTRUE_EXTERNAL_ANONYMOUS_USERS_ENABLED"
              (format_bool spec.enable_anonymous_users)
          ∷ plain "GOTRUE_EXTERNAL_EMAIL_ENABLED" (codes "true")
          ∷ plain "GOTRUE_MAILER_AUTOCONFIRM" (format_bool spec.auto_confirm_email)
          ∷ plain "GOTRUE_MAILER_OTP_EXP" (codes "3600")
          ∷ from_secret "DB_USER" secret_names.auth_admin "username"
          ∷ from_secret "DB_PASSWORD" secret_names.auth_admin "password"
          ∷ from_secret "DB_PASSWORD_ENC" secret_names.auth_admin "password"
          ∷ from_secret "GOTRUE_JWT_SECRET"
              (or_default secret_names.go_true_fallback (go_true_fallback_secret_name project))
              "secret"
          ∷ plain "GOTRUE_DB_DATABASE_URL" (
              codes
                "$(DB_DRIVER)://$(DB_USER):$(DB_PASSWORD_ENC)@$(DB_HOST):$(DB_PORT)/$(DB_NAME)?search_path=auth&sslmode=$(DB_SSL)")
          ∷ plain "GOTRUE_DB_DRIVER" (codes "$(DB_DRIVER)")
          ∷ [] in
        build_database_env db_host
        ++ (base ++ (provider_env spec.providers ++ email_hook_env spec.email_hook))

    unfoldable pub build_auth_env : Bytes → List EnvVar
    build_auth_env db_host = apply_go_true_env (operator_env db_host) project.spec.auth.go_true_env
