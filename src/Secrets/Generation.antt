-- ===== src/Secrets/Generation.antt =====
-- internal/resources/secrets/secrets.go: the Secrets that the operator generates for itself.
pub mod Laws
use cloudnative_supabase.Prelude.{String, ◌<>◌, List, [], ◌∷◌, Map, ok, codes}
use cloudnative_supabase.Prelude.Effects.{Effect, ◌>>=◌, lift, wrap_error}
use cloudnative_supabase.Kube.Meta.{Bytes}
use cloudnative_supabase.Kube.Core.{Secret}
use cloudnative_supabase.Api.Status.{SecretNamesStatus}
use cloudnative_supabase.Api.Project.{SupabaseProject}
use cloudnative_supabase.Common.Names.{
  go_true_fallback_secret_name, email_hook_secret_name, powersync_api_token_secret_name,
}
use cloudnative_supabase.Cnpg.Cluster.{component_meta}
use cloudnative_supabase.Crypto.Random.{
  RandomSource, generate_hex, generate_password, generate_webhook_secret,
}

-- A Secret of the type "Opaque".
abbrev pub opaque_secret : SupabaseProject → String → String → Map Bytes → Map Bytes → Secret
opaque_secret project name component data_ string_data = record {
  meta = component_meta project name component;
  type = "Opaque";
  data_ = data_;
  string_data = string_data;
}

abbrev pub role_secret_name : SupabaseProject → String → String
role_secret_name project suffix = project.name <> "-" <> suffix <> "-password"

-- A Secret, and its name.
pub record Generated : Type 0 where
  pub secret : Secret
  pub name : String

-- The Secrets in their order, and their names.
pub record GeneratedSecrets : Type 0 where
  pub secrets : List Secret
  pub names : SecretNamesStatus

module _ {W : Type 0} (source : RandomSource W) where
  unfoldable pub generate_go_true_fallback_secret : SupabaseProject → Effect W Generated
  generate_go_true_fallback_secret project =
      let name = go_true_fallback_secret_name project in
      wrap_error "generating GoTrue fallback secret" (generate_hex source 32) >>= λ value. lift (
        ok (record {
          secret = opaque_secret project name "gotrue-secret" [] (("secret", value) ∷ []);
          name = name;
        }))

  unfoldable pub generate_role_secret : SupabaseProject → String → String → Effect W Generated
  generate_role_secret project suffix username =
      let name = role_secret_name project suffix in
      wrap_error ("generating " <> username <> " password") (generate_password source)
      >>= λ password. lift (
          ok (record {
            secret =
                opaque_secret project name suffix []
                  (("username", codes username) ∷ ("password", password) ∷ []);
            name = name;
          }))

  -- The names of PowerSync and of the email hook are set by others.
  unfoldable pub generate_secrets : SupabaseProject → Effect W GeneratedSecrets
  unfolding generate_go_true_fallback_secret generate_role_secret
  generate_secrets project = generate_go_true_fallback_secret project >>= λ fallback.
      generate_role_secret project "supabase-admin" "supabase_admin" >>= λ admin.
      generate_role_secret project "authenticator" "authenticator" >>= λ authenticator.
      generate_role_secret project "auth-admin" "supabase_auth_admin" >>= λ auth_admin. lift (
        ok (record {
          secrets = fallback.secret ∷ admin.secret ∷ authenticator.secret ∷ auth_admin.secret ∷ [];
          names = record {
            go_true_fallback = fallback.name;
            supabase_admin = admin.name;
            authenticator = authenticator.name;
            auth_admin = auth_admin.name;
            email_hook = "";
            powersync_storage_password = "";
            powersync_replication_password = "";
          };
        }))

  unfoldable pub generate_email_hook_secret : SupabaseProject → Effect W Generated
  generate_email_hook_secret project =
      let name = email_hook_secret_name project in
      wrap_error "generating webhook secret" (generate_webhook_secret source) >>= λ value. lift (
        ok (record {
          secret = opaque_secret project name "email-hook" (("secret", value) ∷ []) [];
          name = name;
        }))

  unfoldable pub generate_powersync_secrets : SupabaseProject → Effect W (List Secret)
  unfolding generate_role_secret
  generate_powersync_secrets project =
      generate_role_secret project "powersync-storage" "powersync_storage" >>= λ storage.
      generate_role_secret project "powersync-replication" "powersync_replication"
      >>= λ replication. lift (ok (storage.secret ∷ replication.secret ∷ []))

  unfoldable pub generate_powersync_api_token_secret : SupabaseProject → Effect W Secret
  generate_powersync_api_token_secret project =
      wrap_error "generating PowerSync API token" (generate_hex source 32) >>= λ token. lift (
        ok (
          opaque_secret project (powersync_api_token_secret_name project) "powersync-api-token" []
            (("token", token) ∷ [])))
