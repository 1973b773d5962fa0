-- ===== src/Api/Auth.antt =====
-- api/v1alpha1/supabaseproject_types.go: the Auth part of the specification.
use cloudnative_supabase.Prelude.{String, Option, Bool, List, ℤ}
use cloudnative_supabase.Kube.Meta.{Bytes}
use cloudnative_supabase.Kube.Core.{ResourceRequirements}

pub record GoTrueEnvKeySelector : Type 0 where
  pub name : String
  pub key : String
  pub optional : Option Bool

pub record GoTrueEnvValueFrom : Type 0 where
  pub secret_key_ref : Option GoTrueEnvKeySelector
  pub config_map_key_ref : Option GoTrueEnvKeySelector

pub record GoTrueEnvVar : Type 0 where
  pub name : String
  pub value : Option Bytes
  pub value_from : Option GoTrueEnvValueFrom

pub record GoogleProviderSpec : Type 0 where
  pub enabled : Bool
  pub skip_nonce_check : Bool

pub record AppleProviderSpec : Type 0 where
  pub enabled : Bool

pub record AuthProvidersSpec : Type 0 where
  pub google : Option GoogleProviderSpec
  pub apple : Option AppleProviderSpec
  pub secret_ref : String

pub record EmailHookSpec : Type 0 where
  pub enabled : Bool
  pub uri : Bytes

pub record SmtpSpec : Type 0 where
  pub host : String
  pub port : ℤ
  pub user : String
  pub secret_ref : String
  pub sender_name : String
  pub admin_email : String

pub record AuthSpec : Type 0 where
  pub image_tag : String
  pub replicas : ℤ
  pub site_url : Bytes
  pub external_url : Bytes
  pub access_token_expiration_seconds : ℤ
  pub disable_signup : Bool
  pub enable_anonymous_users : Bool
  pub auto_confirm_email : Bool
  pub go_true_env : List GoTrueEnvVar
  pub providers : Option AuthProvidersSpec
  pub email_hook : Option EmailHookSpec
  pub smtp : Option SmtpSpec
  pub resources : ResourceRequirements
