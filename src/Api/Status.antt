-- ===== src/Api/Status.antt =====
-- api/v1alpha1/supabaseproject_types.go: the status of a project.
use cloudnative_supabase.Prelude.{String, Bool, List, ℤ}
use cloudnative_supabase.Kube.Meta.{Condition}

pub record DatabaseStatus : Type 0 where
  pub ready : Bool
  pub phase : String
  pub ready_instances : ℤ
  pub primary_host : String

pub record ServiceStatus : Type 0 where
  pub ready : Bool
  pub available_replicas : ℤ

pub record ServicesStatus : Type 0 where
  pub auth : ServiceStatus
  pub rest : ServiceStatus
  pub studio : ServiceStatus
  pub meta : ServiceStatus
  pub gateway : ServiceStatus
  pub powersync_api : ServiceStatus
  pub powersync_replication : ServiceStatus

pub record SecretNamesStatus : Type 0 where
  pub go_true_fallback : String
  pub supabase_admin : String
  pub authenticator : String
  pub auth_admin : String
  pub email_hook : String
  pub powersync_storage_password : String
  pub powersync_replication_password : String

pub record EndpointsStatus : Type 0 where
  pub api : String
  pub database : String

pub record SupabaseProjectStatus : Type 0 where
  pub phase : String
  pub conditions : List Condition
  pub database : DatabaseStatus
  pub services : ServicesStatus
  pub secret_names : SecretNamesStatus
  pub endpoints : EndpointsStatus
  pub observed_generation : ℤ
