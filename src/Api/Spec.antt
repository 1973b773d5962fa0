-- ===== src/Api/Spec.antt =====
-- api/v1alpha1/supabaseproject_types.go: the other services and the whole specification.
use cloudnative_supabase.Prelude.{String, Option, Bool, List, ℤ}
use cloudnative_supabase.Kube.Meta.{Bytes}
use cloudnative_supabase.Kube.Core.{ResourceRequirements, LocalObjectReference}
use cloudnative_supabase.Api.Database.{DatabaseSpec}
use cloudnative_supabase.Api.Auth.{AuthSpec}

pub record RestSpec : Type 0 where
  pub image_tag : String
  pub replicas : ℤ
  pub schemas : List String
  pub resources : ResourceRequirements

pub record StudioSpec : Type 0 where
  pub image_tag : String
  pub replicas : ℤ
  pub public_url : String
  pub organization_name : String
  pub project_name : String
  pub resources : ResourceRequirements

pub record MetaSpec : Type 0 where
  pub image_tag : String
  pub replicas : ℤ
  pub resources : ResourceRequirements

pub record GatewaySpec : Type 0 where
  pub image_tag : String
  pub replicas : ℤ
  pub resources : ResourceRequirements

pub record ImageSpec : Type 0 where
  pub registry : String
  pub repository : String
  pub tag : String
  pub pull_policy : String

pub record PowersyncApiSpec : Type 0 where
  pub replicas : ℤ
  pub resources : ResourceRequirements
  pub node_options : String

pub record PowersyncReplicationSpec : Type 0 where
  pub resources : ResourceRequirements
  pub node_options : String

pub record SyncRulesSpec : Type 0 where
  pub inline : Bytes
  pub config_map_ref : String

pub record PowersyncCompactSpec : Type 0 where
  pub enabled : Bool
  pub schedule : String
  pub resources : ResourceRequirements

-- `publication_schemas` is `none` where the Go slice is nil: only then the default applies.
pub record PowersyncSpec : Type 0 where
  pub publication_schemas : Option (List Bytes)
  pub image : ImageSpec
  pub api : PowersyncApiSpec
  pub replication : PowersyncReplicationSpec
  pub sync_rules : SyncRulesSpec
  pub compact : PowersyncCompactSpec

pub record SupabaseProjectSpec : Type 0 where
  pub database : DatabaseSpec
  pub project_credentials_secret : String
  pub auth : AuthSpec
  pub rest : RestSpec
  pub studio : StudioSpec
  pub meta : MetaSpec
  pub gateway : GatewaySpec
  pub powersync : Option PowersyncSpec
  pub image_pull_secrets : List LocalObjectReference
