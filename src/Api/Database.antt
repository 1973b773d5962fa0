-- ===== src/Api/Database.antt =====
-- api/v1alpha1/supabaseproject_types.go: the database part of the specification.
use cloudnative_supabase.Prelude.{String, Option, Bool, List, Map, ℤ}
use cloudnative_supabase.Kube.Core.{ResourceRequirements}
use cloudnative_supabase.Kube.Cnpg.{StorageConfiguration, RoleConfiguration}

pub record S3Config : Type 0 where
  pub destination_path : String
  pub endpoint_url : String
  pub s3_credentials_secret : String

-- `CompressionType` is a text.
pub record BackupSpec : Type 0 where
  pub enabled : Bool
  pub schedule : String
  pub retention_policy : String
  pub s3_config : S3Config
  pub open s3_config use *
  pub wal_compression : String
  pub data_compression : String

pub record RecoverySpec : Type 0 where
  pub enabled : Bool
  pub server_name : String
  pub target_time : String
  pub s3_config : S3Config
  pub open s3_config use *

-- A nil slice or map is the empty one: the operator never tells them apart here.
pub record DatabaseSpec : Type 0 where
  pub instances : ℤ
  pub storage : StorageConfiguration
  pub image : String
  pub resources : ResourceRequirements
  pub enable_superuser_access : Bool
  pub parameters : Map String
  pub additional_preload_libraries : List String
  pub additional_extensions : List String
  pub backup : Option BackupSpec
  pub recovery : Option RecoverySpec
  pub additional_roles : List RoleConfiguration
