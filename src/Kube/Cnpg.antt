-- ===== src/Kube/Cnpg.antt =====
-- CloudNativePG clusters, backups and publications, and the Barman Cloud object store.
use cloudnative_supabase.Prelude.{String, Option, Bool, List, Map, ℤ}
use cloudnative_supabase.Kube.Meta.{Bytes, Blob, ObjectMeta}
use cloudnative_supabase.Kube.Core.{LocalObjectReference, ResourceRequirements}

pub record StorageConfiguration : Type 0 where
  pub storage_class : Option String
  pub size : String
  pub resize_in_use_volumes : Option Bool
  pub persistent_volume_claim_template : Option Blob

pub record RoleConfiguration : Type 0 where
  pub name : String
  pub comment : String
  pub ensure : String
  pub password_secret : Option LocalObjectReference
  pub connection_limit : ℤ
  pub valid_until : Option Blob
  pub in_roles : List String
  pub inherit : Option Bool
  pub disable_password : Bool
  pub superuser : Bool
  pub create_db : Bool
  pub create_role : Bool
  pub login : Bool
  pub replication : Bool
  pub bypass_rls : Bool

pub record PluginConfiguration : Type 0 where
  pub name : String
  pub enabled : Option Bool
  pub is_wal_archiver : Option Bool
  pub parameters : Map String

pub record ExternalCluster : Type 0 where
  pub name : String
  pub plugin_configuration : Option PluginConfiguration
  pub rest : Blob

pub record RecoveryTarget : Type 0 where
  pub target_time : String

pub record BootstrapRecovery : Type 0 where
  pub source : String
  pub recovery_target : Option RecoveryTarget
  pub database : String
  pub owner : String
  pub secret : Option LocalObjectReference

-- A key of a ConfigMap.
pub record ConfigMapKeySelector : Type 0 where
  pub name : String
  pub key : String

pub record SqlRefs : Type 0 where
  pub config_map_refs : List ConfigMapKeySelector

pub record BootstrapInitDb : Type 0 where
  pub database : String
  pub owner : String
  pub secret : Option LocalObjectReference
  pub post_init_application_sql_refs : Option SqlRefs

pub record BootstrapConfiguration : Type 0 where
  pub init_db : Option BootstrapInitDb
  pub recovery : Option BootstrapRecovery

pub record PostgresConfiguration : Type 0 where
  pub parameters : Map String
  pub pg_hba : List String
  pub additional_libraries : List String

-- The toggle, and the other affinity fields.
pub record AffinityConfiguration : Type 0 where
  pub enable_pod_anti_affinity : Option Bool
  pub rest : Blob

-- The roles, and the other managed parts.
pub record ManagedConfiguration : Type 0 where
  pub roles : List RoleConfiguration
  pub rest : Blob

pub record ClusterSpec : Type 0 where
  pub instances : ℤ
  pub image_name : String
  pub enable_superuser_access : Option Bool
  pub bootstrap : Option BootstrapConfiguration
  pub postgres_configuration : PostgresConfiguration
  pub storage_configuration : StorageConfiguration
  pub managed : Option ManagedConfiguration
  pub resources : ResourceRequirements
  pub affinity : AffinityConfiguration
  pub plugins : List PluginConfiguration
  pub external_clusters : List ExternalCluster
  pub rest : Blob

pub record ClusterStatus : Type 0 where
  pub ready_instances : ℤ
  pub phase : String
  pub current_primary : String
  -- `ManagedRolesStatus.CannotReconcile` and `ManagedRolesStatus.ByStatus`
  pub cannot_reconcile : Map (List String)
  pub roles_by_status : Map (List String)

pub record Cluster : Type 0 where
  pub meta : ObjectMeta
  pub spec : ClusterSpec
  pub status : ClusterStatus

pub record S3KeyReference : Type 0 where
  pub name : String
  pub key : String

pub record S3Credentials : Type 0 where
  pub access_key_id : Option S3KeyReference
  pub secret_access_key : Option S3KeyReference

pub record WalBackupConfiguration : Type 0 where
  pub compression : String
  pub max_parallel : ℤ

pub record DataBackupConfiguration : Type 0 where
  pub compression : String

pub record BarmanObjectStoreConfiguration : Type 0 where
  pub barman_credentials : Option S3Credentials
  pub endpoint_url : String
  pub destination_path : String
  pub wal : Option WalBackupConfiguration
  pub data_ : Option DataBackupConfiguration
  pub rest : Blob

pub record ObjectStore : Type 0 where
  pub meta : ObjectMeta
  pub configuration : BarmanObjectStoreConfiguration
  pub retention_policy : String
  -- `instanceSidecarConfiguration`, which the API defaults
  pub rest : Blob

pub record ScheduledBackup : Type 0 where
  pub meta : ObjectMeta
  pub schedule : String
  pub cluster : LocalObjectReference
  pub backup_owner_reference : String
  pub method : String
  pub plugin_configuration : Option PluginConfiguration
  pub rest : Blob

pub record PublicationSpec : Type 0 where
  pub cluster_ref : LocalObjectReference
  pub name : String
  pub db_name : String
  -- `Target.Objects`, each by its `TablesInSchema`
  pub tables_in_schema : List Bytes
  pub reclaim_policy : String

pub record Publication : Type 0 where
  pub meta : ObjectMeta
  pub spec : PublicationSpec
  pub observed_generation : ℤ
  pub applied : Option Bool
  pub message : String
