-- ===== src/Controller/Effects.antt =====
-- The reconciler's calls of the API server and of controller-runtime.
use cloudnative_supabase.Prelude.{String, Bool, Option, List, Map, Result, ℤ}
use cloudnative_supabase.Kube.Meta.{Bytes, NamespacedName, ObjectMeta, OwnerReference, Condition}
use cloudnative_supabase.Kube.Core.{
  Secret, ConfigMap, Deployment, Service, Job, CronJob, CronJobSpec, PodTemplateSpec,
  DeploymentStrategy, LocalObjectReference, ServicePort,
}
use cloudnative_supabase.Kube.Cnpg.{
  Cluster, ObjectStore, ScheduledBackup, Publication, PublicationSpec, S3Credentials,
  WalBackupConfiguration, DataBackupConfiguration, PluginConfiguration,
}
use cloudnative_supabase.Api.Status.{ServiceStatus, SupabaseProjectStatus}
use cloudnative_supabase.Api.Project.{SupabaseProject}
pub use cloudnative_supabase.Prelude.Effects.{
  bind_run, then_run, if_run, attempt_run, lift_run, error_run, lift_bind_run, done_run,
}
unfoldable pub use cloudnative_supabase.Prelude.Effects.{
  Effect, continue, ◌>>=◌, ◌>>◌, lift, map_ok, done, resume, rescue, ignore_not_found, wrap_error,
  attempt, if_not_found,
}

-- The client for one kind of object. A read leaves the state of the server as it is.
pub record Resource (W A : Type 0) : Type 0 where
  pub get : NamespacedName → W → Result A
  pub create : A → W → Result (Unit {0}) × W
  pub update : A → W → Result (Unit {0}) × W
  pub delete : A → W → Result (Unit {0}) × W

-- The client for the kinds that the reconciler reads and writes.
pub record Client (W : Type 0) : Type 0 where
  pub secrets : Resource W Secret
  pub config_maps : Resource W ConfigMap
  pub deployments : Resource W Deployment
  pub services : Resource W Service
  pub jobs : Resource W Job
  pub cron_jobs : Resource W CronJob
  pub clusters : Resource W Cluster
  pub object_stores : Resource W ObjectStore
  pub scheduled_backups : Resource W ScheduledBackup
  pub publications : Resource W Publication
  pub get_project : NamespacedName → W → Result SupabaseProject
  pub update_status : SupabaseProject → W → Result (Unit {0}) × W
  -- `client.DeleteOptions` with the foreground propagation policy
  pub delete_in_foreground : Job → W → Result (Unit {0}) × W

-- `apiequality.Semantic.DeepEqual`, at the types that the effects compare.
pub record Equality : Type 0 where
  pub owners : List OwnerReference → List OwnerReference → Bool
  pub data_ : Map Bytes → Map Bytes → Bool
  pub selector : Map String → Map String → Bool
  pub replicas : Option ℤ → Option ℤ → Bool
  pub template : PodTemplateSpec → PodTemplateSpec → Bool
  pub strategy : DeploymentStrategy → DeploymentStrategy → Bool
  pub ports : List ServicePort → List ServicePort → Bool
  pub cron_spec : CronJobSpec → CronJobSpec → Bool
  pub credentials : Option S3Credentials → Option S3Credentials → Bool
  pub wal : Option WalBackupConfiguration → Option WalBackupConfiguration → Bool
  pub data_backup : Option DataBackupConfiguration → Option DataBackupConfiguration → Bool
  pub cluster : LocalObjectReference → LocalObjectReference → Bool
  pub plugin : Option PluginConfiguration → Option PluginConfiguration → Bool
  pub publication : PublicationSpec → PublicationSpec → Bool
  pub service_status : ServiceStatus → ServiceStatus → Bool
  pub status : SupabaseProjectStatus → SupabaseProjectStatus → Bool

-- Functions of controller-runtime, of the meta packages and of CloudNativePG.
pub record Machinery : Type 0 where
  pub equal : Equality
  -- `controllerutil.SetControllerReference`: the owners of the object of that name afterwards
  pub set_controller_reference :
      SupabaseProject → NamespacedName → List OwnerReference → Result (List OwnerReference)
  -- `metav1.IsControlledBy`
  pub is_controlled_by : List OwnerReference → SupabaseProject → Bool
  -- the group of `schema.ParseGroupVersion`
  pub parse_group : String → Option String
  -- `meta.SetStatusCondition`, `meta.FindStatusCondition`, `meta.RemoveStatusCondition`
  pub set_status_condition : Condition → List Condition → List Condition
  pub find_status_condition : String → List Condition → Option Condition
  pub remove_status_condition : String → List Condition → List Condition
  -- `Cluster.Default`
  pub default_cluster : Cluster → Cluster
  -- the verb `%d`
  pub decimal_text : ℤ → String

abbrev pub key_of : ObjectMeta → NamespacedName
key_of meta = record { name = meta.name; namespace = meta.namespace }

-- The metadata with the project as controller.
unfoldable pub own : Machinery → SupabaseProject → ObjectMeta → Result ObjectMeta
own machinery project meta =
    map_ok (λ owners. record meta { owner_references = owners })
      (machinery.set_controller_reference project (key_of meta) meta.owner_references)

-- `Get`, then `Create` if there is none, and `next` on what there is.
unfoldable pub create_or :
    {W A : Type 0}
    → Resource W A
    → NamespacedName
    → A
    → (A → Effect W (Unit {0}))
    → Effect W (Unit {0})
create_or resource key desired next =
    attempt (resource.get key) next (if_not_found (resource.create desired))
