-- ===== src/Kube/Core.antt =====
-- Objects of the core, apps and batch groups (k8s.io/api).
use cloudnative_supabase.Prelude.{String, Option, Bool, List, Map, ℤ}
use cloudnative_supabase.Kube.Meta.{Bytes, Blob, ObjectMeta}

pub record Secret : Type 0 where
  pub meta : ObjectMeta
  pub type : String
  pub data_ : Map Bytes
  pub string_data : Map Bytes

pub record ConfigMap : Type 0 where
  pub meta : ObjectMeta
  pub data_ : Map Bytes

-- A missing map is told from an empty one, since the operator tests for `nil`.
pub record ResourceRequirements : Type 0 where
  pub requests : Option (Map Blob)
  pub limits : Option (Map Blob)

pub record LocalObjectReference : Type 0 where
  pub name : String

-- `SecretKeySelector` and `ConfigMapKeySelector`
pub record KeySelector : Type 0 where
  pub name : String
  pub key : String
  pub optional : Option Bool

pub record EnvVarSource : Type 0 where
  pub secret_key_ref : Option KeySelector
  pub config_map_key_ref : Option KeySelector

pub record EnvVar : Type 0 where
  pub name : String
  pub value : Bytes
  pub value_from : Option EnvVarSource

pub record HttpGetAction : Type 0 where
  pub path : String
  pub port : ℤ
  pub scheme : String

pub record Probe : Type 0 where
  pub http_get : Option HttpGetAction
  pub initial_delay_seconds : ℤ
  pub timeout_seconds : ℤ
  pub period_seconds : ℤ
  pub success_threshold : ℤ
  pub failure_threshold : ℤ

pub record ContainerPort : Type 0 where
  pub name : String
  pub container_port : ℤ
  pub protocol : String

-- `env_from` names Secrets; `rest` holds the fields that the operator does not set here.
pub record Container : Type 0 where
  pub name : String
  pub image : String
  pub image_pull_policy : String
  pub command : List String
  pub args : List String
  pub env : List EnvVar
  pub env_from : List LocalObjectReference
  pub resources : ResourceRequirements
  pub ports : List ContainerPort
  pub liveness_probe : Option Probe
  pub readiness_probe : Option Probe
  pub startup_probe : Option Probe
  pub termination_message_path : String
  pub termination_message_policy : String
  pub rest : Blob

-- A volume source with a default mode, such as a ConfigMap's.
pub record ModedSource : Type 0 where
  pub source : Blob
  pub default_mode : Option ℤ

pub record Volume : Type 0 where
  pub name : String
  pub config_map : Option ModedSource
  pub secret : Option ModedSource
  pub downward_api : Option ModedSource
  pub projected : Option ModedSource
  pub rest : Blob

pub record PodSpec : Type 0 where
  pub restart_policy : String
  pub termination_grace_period_seconds : Option ℤ
  pub dns_policy : String
  pub security_context : Option Blob
  pub scheduler_name : String
  pub volumes : List Volume
  pub init_containers : List Container
  pub containers : List Container
  pub image_pull_secrets : List LocalObjectReference
  pub rest : Blob

pub record PodTemplateSpec : Type 0 where
  pub labels : Map String
  pub annotations : Map Bytes
  pub spec : PodSpec

pub record DeploymentStrategy : Type 0 where
  pub type : String
  pub rolling_update : Option Blob

pub record DeploymentStatus : Type 0 where
  pub observed_generation : ℤ
  pub updated_replicas : ℤ
  pub ready_replicas : ℤ
  pub available_replicas : ℤ
  pub unavailable_replicas : ℤ

pub record Deployment : Type 0 where
  pub meta : ObjectMeta
  pub replicas : Option ℤ
  pub selector : Map String
  pub template : PodTemplateSpec
  pub strategy : DeploymentStrategy
  pub status : DeploymentStatus

pub record ServicePort : Type 0 where
  pub name : String
  pub port : ℤ
  pub target_port : ℤ
  pub protocol : String

pub record Service : Type 0 where
  pub meta : ObjectMeta
  pub type : String
  pub ports : List ServicePort
  pub selector : Map String
  pub rest : Blob

pub record JobCondition : Type 0 where
  pub type : String
  pub status : String
  pub message : String

pub record Job : Type 0 where
  pub meta : ObjectMeta
  pub spec : Blob
  pub conditions : List JobCondition

-- `suspend`, the template of the pods, and the other fields.
pub record CronJobSpec : Type 0 where
  pub schedule : String
  pub suspend : Option Bool
  pub template : PodTemplateSpec
  pub rest : Blob

pub record CronJob : Type 0 where
  pub meta : ObjectMeta
  pub spec : CronJobSpec
