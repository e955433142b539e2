-- ===== src/Kubernetes.antt =====
-- The Kubernetes types of internal/controller/resources.go: the records hold the fields that the
-- program sets or reads; a nil or unset text is "". The owner is the controller reference; the
-- `ready_replicas` of a Deployment are in its status.
use heliop.Base.{ℕ, String, Bool, Option, List}
use heliop.Base.Dict.{Dict}
use heliop.Json.{Value}
use heliop.Api.{ℤ, SecretKeyRef, ResourceRequirements}

-- `metav1.OwnerReference` of the controller
pub record OwnerReference : Type 0 where
  pub kind : String
  pub name : String

pub record ObjectMeta : Type 0 where
  pub name : String
  pub namespace : String
  pub labels : Option (Dict String)
  pub owner : Option OwnerReference

pub record PersistentVolumeClaim : Type 0 where
  pub meta : ObjectMeta
  pub spec : Option Value

pub record ConfigMap : Type 0 where
  pub meta : ObjectMeta
  pub contents : Dict String

pub record Secret : Type 0 where
  pub meta : ObjectMeta
  pub type : String
  pub contents : Option (Dict String)

pub record ServicePort : Type 0 where
  pub name : String
  pub protocol : String
  pub port : ℕ
  pub target_port : String

pub record Service : Type 0 where
  pub meta : ObjectMeta
  pub type : String
  pub selector : Dict String
  pub ports : List ServicePort

-- A variable with a literal value, or with the value of a key of a Secret.
pub record EnvVar : Type 0 where
  pub name : String
  pub value : String
  pub value_from : Option SecretKeyRef

pub record VolumeMount : Type 0 where
  pub name : String
  pub mount_path : String
  pub sub_path : String
  pub read_only : Bool

pub data VolumeSource : Type 0 where
  secret : (secret_name : String) → VolumeSource
  config_map : (name : String) → VolumeSource
  persistent_volume_claim : (claim_name : String) → VolumeSource
  empty_dir : VolumeSource

pub record Volume : Type 0 where
  pub name : String
  pub source : VolumeSource

pub record Probe : Type 0 where
  pub path : String
  pub port : String
  pub scheme : String
  pub initial_delay_seconds : ℕ
  pub period_seconds : ℕ
  pub timeout_seconds : ℕ
  pub success_threshold : ℕ
  pub failure_threshold : ℕ

pub record ContainerPort : Type 0 where
  pub name : String
  pub container_port : ℕ
  pub protocol : String

pub record Container : Type 0 where
  pub name : String
  pub image : String
  pub image_pull_policy : String
  pub command : List String
  pub args : List String
  pub env : List EnvVar
  pub resources : ResourceRequirements
  pub ports : List ContainerPort
  pub startup_probe : Probe
  pub liveness_probe : Probe
  pub readiness_probe : Probe
  pub volume_mounts : List VolumeMount

pub record Deployment : Type 0 where
  pub meta : ObjectMeta
  pub replicas : ℤ
  pub revision_history_limit : ℕ
  pub selector : Dict String
  pub template_labels : Dict String
  pub template_annotations : Dict String
  pub enable_service_links : Bool
  pub containers : List Container
  pub volumes : List Volume
  pub ready_replicas : ℤ
