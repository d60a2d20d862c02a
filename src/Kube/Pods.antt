-- ===== src/Kube/Pods.antt =====
-- Of k8s.io/api/core/v1: pods, their templates, secrets.
use azdo_kube_operator.Base.{ℕ, Bool, String, Option, List, Dict}
use azdo_kube_operator.Kube.Meta.{ObjectMeta, OwnerReference, Opaque}

-- `corev1.EnvVar`: a plain value, a key of a secret, or another source.
pub data EnvSource : Type 0 where
  value : String → EnvSource
  secret_key_ref : String → String → EnvSource
  other_source : Opaque → EnvSource

pub record EnvVar : Type 0 where
  pub name : String
  pub source : EnvSource

pub record VolumeMount : Type 0 where
  pub name : String
  pub mount_path : String
  pub read_only : Bool

pub record ContainerPort : Type 0 where
  pub container_port : ℕ
  pub name : String

-- `corev1.ResourceList`, quantities as they are written.
pub record ResourceRequirements : Type 0 where
  pub requests : Dict String
  pub limits : Dict String

pub record Container : Type 0 where
  pub name : String
  pub image : String
  pub command : List String
  pub args : List String
  pub env : List EnvVar
  pub resources : ResourceRequirements
  pub volume_mounts : List VolumeMount
  pub ports : List ContainerPort
  pub image_pull_policy : String
  pub privileged : Option Bool
  pub rest : Opaque

pub data RestartPolicy : Type 0 where
  always on_failure never : RestartPolicy

-- A volume by its name; `empty_dir` is the one source that the code writes.
pub data VolumeSource : Type 0 where
  empty_dir : VolumeSource
  other_volume : Opaque → VolumeSource

pub record Volume : Type 0 where
  pub name : String
  pub source : VolumeSource

pub record PodSpec : Type 0 where
  pub image_pull_secrets : List String
  pub tolerations : List Opaque
  pub affinity : Option Opaque
  pub containers : List Container
  pub restart_policy : RestartPolicy
  pub volumes : List Volume
  pub rest : Opaque

pub record PodTemplateSpec : Type 0 where
  pub labels : Dict String
  pub annotations : Dict String
  pub owner_references : List OwnerReference
  pub spec : PodSpec
  pub rest : Opaque

pub data PodPhase : Type 0 where
  pod_pending pod_running pod_succeeded pod_failed pod_unknown : PodPhase

-- `corev1.Pod`, as far as the event handler reads it.
pub record Pod : Type 0 where
  pub meta : ObjectMeta
  pub phase : PodPhase

-- `corev1.Secret`: the field `Data`.
pub record Secret : Type 0 where
  pub contents : Dict String
