-- ===== src/Kube/Resource.antt =====
-- api/v1beta1/azuredevops_types.go: the custom resource. Kube/Beta0 has those of
-- api/v0beta0.
use azdo_kube_operator.Base.{Bool, String, Option, List, ℤ}
use azdo_kube_operator.Kube.Meta.{ObjectMeta, Opaque, Time}
use azdo_kube_operator.Kube.Errors.{Message}
use azdo_kube_operator.Kube.Pods.{ResourceRequirements, EnvVar}

pub record AzureDevOpsSpec : Type 0 where
  pub org_url : String
  pub project : String
  pub pool_name : String
  pub image : String
  pub image_pull_secret_ref : String
  pub pat_secret_ref : String
  pub resources : ResourceRequirements
  pub mode : String
  pub min_replicas : ℤ  -- int32
  pub max_replicas : ℤ  -- int32
  pub docker : String
  pub tolerations : List Opaque
  pub affinity : Option Opaque
  pub ephemeral : Bool
  pub env : List EnvVar

-- `metav1.ConditionStatus`
pub data ConditionStatus : Type 0 where
  condition_true condition_false condition_unknown : ConditionStatus

-- `metav1.Condition`
pub record Condition : Type 0 where
  pub type : String
  pub status : ConditionStatus
  pub reason : String
  pub message : Message
  pub last_transition_time : Time

pub record AzureDevOpsStatus : Type 0 where
  pub current_agents : ℤ  -- int32
  pub queued_jobs : ℤ  -- int32
  pub desired_agents : ℤ  -- int32
  pub ready_agents : ℤ  -- int32
  pub last_scaling_time : Option Time
  pub conditions : List Condition
  pub last_failed_check : Option Time

pub record AzureDevOps : Type 0 where
  pub api_version : String
  pub kind : String
  pub meta : ObjectMeta
  pub spec : AzureDevOpsSpec
  pub status : AzureDevOpsStatus

-- `metav1.ListMeta` is only passed on.
pub record AzureDevOpsList : Type 0 where
  pub api_version : String
  pub kind : String
  pub meta : Opaque
  pub items : List AzureDevOps
