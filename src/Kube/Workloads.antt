-- ===== src/Kube/Workloads.antt =====
-- Of k8s.io/api/apps/v1 and batch/v1: deployments and jobs.
use azdo_kube_operator.Base.{String, Option, List, Dict, ℤ}
use azdo_kube_operator.Kube.Meta.{ObjectMeta, Opaque}
use azdo_kube_operator.Kube.Pods.{PodTemplateSpec}

-- A selector is kept as the labels that it matches; the source sets no expressions.
pub record DeploymentSpec : Type 0 where
  pub replicas : Option ℤ
  pub selector : Dict String
  pub template : PodTemplateSpec
  pub rest : Opaque

pub record Deployment : Type 0 where
  pub meta : ObjectMeta
  pub spec : DeploymentSpec
  pub ready_replicas : ℤ
  pub rest : Opaque

pub data JobConditionType : Type 0 where
  job_complete job_failed : JobConditionType
  other_condition : String → JobConditionType

-- `condition.Status == "True"` is all that is read of the status.
pub record JobCondition : Type 0 where
  pub type : JobConditionType
  pub status : String

pub record Job : Type 0 where
  pub meta : ObjectMeta
  pub template : PodTemplateSpec
  pub conditions : List JobCondition
  pub rest : Opaque
