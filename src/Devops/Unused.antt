-- ===== src/Devops/Unused.antt =====
-- Types of queue.go that nothing uses.
use azdo_kube_operator.Base.{Bool, String, List, ℤ}

pub record TaskAgentPoolReference : Type 0 where
  pub id : ℤ
  pub is_hosted : Bool
  pub is_legacy : Bool
  pub name : String
  pub options : String  -- `TaskAgentPoolOptions`
  pub pool_type : String
  pub scope : String
  pub size : ℤ

pub record TaskAgentQueue : Type 0 where
  pub id : ℤ
  pub name : String
  pub pool : TaskAgentPoolReference
  pub project_id : String

pub record QueueResponse : Type 0 where
  pub count : ℤ
  pub value : List TaskAgentQueue
