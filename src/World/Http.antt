-- ===== src/World/Http.antt =====
-- The Azure DevOps REST interface as internal/infra/azuredevops/queue.go uses it: requests,
-- responses, and the records that the answers are decoded into.
use azdo_kube_operator.Base.{ℕ, Bool, String, Option, List, ℤ}
use azdo_kube_operator.Kube.{Time}

pub data Method : Type 0 where
  http_get http_patch http_delete : Method

-- The path behind `<orgURL>/_apis/distributedtask/`, by the arguments of its format.
pub data Endpoint : Type 0 where
  pools_named : String → Endpoint
  job_requests : ℤ → Endpoint
  agents_in : ℤ → Endpoint
  agent_of : ℤ → ℤ → Endpoint

-- The body of the request that disables an agent.
pub record Payload : Type 0 where
  pub id : ℤ
  pub enabled : Bool

pub record Request : Type 0 where
  pub method : Method
  pub org_url : String
  pub endpoint : Endpoint
  pub credentials : String  -- the text that the basic authorization encodes
  pub payload : Option Payload

-- A body is a handle: it is read and closed by calls.
pub record Response : Type 0 where
  pub status : ℕ
  pub retry_after : String
  pub body : ℕ

pub data HttpReply : Type 0 where
  response : Response → HttpReply
  transport_failure : String → HttpReply

-- types.go: `Agent`
pub record Agent : Type 0 where
  pub id : ℤ
  pub name : String
  pub status : String
  pub enabled : Bool
  pub pool_id : ℤ

pub record Pool : Type 0 where
  pub id : ℤ
  pub scope : String
  pub name : String
  pub is_hosted : Bool
  pub pool_type : String
  pub size : ℤ
  pub is_legacy : Bool
  pub options : String

pub record AgentPool : Type 0 where
  pub id : ℤ
  pub project_id : String
  pub name : String
  pub pool : Pool

pub record QueueNameResponse : Type 0 where
  pub count : ℤ
  pub value : List AgentPool

pub record Links : Type 0 where
  pub self : String
  pub web : String

pub record MatchedAgent : Type 0 where
  pub links : Links
  pub id : ℤ
  pub name : String
  pub version : String
  pub enabled : Bool
  pub status : String
  pub provisioning_state : String

-- `Definition` and `Owner` have the same fields.
pub record Definition : Type 0 where
  pub links : Links
  pub id : ℤ
  pub name : String

pub record QueueItemData : Type 0 where
  pub parallelism_tag : String
  pub is_scheduled_key : String

pub record QueueItem : Type 0 where
  pub request_id : ℤ
  pub queue_time : Time
  pub assign_time : Option Time
  pub service_owner : String
  pub host_id : String
  pub scope_id : String
  pub plan_type : String
  pub plan_id : String
  pub job_id : String
  pub demands : List String
  pub matched_agents : List MatchedAgent
  pub definition : Definition
  pub owner : Definition
  pub item_data : QueueItemData
  pub pool_id : ℤ
  pub orchestration_id : String
  pub matches_all_agents_in_pool : Bool
  pub priority : ℤ

-- The struct that `GetQueueLength` decodes into.
pub record JobRequests : Type 0 where
  pub count : ℤ
  pub value : List QueueItem
