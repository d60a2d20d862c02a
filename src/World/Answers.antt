-- ===== src/World/Answers.antt =====
-- What is not the operator's code: the API server and controller-runtime, the HTTP transport and the
-- JSON decoder, clock, randomness and cancellation, each by what it answers after a history.
use azdo_kube_operator.Base.{ℕ, Bool, String, Option, List, Dict, ℤ}
use azdo_kube_operator.Kube.{
  Time, NamespacedName, ObjectMeta, ApiError, Reply, CtxError, Pod, Secret, PodSpec, Container,
  Deployment, Job, AzureDevOps, Condition,
}
use azdo_kube_operator.World.Http.{
  Endpoint, Request, HttpReply, Agent, QueueNameResponse, JobRequests,
}
use azdo_kube_operator.World.Calls.{Log}

-- `equality.Semantic.DeepEqual` at the types at which it is used.
pub record DeepEqual : Type 0 where
  pub replicas : Option ℤ → Option ℤ → Bool
  pub pod_spec : PodSpec → PodSpec → Bool
  pub containers : List Container → List Container → Bool
  pub labels : Dict String → Dict String → Bool

pub record Env : Type 0 where
  -- the API server
  pub get_pod : Log → NamespacedName → Reply Pod
  pub get_resource : Log → NamespacedName → Reply AzureDevOps
  pub get_secret : Log → NamespacedName → Reply Secret
  pub get_deployment : Log → NamespacedName → Reply Deployment
  pub get_job : Log → NamespacedName → Reply Job
  pub create_deployment : Log → Deployment → Option ApiError
  pub update_deployment : Log → Deployment → Option ApiError
  pub create_job : Log → Job → Option ApiError
  pub update_job : Log → Job → Option ApiError
  pub update_resource : Log → AzureDevOps → Reply AzureDevOps
  pub update_status : Log → AzureDevOps → Option ApiError
  -- controller-runtime and apimachinery
  pub set_controller_reference : AzureDevOps → ObjectMeta → Reply ObjectMeta
  pub contains_finalizer : ObjectMeta → String → Bool
  pub add_finalizer : ObjectMeta → String → ObjectMeta
  pub remove_finalizer : ObjectMeta → String → ObjectMeta
  pub set_status_condition : List Condition → Condition → List Condition
  pub deep_equal : DeepEqual
  -- HTTP: the transport, whether a URL parses, the bodies
  pub http : Log → Request → HttpReply
  pub url_parses : String → Endpoint → Bool
  pub read_all : Log → ℕ → Option String
  pub unmarshal_pools : String → Option QueueNameResponse
  pub decode_pools : Log → ℕ → Option QueueNameResponse
  pub decode_jobs : Log → ℕ → Option JobRequests
  pub decode_agents : Log → ℕ → Option (List Agent)
  -- time, randomness below a bound, the rate limiter, the context
  pub clock : Log → Time
  pub random : Log → ℕ → ℕ
  pub limiter : Log → Option String
  pub wait : Log → ℤ → Option CtxError
  pub context : Log → Option CtxError
