-- ===== src/Tests/Fixture.antt =====
-- A resource, an API server and an Azure DevOps server for the examples.
use azdo_kube_operator.Base.{
  ◌≡◌, refl, arith, ℕ, ◌+◌, ◌==◌, Bool, true, false, String, Option, none, some, List, [], ◌∷◌,
  ◌++◌, ℤ, pos, eqb_ℤ, any, length, str_eq, if◌then◌else◌,
}
use azdo_kube_operator.Kube.{
  ObjectMeta, NamespacedName, named, reply, fail, not_found, AzureDevOps, AzureDevOpsSpec,
  ResourceRequirements,
}
use azdo_kube_operator.World.{
  Env, DeepEqual, State, Call, HttpReply, response, Endpoint, pools_named, job_requests, agents_in,
  agent_of, Agent, Pool, QueueNameResponse, QueueItem, JobRequests, Links, Definition,
}
use azdo_kube_operator.Kubernetes.Updates.{IsReflexive}
use azdo_kube_operator.Devops.{AzureDevOpsClient, client_of, finalizer_name}

abbrev pub meta_named : String → List String → ObjectMeta
meta_named name finalizers = record {
  name = name;
  namespace = "builds";
  uid = "u1";
  labels = [];
  annotations = [];
  owner_references = [];
  finalizers = finalizers;
  deletion_timestamp = none;
  rest = "";
}

abbrev pub no_resources : ResourceRequirements
no_resources = record { requests = []; limits = [] }

abbrev pub spec_in : String → String → AzureDevOpsSpec
spec_in mode docker = record {
  org_url = "https://dev.azure.com/org/";
  project = "project";
  pool_name = "linux";
  image = "agent:1";
  image_pull_secret_ref = "";
  pat_secret_ref = "pat";
  resources = no_resources;
  mode = mode;
  min_replicas = pos 1;
  max_replicas = pos 4;
  docker = docker;
  tolerations = [];
  affinity = none;
  ephemeral = false;
  env = [];
}

abbrev pub resource_in : String → String → List String → AzureDevOps
resource_in mode docker finalizers = record {
  api_version = "v1beta1";
  kind = "AzureDevOps";
  meta = meta_named "agents" finalizers;
  spec = spec_in mode docker;
  status = record {
    current_agents = pos 0;
    queued_jobs = pos 0;
    desired_agents = pos 0;
    ready_agents = pos 0;
    last_scaling_time = none;
    conditions = [];
    last_failed_check = none;
  };
}

abbrev pub sample : AzureDevOps
sample = resource_in "Deployment" "dind" (finalizer_name ∷ [])

abbrev pub sample_key : NamespacedName
sample_key = named "agents" "builds"

abbrev pub agent_called : ℤ → String → Bool → Agent
agent_called id name enabled = record {
  id = id;
  name = name;
  status = "online";
  enabled = enabled;
  pool_id = pos 7;
}

abbrev pub first_agent : Agent
first_agent = agent_called (pos 11) "agents-a" true

abbrev pub second_agent : Agent
second_agent = agent_called (pos 12) "agents-b" false

abbrev pub other_agent : Agent
other_agent = agent_called (pos 13) "windows-c" true

abbrev pub all_agents : List Agent
all_agents = first_agent ∷ other_agent ∷ second_agent ∷ []

abbrev pub links : Links
links = record { self = ""; web = "" }

abbrev pub definition : Definition
definition = record { links = links; id = pos 1; name = "" }

abbrev pub item_assigned : Option ℕ → QueueItem
item_assigned assign_time = record {
  request_id = pos 1;
  queue_time = 1;
  assign_time = assign_time;
  service_owner = "";
  host_id = "";
  scope_id = "";
  plan_type = "";
  plan_id = "";
  job_id = "";
  demands = [];
  matched_agents = [];
  definition = definition;
  owner = definition;
  item_data = record { parallelism_tag = ""; is_scheduled_key = "" };
  pool_id = pos 7;
  orchestration_id = "";
  matches_all_agents_in_pool = false;
  priority = pos 0;
}

abbrev pub two_pending : JobRequests
two_pending = record {
  count = pos 3;
  value = item_assigned none ∷ item_assigned (some 5) ∷ item_assigned none ∷ [];
}

abbrev linux_pool : Pool
linux_pool = record {
  id = pos 7;
  scope = "";
  name = "linux";
  is_hosted = false;
  pool_type = "";
  size = pos 1;
  is_legacy = false;
  options = "";
}

abbrev pools : QueueNameResponse
pools = record {
  count = pos 1;
  value = record { id = pos 7; project_id = ""; name = "linux"; pool = linux_pool } ∷ [];
}

abbrev pub answer_with : ℕ → ℕ → HttpReply
answer_with status body = response (record { status = status; retry_after = ""; body = body })

abbrev pub serve : Endpoint → HttpReply
serve (pools_named name) = answer_with 200 1
serve (job_requests pool) = answer_with 200 2
serve (agents_in pool) = answer_with 200 3
serve (agent_of pool agent) = answer_with 200 4

abbrev pub closes : ℕ → Call → Bool
closes b (Call.close_body n) = n == b
closes b (Call.get_pod k) = false
closes b _ = false

abbrev pub same_count : Option ℤ → Option ℤ → Bool
same_count none none = true
same_count none (some b) = false
same_count (some a) none = false
same_count (some a) (some b) = eqb_ℤ a b

abbrev pub sample_equality : DeepEqual
sample_equality = record {
  replicas = same_count;
  pod_spec = λ a b. length a.containers == length b.containers;
  containers = λ a b. length a == length b;
  labels = λ a b. length a == length b;
}

same_count_refl : (o : Option ℤ) → same_count o o ≡ true
same_count_refl none = refl
same_count_refl (some x) = ground arith

pub equality-IsReflexive : IsReflexive sample_equality
equality-IsReflexive = record {
  replicas = same_count_refl;
  pod_spec = λ x. ground arith;
  containers = λ x. ground arith;
  labels = λ x. ground arith;
}

-- A body can be decoded until it is closed.
abbrev pub sample_env : Env
sample_env = record {
  get_pod = λ l k. fail not_found;
  get_resource = λ l k. reply sample;
  get_secret = λ l k. reply (record { contents = ("PAT", "token") ∷ [] });
  get_deployment = λ l k. fail not_found;
  get_job = λ l k. fail not_found;
  create_deployment = λ l d. none;
  update_deployment = λ l d. none;
  create_job = λ l j. none;
  update_job = λ l j. none;
  update_resource = λ l cr. reply cr;
  update_status = λ l cr. none;
  set_controller_reference = λ cr meta. reply meta;
  contains_finalizer = λ meta name. any (str_eq name) meta.finalizers;
  add_finalizer = λ meta name. record meta { finalizers = meta.finalizers ++ name ∷ [] };
  remove_finalizer = λ meta name. record meta { finalizers = [] };
  set_status_condition = λ conditions c. c ∷ conditions;
  deep_equal = sample_equality;
  http = λ l r. serve r.endpoint;
  url_parses = λ url endpoint. true;
  read_all = λ l b. some "body";
  unmarshal_pools = λ body. some pools;
  decode_pools = λ l b. some pools;
  decode_jobs = λ l b. some two_pending;
  decode_agents = λ l b. if any (closes b) l then none else some all_agents;
  clock = λ l. 1_000 + length l;
  random = λ l n. 0;
  limiter = λ l. none;
  wait = λ l d. none;
  context = λ l. none;
}

abbrev pub start : State
start = record { log = []; pool_id_cache = [] }

abbrev pub sample_client : AzureDevOpsClient
unfolding client_of
sample_client = client_of "token" "https://dev.azure.com/org/" "project"
