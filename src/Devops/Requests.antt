-- ===== src/Devops/Requests.antt =====
-- Which requests each operation of the client makes.
use azdo_kube_operator.Base.{
  ℕ, Bool-cases, inl, inr, Bool, true, false, Option, none, some, String, ℤ, List, [], ◌∷◌,
}
use azdo_kube_operator.World.{
  Env, Request, Call, HttpReply, response, transport_failure, Response, Method, http_get,
  http_patch, http_delete, Endpoint, Payload, PoolCacheEntry, AgentPool, agents_in, pools_named,
  job_requests, agent_of, Action, ◌>>=◌,
}
use azdo_kube_operator.World.Footprint.{Adds, Adds-bind, Adds-wrapped, same, adds_rules}
use azdo_kube_operator.Devops.{
  AzureDevOpsClient, request_of, close, read_all, bad_status, new_request, fresh, remember,
  first_pool, read_pool_id, count_jobs, fetch_pool_id, get_pool_id_by_name, get_queue_length,
  do_request, answered, read_agents, get_agents_in_pool, disable_agent, check_ids, delete_agent,
  deleted,
}
use azdo_kube_operator.Devops.Effects.{Uses, uses, do_request_with_backoff-Uses}

module _ (env : Env) (client : AzureDevOpsClient) {P : Call → Type 0} {A : Type 0} where
  -- The request that is made is known.
  new_request-bind :
      (method : Method) (endpoint : Endpoint) (payload : Option Payload) (f : Request → Action A)
      → Adds P (f (request_of client method endpoint payload))
      → Adds P (new_request env client method endpoint payload >>= f)
  unfolding new_request
  new_request-bind method endpoint payload f k =
      elim (Bool-cases (env.url_parses client.org_url endpoint)) [
        | inl e ↦ rw e k
        | inr e ↦ rw e (record { at = λ s. same })
      ]

-- The requests that read: a pool by its name, the jobs and the agents of a pool.
pub data Reads (client : AzureDevOpsClient) : Request → Type 0 where
  pools : (name : String) → Reads client (request_of client http_get (pools_named name) none)
  jobs : (pool : ℤ) → Reads client (request_of client http_get (job_requests pool) none)
  agents : (pool : ℤ) → Reads client (request_of client http_get (agents_in pool) none)

-- The requests about one agent.
pub data Removes (client : AzureDevOpsClient) (pool agent : ℤ) : Request → Type 0 where
  disabling : Removes client pool agent (
      request_of client http_patch
        (agent_of pool agent)
        (some (record { id = agent; enabled = false })))
  deleting : Removes client pool agent (request_of client http_delete (agent_of pool agent) none)

check_ids-Uses : (Q : Request → Type 0) (pool agent : ℤ) → Adds (Uses Q) (check_ids pool agent)
unfolding check_ids
check_ids-Uses Q pool agent = search adds_rules

module _ (env : Env) (Q : Request → Type 0) where
  bad_status-Uses : {A : Type 0} (r : Response) → Adds (Uses Q) (bad_status env {A = A} r)
  unfolding bad_status
  bad_status-Uses r = search (adds_rules, uses)

  fresh-Uses : (o : Option PoolCacheEntry) → Adds (Uses Q) (fresh env o)
  unfolding fresh
  fresh-Uses none = search adds_rules
  fresh-Uses (some e) = search (adds_rules, uses)

  remember-Uses : (name : String) (id : ℤ) → Adds (Uses Q) (remember env name id)
  unfolding remember
  remember-Uses name id = search (adds_rules, uses)

  first_pool-Uses :
      (name : String) (b : Bool) (ps : List AgentPool) → Adds (Uses Q) (first_pool name b ps)
  unfolding first_pool
  first_pool-Uses name b [] = search adds_rules
  first_pool-Uses name true (p ∷ ps) = search adds_rules
  first_pool-Uses name false (p ∷ ps) = search adds_rules

  read_pool_id-Uses : (name : String) (r : Response) → Adds (Uses Q) (read_pool_id env name r)
  unfolding read_pool_id read_all
  read_pool_id-Uses name r = search (adds_rules, uses, first_pool-Uses, remember-Uses) depth 12

  count_jobs-Uses : (r : Response) → Adds (Uses Q) (count_jobs env r)
  unfolding count_jobs
  count_jobs-Uses r = search (adds_rules, uses, bad_status-Uses) depth 8

  close-Uses : (b : ℕ) → Adds (Uses Q) (close b)
  unfolding close
  close-Uses b = search (adds_rules, uses)

  answered-Uses : (h : HttpReply) → Adds (Uses Q) (answered h)
  answered-Uses (response r) = search adds_rules
  answered-Uses (transport_failure e) = search adds_rules

  do_request-Uses : (r : Request) → Q r → Adds (Uses Q) (do_request env r)
  unfolding do_request
  do_request-Uses r q = search (adds_rules, uses, answered-Uses)

  read_agents-Uses : (r : Response) → Adds (Uses Q) (read_agents env r)
  unfolding read_agents
  read_agents-Uses r = search (adds_rules, uses, bad_status-Uses) depth 8

  deleted-Uses : (r : Response) (o : Option String) → Adds (Uses Q) (deleted r o)
  unfolding deleted
  deleted-Uses r o = search adds_rules

module _ (env : Env) (client : AzureDevOpsClient) where
  fetch_pool_id-Reads : (name : String) → Adds (Uses (Reads client)) (fetch_pool_id env client name)
  unfolding fetch_pool_id
  fetch_pool_id-Reads name = new_request-bind env client _ _ _ _ (
      search (
        adds_rules,
        do_request_with_backoff-Uses env (Reads client),
        pools,
        close-Uses env,
        read_pool_id-Uses env,
      ))

  pub get_pool_id_by_name-Reads :
      (name : String) → Adds (Uses (Reads client)) (get_pool_id_by_name env client name)
  unfolding get_pool_id_by_name
  get_pool_id_by_name-Reads name = search (adds_rules, fresh-Uses env, fetch_pool_id-Reads)

  -- The length of a queue is found by requests that read the pools and the jobs of a pool, sent with
  -- the client's address and token; no agent is disabled or deleted.
  pub get_queue_length-Reads :
      (name : String) → Adds (Uses (Reads client)) (get_queue_length env client name)
  unfolding get_queue_length
  get_queue_length-Reads name =
      Adds-bind _ _ (Adds-wrapped "failed to get pool ID" _ (get_pool_id_by_name-Reads name)) λ id.
        new_request-bind env client _ _ _ _ (
          search (
            adds_rules,
            do_request_with_backoff-Uses env (Reads client),
            jobs,
            close-Uses env,
            count_jobs-Uses env,
          ))

  pub get_agents_in_pool-Reads :
      (pool : ℤ) → Adds (Uses (Reads client)) (get_agents_in_pool env client pool)
  unfolding get_agents_in_pool
  get_agents_in_pool-Reads pool = new_request-bind env client _ _ _ _ (
      search
        (
          adds_rules,
          do_request-Uses env (Reads client),
          agents,
          close-Uses env,
          read_agents-Uses env,
        )
        depth 8)

  -- Disabling an agent asks only for that, and asks for nothing where an identifier is not positive.
  pub disable_agent-Removes :
      (pool agent : ℤ)
      → Adds (Uses (Removes client pool agent)) (disable_agent env client pool agent)
  unfolding disable_agent
  disable_agent-Removes pool agent =
      Adds-bind _ _ (check_ids-Uses (Removes client pool agent) pool agent) λ u.
        new_request-bind env client _ _ _ _ (
          search
            (
              adds_rules,
              do_request-Uses env (Removes client pool agent),
              disabling,
              close-Uses env,
              bad_status-Uses env,
            )
            depth 8)

  pub delete_agent-Removes :
      (pool agent : ℤ)
      → Adds (Uses (Removes client pool agent)) (delete_agent env client pool agent)
  unfolding delete_agent
  delete_agent-Removes pool agent = new_request-bind env client _ _ _ _ (
      Adds-bind _ _
        (Adds-wrapped "failed to execute request" _
          (do_request_with_backoff-Uses env (Removes client pool agent) _ deleting))
        (λ r. search (adds_rules, uses, close-Uses env, deleted-Uses env) depth 8))
