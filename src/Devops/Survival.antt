-- ===== src/Devops/Survival.antt =====
-- No operation of the client panics.
use azdo_kube_operator.Base.{
  ◌≢◌, refl, arith, ℕ, zero, suc, Bool, true, false, String, Option, none, some, List, [], ◌∷◌, ℤ,
}
use azdo_kube_operator.World.{
  Env, Action, Request, Response, HttpReply, response, transport_failure, AgentPool, PoolCacheEntry,
  State, Result, ok, err, panic, resume, raise,
}
use azdo_kube_operator.World.Survival.{Survives, Survives-pure, Survives-raise, survival_rules}
use azdo_kube_operator.Devops.{
  AzureDevOpsClient, new_request, close, read_all, bad_status, jittered, pause, retry_delay,
  rate_limited, after_reply, try_once, conclude, send, do_request_with_backoff, Last, nothing_yet,
  got, failed, Round, again, done, follow, first_pool, fresh, remember, read_pool_id, fetch_pool_id,
  get_pool_id_by_name, count_jobs, get_queue_length, answered, deleted, check_ids, do_request,
  read_agents, get_agents_in_pool, disable_agent, delete_agent,
}

answered-Survives : (h : HttpReply) → Survives (answered h)
answered-Survives (response resp) = Survives-pure _
answered-Survives (transport_failure e) = Survives-raise _

module _ (env : Env) where
  after_reply-Survives : (n : ℕ) (h : HttpReply) → Survives (after_reply env n h)
  unfolding after_reply jittered pause rate_limited retry_delay close
  after_reply-Survives n (response resp) = search survival_rules depth 10
  after_reply-Survives n (transport_failure e) = search survival_rules depth 10

  try_once-Survives : (n : ℕ) (r : Request) → Survives (try_once env n r)
  unfolding try_once
  try_once-Survives n r = search (survival_rules, after_reply-Survives)

  -- A round that goes on has an answer or a failure.
  after_reply-again :
      (n : ℕ) (h : HttpReply) (s : State) → (after_reply env n h s).0 ≢ ok (again nothing_yet)
  unfolding after_reply rate_limited retry_delay jittered pause close
  after_reply-again n (transport_failure e) s h = ground arith
  after_reply-again n (response r) s h = ground arith

  follow-Survives :
      (x : Result Round) (f : Last → Action Response) (s : State)
      → x ≢ panic
      → x ≢ ok (again nothing_yet)
      → ((l : Last) → l ≢ nothing_yet → Survives (f l))
      → (resume x (λ round. follow round f) raise s).0 ≢ panic
  follow-Survives (ok (again nothing_yet)) f s p q k = absurd (q refl)
  follow-Survives (ok (again (got resp))) f s p q k = (k (got resp) (λ e. cc)).at s
  follow-Survives (ok (again (failed e))) f s p q k = (k (failed e) (λ h. cc)).at s
  follow-Survives (ok (done resp)) f s p q k = λ e. cc
  follow-Survives (err e) f s p q k = λ h. cc
  follow-Survives panic f s p q k = λ e. p refl

  conclude-Survives : (l : Last) → l ≢ nothing_yet → Survives (conclude env l)
  unfolding conclude
  conclude-Survives nothing_yet h = absurd (h refl)
  conclude-Survives (got resp) h = Survives-pure resp
  conclude-Survives (failed e) h = Survives-raise _

  round-Survives :
      (n attempt : ℕ) (r : Request) (last : Last)
      → ((l : Last) → l ≢ nothing_yet → Survives (send env n (suc attempt) r l))
      → Survives (send env (suc n) attempt r last)
  unfolding send try_once
  round-Survives n attempt r last k = record {
    at = λ s.
        follow-Survives (try_once env attempt r s).0 (send env n (suc attempt) r)
          (try_once env attempt r s).1 ((try_once-Survives attempt r).at s)
          (after_reply-again attempt (env.http s.log r) _) k;
  }

  send-Survives :
      (n attempt : ℕ) (r : Request) (l : Last) → l ≢ nothing_yet → Survives (send env n attempt r l)
  unfolding send
  send-Survives zero attempt r l h = conclude-Survives l h
  send-Survives (suc n) attempt r l h =
      round-Survives n attempt r l (send-Survives n (suc attempt) r)

  rounds-Survive : (r : Request) → Survives (send env 3 0 r nothing_yet)
  rounds-Survive r = round-Survives 2 0 r nothing_yet (send-Survives 2 1 r)

  do_request_with_backoff-Survives : (r : Request) → Survives (do_request_with_backoff env r)
  unfolding do_request_with_backoff
  do_request_with_backoff-Survives r = search (survival_rules, rounds-Survive)

  first_pool-Survives :
      (name : String) (b : Bool) (ps : List AgentPool) → Survives (first_pool name b ps)
  unfolding first_pool
  first_pool-Survives name b [] = Survives-raise _
  first_pool-Survives name true (p ∷ ps) = Survives-raise _
  first_pool-Survives name false (p ∷ ps) = Survives-pure _

  read_pool_id-Survives : (name : String) (resp : Response) → Survives (read_pool_id env name resp)
  unfolding read_pool_id read_all remember
  read_pool_id-Survives name resp = search (survival_rules, first_pool-Survives) depth 12

  fresh-Survives : (o : Option PoolCacheEntry) → Survives (fresh env o)
  unfolding fresh
  fresh-Survives none = Survives-pure _
  fresh-Survives (some entry) = search survival_rules

  count_jobs-Survives : (resp : Response) → Survives (count_jobs env resp)
  unfolding count_jobs bad_status read_all
  count_jobs-Survives resp = search survival_rules depth 10

  read_agents-Survives : (resp : Response) → Survives (read_agents env resp)
  unfolding read_agents bad_status read_all
  read_agents-Survives resp = search survival_rules depth 10

  do_request-Survives : (r : Request) → Survives (do_request env r)
  unfolding do_request
  do_request-Survives r = search (survival_rules, answered-Survives)

  deleted-Survives : (resp : Response) (body : Option String) → Survives (deleted resp body)
  unfolding deleted
  deleted-Survives resp body = search survival_rules depth 8

  check_ids-Survives : (pool agent : ℤ) → Survives (check_ids pool agent)
  unfolding check_ids
  check_ids-Survives pool agent = search survival_rules

  module _ (client : AzureDevOpsClient) where
    fetch_pool_id-Survives : (name : String) → Survives (fetch_pool_id env client name)
    unfolding fetch_pool_id new_request close
    fetch_pool_id-Survives name =
        search (survival_rules, do_request_with_backoff-Survives, read_pool_id-Survives) depth 12

    pub get_pool_id_by_name-Survives :
        (name : String) → Survives (get_pool_id_by_name env client name)
    unfolding get_pool_id_by_name
    get_pool_id_by_name-Survives name =
        search (survival_rules, fresh-Survives, fetch_pool_id-Survives) depth 12

    pub get_queue_length-Survives : (name : String) → Survives (get_queue_length env client name)
    unfolding get_queue_length new_request close
    get_queue_length-Survives name =
        search
          (
            survival_rules, get_pool_id_by_name-Survives, do_request_with_backoff-Survives,
            count_jobs-Survives,
          )
          depth 14

    pub get_agents_in_pool-Survives : (pool : ℤ) → Survives (get_agents_in_pool env client pool)
    unfolding get_agents_in_pool new_request close
    get_agents_in_pool-Survives pool =
        search (survival_rules, do_request-Survives, read_agents-Survives) depth 12

    pub disable_agent-Survives : (pool agent : ℤ) → Survives (disable_agent env client pool agent)
    unfolding disable_agent new_request close bad_status read_all
    disable_agent-Survives pool agent =
        search (survival_rules, check_ids-Survives, do_request-Survives) depth 16

    pub delete_agent-Survives : (pool agent : ℤ) → Survives (delete_agent env client pool agent)
    unfolding delete_agent new_request close read_all
    delete_agent-Survives pool agent =
        search (survival_rules, do_request_with_backoff-Survives, deleted-Survives) depth 16
