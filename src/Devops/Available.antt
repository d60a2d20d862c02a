-- ===== src/Devops/Available.antt =====
-- With a server that answers, the length of the queue is found.
use azdo_kube_operator.Base.{
  ◌≡◌, refl, ℕ, String, Option, none, some, List, ◌∷◌, true, false, eqb_ℤ, pos, ℤ,
}
use azdo_kube_operator.World.{
  Env, Call, Log, Request, Response, response, QueueNameResponse, JobRequests, AgentPool,
  PoolCacheEntry, Method, Endpoint, http_get, pools_named, job_requests, in_case, pure,
}
use azdo_kube_operator.World.Yields.{
  Yields, Any, Yields-pure, Yields-finally, Yields-bind, Yields-wrapped,
}
use azdo_kube_operator.Devops.{
  AzureDevOpsClient, new_request, request_of, do_request_with_backoff, send, try_once, after_reply,
  read_all, close, read_pool_id, first_pool, remember, fresh, fetch_pool_id, get_pool_id_by_name,
  count_jobs, get_queue_length, pending_jobs,
}

-- The rate limiter passes, addresses parse, each request gets an answer with the status 200, and each
-- body can be read: as a list of pools that is not empty, and as a list of jobs.
pub record Available (env : Env) : Type 0 where
  pub passes : (l : Log) → env.limiter l ≡ none
  pub parses : (url : String) (e : Endpoint) → env.url_parses url e ≡ true
  pub answers :
      (l : Log) (r : Request) → (x : Response) × (env.http l r ≡ response x) × (x.status ≡ 200)
  pub pools :
      (l : Log) (b : ℕ)
      → (text : String) × (env.read_all l b ≡ some text)
        × (answer : QueueNameResponse) × (env.unmarshal_pools text ≡ some answer)
        × (first : AgentPool) × (rest : List AgentPool) × (answer.value ≡ first ∷ rest)
        × (eqb_ℤ answer.count (pos 0) ≡ false)
  pub jobs : (l : Log) (b : ℕ) → (answer : JobRequests) × (env.decode_jobs l b ≡ some answer)

module _ (env : Env) (available : Available env) where
  IsFine : Response → Type 0
  IsFine x = x.status ≡ 200

  do_request_with_backoff-Yields : (r : Request) → Yields IsFine (do_request_with_backoff env r)
  unfolding do_request_with_backoff send try_once after_reply IsFine
  do_request_with_backoff-Yields r = record {
    at = λ s.
        let (x, e, fine) = available.answers (Call.limiter ∷ s.log) r in
        (x, rw (available.passes s.log, e, fine) refl, fine);
  }

  read_pool_id-Yields :
      (name : String) (x : Response) → IsFine x → Yields Any (read_pool_id env name x)
  unfolding read_pool_id read_all first_pool remember IsFine
  read_pool_id-Yields name x fine = record {
    at = λ s.
        let (text, read, answer, parsed, first, rest, value, count) =
          available.pools s.log x.body in
        (first.id, rw (read, fine, parsed, value, count) refl, tt);
  }

  count_jobs-Yields : (x : Response) → IsFine x → Yields Any (count_jobs env x)
  unfolding count_jobs IsFine
  count_jobs-Yields x fine = record {
    at = λ s.
        let (answer, read) = available.jobs s.log x.body in
        (pending_jobs answer, rw (fine, read) refl, tt);
  }

  module _ (client : AzureDevOpsClient) where
    new_request-Yields : (m : Method) (e : Endpoint) → Yields Any (new_request env client m e none)
    unfolding new_request
    new_request-Yields m e = record {
      at = λ s. (request_of client m e none, rw (available.parses client.org_url e) refl, tt);
    }

    fetch_pool_id-Yields : (name : String) → Yields Any (fetch_pool_id env client name)
    unfolding fetch_pool_id
    fetch_pool_id-Yields name =
        Yields-bind _ _ (new_request-Yields http_get (pools_named name)) λ r u.
          Yields-bind _ _ (Yields-wrapped _ _ (do_request_with_backoff-Yields r)) λ x fine.
            Yields-finally (close x.body) (read_pool_id env name x)
              (read_pool_id-Yields name x fine)

    cached-Yields :
        (name : String) (o : Option ℤ) → Yields Any (in_case o (fetch_pool_id env client name) pure)
    cached-Yields name none = fetch_pool_id-Yields name
    cached-Yields name (some id) = Yields-pure id tt

    fresh-Yields : (o : Option PoolCacheEntry) → Yields Any (fresh env o)
    unfolding fresh
    fresh-Yields none = Yields-pure none tt
    fresh-Yields (some entry) = record { at = λ s. (_, refl, tt) }

    get_pool_id_by_name-Yields : (name : String) → Yields Any (get_pool_id_by_name env client name)
    unfolding get_pool_id_by_name
    get_pool_id_by_name-Yields name =
        Yields-bind {Q = Any} _ _ (record { at = λ s. (_, refl, tt) })
          λ entry u.
            Yields-bind (fresh env entry) _ (fresh-Yields entry) λ o v. cached-Yields name o

    pub get_queue_length-Yields : (name : String) → Yields Any (get_queue_length env client name)
    unfolding get_queue_length
    get_queue_length-Yields name =
        Yields-bind _ _ (Yields-wrapped _ _ (get_pool_id_by_name-Yields name)) λ id u.
          Yields-bind _ _ (new_request-Yields http_get (job_requests id)) λ r v.
            Yields-bind _ _ (Yields-wrapped _ _ (do_request_with_backoff-Yields r))
              λ x fine. Yields-finally (close x.body) (count_jobs env x) (count_jobs-Yields x fine)
