-- ===== src/Devops/Queue.antt =====
-- `GetPoolIDByName` with its cache, and `GetQueueLength`.
use azdo_kube_operator.Base.{
  ℕ, ◌+◌, ⊤, Bool, true, false, not, ◌||◌, String, Option, none, some, List, [], ◌∷◌, ℤ, pos, eqb_ℤ,
  ◌==◌, ltb, if◌then◌else◌, is_empty, count_if, lookup, insert,
}
use azdo_kube_operator.Kube.{Error, wrap, fault, library_error, word}
use azdo_kube_operator.World.{
  Env, PoolCacheEntry, Action, pure, raise, or_raise, raise_if, gets, change_cache, in_case,
  finally, wrapped, ◌>>=◌, ◌>>◌, Call, call, http_get, pools_named, job_requests, Response,
  AgentPool, QueueItem, JobRequests,
}
use azdo_kube_operator.Devops.Client.{
  AzureDevOpsClient, cache_expiration, new_request, read_all, close, unexpected_status, bad_status,
}
use azdo_kube_operator.Devops.Backoff.{do_request_with_backoff}

abbrev pub unparsed : Error
unparsed = wrap "failed to parse response" (library_error "json")

abbrev pub no_pool : String → Error
no_pool name = fault "no pool found with name: %s" (word name ∷ [])

-- `queueResp.Value[0].ID`, behind the test `queueResp.Count == 0 || len(queueResp.Value) == 0`.
unfoldable pub first_pool : String → Bool → List AgentPool → Action ℤ
first_pool name counted_none [] = raise (no_pool name)
first_pool name true (p ∷ ps) = raise (no_pool name)
first_pool name false (p ∷ ps) = pure p.id

-- `job.AssignTime == nil`
abbrev pub is_unassigned : QueueItem → Bool
is_unassigned item = elim (item.assign_time) [ none ↦ true | some t ↦ false ]

unfoldable pub pending_jobs : JobRequests → ℕ
pending_jobs answer =
    if eqb_ℤ answer.count (pos 0) || is_empty answer.value
    then 0
    else count_if is_unassigned answer.value

module _ (env : Env) where
  -- The entry counts while it has not expired; the clock is read only if there is one.
  unfoldable pub fresh : Option PoolCacheEntry → Action (Option ℤ)
  fresh none = pure none
  fresh (some entry) = do
    now ← call Call.clock env.clock
    pure (if ltb now entry.expires_at then some entry.id else none)

  unfoldable pub remember : String → ℤ → Action ⊤
  unfolding insert
  remember name id = do
    now ← call Call.clock env.clock
    change_cache (insert name (record { id = id; expires_at = now + cache_expiration }))

  unfoldable pub read_pool_id : String → Response → Action ℤ
  unfolding read_all first_pool remember
  read_pool_id name resp = do
    read ← read_all env resp.body
    body ← or_raise read (wrap "failed to read response body" (library_error "read"))
    raise_if (not (resp.status == 200)) (unexpected_status resp (some body))
    answer ← or_raise (env.unmarshal_pools body) unparsed
    id ← first_pool name (eqb_ℤ answer.count (pos 0)) answer.value
    remember name id
    pure id

  unfoldable pub count_jobs : Response → Action ℕ
  unfolding bad_status pending_jobs
  count_jobs resp = if not (resp.status == 200) then bad_status env resp else do
    decoded ← call (Call.read_body resp.body) (λ l. env.decode_jobs l resp.body)
    answer ← or_raise decoded unparsed
    pure (pending_jobs answer)

  module _ (client : AzureDevOpsClient) where
    unfoldable pub fetch_pool_id : String → Action ℤ
    unfolding new_request do_request_with_backoff read_pool_id close
    fetch_pool_id name = do
      req ← new_request env client http_get (pools_named name) none
      resp ← wrapped "failed to execute request" (do_request_with_backoff env req)
      finally (close resp.body) (read_pool_id name resp)

    unfoldable pub get_pool_id_by_name : String → Action ℤ
    unfolding lookup fresh fetch_pool_id
    get_pool_id_by_name name = do
      entry ← gets (λ s. lookup name s.pool_id_cache)
      cached ← fresh entry
      in_case cached (fetch_pool_id name) pure

    unfoldable pub get_queue_length : String → Action ℕ
    unfolding get_pool_id_by_name new_request do_request_with_backoff count_jobs close
    get_queue_length name = do
      id ← wrapped "failed to get pool ID" (get_pool_id_by_name name)
      req ← new_request env client http_get (job_requests id) none
      resp ← wrapped "failed to execute request" (do_request_with_backoff env req)
      finally (close resp.body) (count_jobs resp)
