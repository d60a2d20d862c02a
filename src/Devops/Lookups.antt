-- ===== src/Devops/Lookups.antt =====
-- The two ways to a pool's ID.
use azdo_kube_operator.Base.{
  ◌≡◌, Bool, true, false, Bool-cases, Option-cases, none, some, inl, inr, String, List, [], ◌∷◌, ℤ,
  pos, eqb_ℤ, ◌==◌, lookup, trim_space,
}
use azdo_kube_operator.Kube.{Arg, Error}
use azdo_kube_operator.World.{
  Env, pure, ◌>>=◌, ◌>>◌, State, Result, ok, err, Call, Request, Response, response, http_get,
  pools_named, AgentPool,
}
use azdo_kube_operator.Devops.{
  client_of, caller_of, request_of, new_request, bad_status, read_all, first_pool, remember,
  read_pool_id, fresh, fetch_pool_id, get_pool_id_by_name, decimal, reached, read_queue_id,
  get_queue_id_from_name, do_request_with_backoff, send, try_once, after_reply,
}

-- Both succeed with the same ID, or neither succeeds.
pub data Alike : Result Arg → Result ℤ → Type 0 where
  found : {id : ℤ} → Alike (ok (decimal id)) (ok id)
  refused : {e f : Error} → Alike (err e) (err f)

module _ (env : Env) (org_url project pat name : String) where
  unfoldable pub request : Request
  unfolding request_of caller_of
  request = request_of (caller_of org_url project pat) http_get (pools_named name) none

  alike_pools :
      (none_counted : Bool) (pools : List AgentPool) (s t : State)
      → Alike
          ((first_pool name none_counted pools >>= λ id. pure (decimal id)) s).0
          ((first_pool name none_counted pools >>= λ id. remember env name id >> pure id) t).0
  unfolding first_pool remember
  alike_pools b [] s t = refused
  alike_pools true (p ∷ ps) s t = refused
  alike_pools false (p ∷ ps) s t = found

  alike_bodies :
      (resp : Response) (text : String) (s t : State)
      → env.read_all t.log resp.body ≡ some text
      → env.decode_pools s.log resp.body ≡ env.unmarshal_pools text
      → Alike (read_queue_id env name resp s).0 (read_pool_id env name resp t).0
  unfolding read_queue_id read_pool_id bad_status read_all
  alike_bodies resp text s t body same = elim (Bool-cases (resp.status == 200)) [
    | inr e ↦ rw (body, e) refused
    | inl e ↦ elim (Option-cases (env.unmarshal_pools text)) [
      | inl u ↦ rw (body, e, same, u) refused
      | inr (answer, u) ↦
          rw (body, e, same, u) (alike_pools (eqb_ℤ answer.count (pos 0)) answer.value _ _)
    ]
  ]

  -- Where the token has no space around it, the client's cache has no entry for the name, the rate
  -- limiter passes, both requests get the same response, not a 429, and its body can be read and is
  -- decoded alike from the stream and from the text, `GetQueueIdFromName` and a client's lookup of the
  -- pool find the same ID, or both fail.
  pub lookups_agree :
      (s : State) (resp : Response) (text : String)
      → trim_space pat ≡ pat
      → lookup name s.pool_id_cache ≡ none
      → env.limiter s.log ≡ none
      → env.http s.log request ≡ response resp
      → env.http (Call.limiter ∷ s.log) request ≡ response resp
      → (resp.status == 429) ≡ false
      → env.read_all (Call.http request ∷ Call.limiter ∷ s.log) resp.body ≡ some text
      → env.decode_pools (Call.http request ∷ s.log) resp.body ≡ env.unmarshal_pools text
      → Alike
          (get_queue_id_from_name env org_url project pat name s).0
          (get_pool_id_by_name env (client_of pat org_url project) name s).0
  unfolding request get_queue_id_from_name caller_of client_of get_pool_id_by_name fresh
      fetch_pool_id new_request request_of do_request_with_backoff send try_once after_reply reached
  lookups_agree s resp text trimmed empty free here there enough body same =
      elim (Bool-cases
        (env.url_parses (caller_of org_url project pat).org_url (pools_named name))) [
          | inr e ↦ rw (empty, trimmed, e) refused
          | inl e ↦
              rw (empty, trimmed, e, free, here, there, enough)
                (alike_bodies resp text _ _ body same)
        ]
