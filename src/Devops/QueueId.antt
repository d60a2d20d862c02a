-- ===== src/Devops/QueueId.antt =====
-- `GetQueueIdFromName`: the pool's ID as a text, without a client, a cache or a retry. Nothing in the
-- repository calls it.
use azdo_kube_operator.Base.{
  not, String, none, ℤ, pos, eqb_ℤ, ◌==◌, if◌then◌else◌, trim_right_slash, [],
}
use azdo_kube_operator.Kube.{Arg, number, Error, wrap, fault, library_error}
use azdo_kube_operator.World.{
  Env, Action, pure, raise, or_raise, peek, finally, ◌>>=◌, Call, call, Response, HttpReply,
  response, transport_failure, http_get, pools_named,
}
use azdo_kube_operator.Devops.Client.{AzureDevOpsClient, new_request, close, bad_status}
use azdo_kube_operator.Devops.Backoff.{is_canceled}
use azdo_kube_operator.Devops.Queue.{first_pool}

-- What is put into the URL and the header: the token as it is given.
unfoldable pub caller_of : String → String → String → AzureDevOpsClient
unfolding trim_right_slash
caller_of org_url project pat = record {
  pat_token = pat;
  org_url = trim_right_slash org_url;
  project = project;
}

-- `fmt.Sprintf("%d", id)`, by its argument.
abbrev pub decimal : ℤ → Arg
decimal id = number id

abbrev unparsed_stream : Error
unparsed_stream = wrap "failed to parse JSON response" (library_error "json")

module _ (env : Env) where
  unfoldable pub reached : HttpReply → Action Response
  reached (response resp) = pure resp
  reached (transport_failure e) = do
    context ← peek env.context
    if is_canceled context
        then raise (fault "request canceled while getting pool ID" [])
        else raise (wrap "failed to execute request" (library_error e))

  unfoldable pub read_queue_id : String → Response → Action Arg
  unfolding bad_status first_pool
  read_queue_id pool resp = if not (resp.status == 200) then bad_status env resp else do
    decoded ← call (Call.read_body resp.body) (λ l. env.decode_pools l resp.body)
    answer ← or_raise decoded unparsed_stream
    id ← first_pool pool (eqb_ℤ answer.count (pos 0)) answer.value
    pure (decimal id)

  unfoldable pub get_queue_id_from_name : String → String → String → String → Action Arg
  unfolding caller_of new_request reached read_queue_id close
  get_queue_id_from_name org_url project pat pool = do
    req ← new_request env (caller_of org_url project pat) http_get (pools_named pool) none
    answer ← call (Call.http req) (λ l. env.http l req)
    resp ← reached answer
    finally (close resp.body) (read_queue_id pool resp)
