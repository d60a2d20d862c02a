-- ===== src/Devops/Agents.antt =====
-- `GetAgentsInPool`, `DisableAgent`, `DeleteAgent`.
use azdo_kube_operator.Base.{
  ⊤, false, not, ◌&&◌, ◌||◌, String, Option, none, some, List, [], ◌∷◌, ℤ, pos, leb_ℤ, ◌==◌,
  if◌then◌else◌, contains,
}
use azdo_kube_operator.Kube.{Error, wrap, fault, library_error, number}
use azdo_kube_operator.World.{
  Env, Action, pure, raise, or_raise, raise_if, wrapped, ◌>>=◌, ◌>>◌, Call, call, Request, Response,
  HttpReply, response, transport_failure, http_get, http_patch, http_delete, agents_in, agent_of,
  Agent,
}
use azdo_kube_operator.Devops.Client.{
  AzureDevOpsClient, new_request, read_all, close, unexpected_status, bad_status,
}
use azdo_kube_operator.Devops.Backoff.{do_request_with_backoff}
use azdo_kube_operator.Devops.Queue.{unparsed}

abbrev pub answered : HttpReply → Action Response
answered (response resp) = pure resp
answered (transport_failure e) = raise (wrap "failed to execute request" (library_error e))

-- A body that could not be read is an empty text.
abbrev or_empty : Option String → String
or_empty none = ""
or_empty (some s) = s

abbrev pub still_running : Error
still_running = fault "failed to delete agent as it is still running jobs" []

-- What `DeleteAgent` makes of the answer and its body.
unfoldable pub deleted : Response → Option String → Action ⊤
unfolding contains
deleted resp body =
    if resp.status == 200 || resp.status == 204
    then pure tt
    else if resp.status == 400 && contains (or_empty body) "TaskAgentJobStillRunningException"
    then raise still_running
    else raise (unexpected_status resp body)

-- The guards of `DisableAgent`.
unfoldable pub check_ids : ℤ → ℤ → Action ⊤
check_ids pool agent = do
  raise_if (leb_ℤ agent (pos 0)) (fault "invalid agent ID: %d" (number agent ∷ []))
  raise_if (leb_ℤ pool (pos 0)) (fault "invalid pool ID: %d" (number pool ∷ []))

module _ (env : Env) where
  -- A request with no retry.
  unfoldable pub do_request : Request → Action Response
  do_request req = do answer ← call (Call.http req) (λ l. env.http l req); answered answer

  unfoldable pub read_agents : Response → Action (List Agent)
  unfolding bad_status
  read_agents resp = if not (resp.status == 200) then bad_status env resp else do
    decoded ← call (Call.read_body resp.body) (λ l. env.decode_agents l resp.body)
    or_raise decoded unparsed

  module _ (client : AzureDevOpsClient) where
    -- The body is closed before it is decoded, as in the source.
    unfoldable pub get_agents_in_pool : ℤ → Action (List Agent)
    unfolding new_request do_request close read_agents
    get_agents_in_pool pool = do
      req ← new_request env client http_get (agents_in pool) none
      resp ← do_request req
      close resp.body
      read_agents resp

    unfoldable pub disable_agent : ℤ → ℤ → Action ⊤
    unfolding check_ids new_request do_request close bad_status
    disable_agent pool agent = do
      check_ids pool agent
      req ←
          new_request env client http_patch (agent_of pool agent)
            (some (record { id = agent; enabled = false }))
      resp ← do_request req
      close resp.body
      if resp.status == 200 then pure tt else bad_status env resp

    unfoldable pub delete_agent : ℤ → ℤ → Action ⊤
    unfolding new_request do_request_with_backoff close read_all deleted
    delete_agent pool agent = do
      req ← new_request env client http_delete (agent_of pool agent) none
      resp ← wrapped "failed to execute request" (do_request_with_backoff env req)
      body ← read_all env resp.body
      close resp.body
      deleted resp body
