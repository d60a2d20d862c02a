-- ===== src/Devops/Deletions.antt =====
-- What a deletion that succeeds says of the server.
use azdo_kube_operator.Base.{
  ◌≡◌, ap, sym, ◌∙◌, ◌⊎◌, inl, inr, Bool-cases, String, Option, none, ℤ, arith,
}
use azdo_kube_operator.World.{
  Env, State, Log, Request, Response, response, Action, ok, http_delete, agent_of, wrapped, ◌>>=◌,
  ◌>>◌,
}
use azdo_kube_operator.World.Inversion.{bind-eq-ok, wrapped-eq-ok}
use azdo_kube_operator.Devops.{
  AzureDevOpsClient, request_of, new_request, do_request_with_backoff, read_all, close, deleted,
  delete_agent,
}
use azdo_kube_operator.Devops.Answers.{do_request_with_backoff_answer}

deleted-ok :
    (resp : Response) (body : Option String) (s : State)
    → (deleted resp body s).0 ≡ ok tt
    → (resp.status ≡ 200) ⊎ (resp.status ≡ 204)
unfolding deleted
deleted-ok resp body s h = ground arith

module _ (env : Env) (client : AzureDevOpsClient) (pool agent : ℤ) where
  pub deletion : Request
  deletion = request_of client http_delete (agent_of pool agent) none

  -- The server answered the deletion of the agent with 200 or 204.
  pub Confirmed : Type 0
  Confirmed =
      (l : Log) × (resp : Response) × (env.http l deletion ≡ response resp)
      × ((resp.status ≡ 200) ⊎ (resp.status ≡ 204))

  judge : Response → Action Unit
  judge resp = do body ← read_all env resp.body; close resp.body; deleted resp body

  judge-ok :
      (resp : Response) (s : State)
      → (judge resp s).0 ≡ ok tt
      → (resp.status ≡ 200) ⊎ (resp.status ≡ 204)
  unfolding judge read_all close
  judge-ok resp s h = deleted-ok resp _ _ h

  sent-ok :
      (s : State)
      → ((wrapped "failed to execute request" (do_request_with_backoff env deletion) >>= judge) s).0
        ≡ ok tt
      → Confirmed
  unfolding Confirmed
  sent-ok s h =
      let m = wrapped "failed to execute request" (do_request_with_backoff env deletion) in
      let (resp, got, e) = bind-eq-ok m judge s h in
      let (given, limited) =
        do_request_with_backoff_answer env deletion s resp (
          wrapped-eq-ok "failed to execute request" (do_request_with_backoff env deletion) s got) in
      (given.0, resp, given.1, judge-ok resp (m s).1 (ap (λ x. x.0) (sym e) ∙ h))

  -- An agent whose deletion succeeds was deleted by the server, which answered with 200 or 204.
  pub delete_agent_confirmed :
      (s : State) → (delete_agent env client pool agent s).0 ≡ ok tt → Confirmed
  unfolding delete_agent new_request judge deletion
  delete_agent_confirmed s h =
      elim (Bool-cases (env.url_parses client.org_url (agent_of pool agent))) [
        | inl e ↦ sent-ok s (rw e at h)
        | inr e ↦ ground arith
      ]
