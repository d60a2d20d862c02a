-- ===== src/Controller/Finalizers.antt =====
-- The deletion of a resource: when its finalizer may go.
use mathlib.Core.List.{Memᴰ}
use mathlib.Core.List.Memᴰ.{head}
use azdo_kube_operator.Base.{
  ℕ, ◌≡◌, ◌≢◌, refl, sym, ap, ◌∙◌, ⊤, Bool, true, false, Bool-cases, inl, inr, String, none, List,
  [], ◌∷◌, ℤ, count_if, concat, ◌==◌,
}
use azdo_kube_operator.Kube.{AzureDevOps, NamespacedName, Error}
use azdo_kube_operator.World.{
  Env, State, Call, Log, Action, Result, ok, err, panic, resume, ◌>>=◌, ◌>>◌, Agent, Request,
  HttpReply, response, transport_failure, agents_in, http_get, wrapped,
}
use azdo_kube_operator.World.Inversion.{bind-eq-ok, wrapped-eq-ok}
use azdo_kube_operator.World.Footprint.{
  Adds, Extends, Extends-trans, Adds-pure, Adds-if, Adds-bind, Adds-branch, Adds-weaken,
  Adds-wrapped, count_if-Extends,
}
use azdo_kube_operator.Devops.{
  AzureDevOpsClient, finalizer_name, client_of, request_of, new_client, new_request, do_request,
  answered, close, read_agents, get_agents_in_pool, bad_status, read_all, get_pool_id_by_name,
}
use azdo_kube_operator.Devops.Effects.{Uses, asks, closes, reads, clocks, draws, limits, waits}
use azdo_kube_operator.Devops.Requests.{get_pool_id_by_name-Reads, get_agents_in_pool-Reads}
use azdo_kube_operator.Controller.{delete_external_resources, remove_matching, clean_up, finalize}
use azdo_kube_operator.Controller.Removals.{remove_matching-Targets}
use azdo_kube_operator.Controller.Tokens.{Looks, looks, get_pat_token_reads}

abbrev pub is_resource_write : Call → Bool
is_resource_write (Call.update_resource cr) = true
is_resource_write (Call.get_pod k) = false
is_resource_write _ = false

abbrev pub resource_writes : Log → ℕ
resource_writes = count_if is_resource_write

abbrev pub Unwritten : Call → Type 0
Unwritten c = is_resource_write c ≡ false

pub Uses-Unwritten : {Q : Request → Type 0} (c : Call) → Uses Q c → Unwritten c
Uses-Unwritten _ (asks q) = refl
Uses-Unwritten _ closes = refl
Uses-Unwritten _ reads = refl
Uses-Unwritten _ clocks = refl
Uses-Unwritten _ draws = refl
Uses-Unwritten _ limits = refl
Uses-Unwritten _ waits = refl

pub Looks-Unwritten : (c : Call) → Looks c → Unwritten c
Looks-Unwritten _ looks = refl

module _ {P : Call → Type 0} {A B : Type 0} where
  -- What follows a success counts only if there is one.
  resume_failed :
      (r : Result A) (f : A → Action B) (g : Error → Action B) (s : State)
      → ((a : A) → r ≢ ok a)
      → ((e : Error) → Adds P (g e))
      → Extends P s.log (resume r f g s).1.log
  resume_failed (ok a) f g s h k = absurd (h a refl)
  resume_failed (err e) f g s h k = (k e).at s
  resume_failed panic f g s h k = (Adds-pure tt).at s

-- A cleanup makes no calls but those of the client.
module _ (env : Env) (client : AzureDevOpsClient) {P : Call → Type 0}
    (uses : (Q : Request → Type 0) (c : Call) → Uses Q c → P c) where
  pub delete_external_resources-Adds :
      (cr : AzureDevOps) → Adds P (delete_external_resources env client cr)
  unfolding delete_external_resources
  delete_external_resources-Adds cr =
      Adds-bind _ _
        (Adds-wrapped _ _
          (Adds-weaken (uses _) _ (get_pool_id_by_name-Reads env client cr.spec.pool_name)))
        λ pool.
          Adds-bind _ _
            (Adds-wrapped _ _ (Adds-weaken (uses _) _ (get_agents_in_pool-Reads env client pool)))
            (λ agents. Adds-weaken (uses _) _ (remove_matching-Targets env client _ pool agents))

module _ (env : Env) (client : AzureDevOpsClient) where
  pub delete_external_resources-Unwritten :
      (cr : AzureDevOps) → Adds Unwritten (delete_external_resources env client cr)
  delete_external_resources-Unwritten cr =
      delete_external_resources-Adds env client (λ Q. Uses-Unwritten) cr

module _ (env : Env) (cr : AzureDevOps) where
  clean_up_failed :
      (pat : String) (s : State)
      → ((t : State) (u : ⊤)
          → (delete_external_resources env (client_of pat cr.spec.org_url cr.spec.project) cr t).0
            ≢ ok u)
      → Extends Unwritten s.log (clean_up env cr pat s).1.log
  unfolding clean_up new_client
  clean_up_failed pat s h =
      let client = client_of pat cr.spec.org_url cr.spec.project in
      let s0 = record s { pool_id_cache = [] } in
      Extends-trans ((delete_external_resources-Unwritten env client cr).at s0)
        (resume_failed _ _ _ _ (h s0) (λ e. Adds-pure _))

  finalize-Unwritten :
      (key : NamespacedName)
      → ((pat : String) (t : State)
          → (delete_external_resources env (client_of pat cr.spec.org_url cr.spec.project) cr t).0
            ≢ ok tt)
      → Adds Unwritten (finalize env key cr)
  unfolding finalize
  finalize-Unwritten key h =
      Adds-if (env.contains_finalizer cr.meta finalizer_name) _ _
        (Adds-branch _ _ _
          (Adds-weaken Looks-Unwritten _
            (get_pat_token_reads env cr.spec.pat_secret_ref key.namespace))
          (λ pat. record { at = λ s. clean_up_failed pat s (λ t u. h pat t) }) (λ e. Adds-pure _))
        (Adds-pure _)

  -- As long as the cleanup succeeds with no token and at no time, the resource is not written: its
  -- finalizer stays.
  pub finalize_keeps_finalizer :
      (key : NamespacedName) (s : State)
      → ((pat : String) (t : State)
          → (delete_external_resources env (client_of pat cr.spec.org_url cr.spec.project) cr t).0
            ≢ ok tt)
      → resource_writes (finalize env key cr s).1.log ≡ resource_writes s.log
  finalize_keeps_finalizer key s h =
      count_if-Extends is_resource_write ((finalize-Unwritten key h).at s)

module _ (env : Env)
    (closed : (l : Log) (b : ℕ) → Memᴰ (Call.close_body b) l → env.decode_agents l b ≡ none) where
  after_answer :
      (h : HttpReply) (s : State) (agents : List Agent)
      → ((answered h >>= λ resp. close resp.body >> read_agents env resp) s).0 ≢ ok agents
  unfolding close read_agents bad_status read_all
  after_answer (transport_failure e) s agents h = cc
  after_answer (response resp) s agents h = elim (Bool-cases (resp.status == 200)) [
    | inl e ↦
        let h' = rw (e, closed (Call.close_body resp.body ∷ s.log) resp.body (head refl)) at h in cc
    | inr e ↦ let h' = rw e at h in cc
  ]

  -- Where a body that was closed cannot be decoded any more, the agents of a pool are never listed.
  pub get_agents_in_pool_never_lists :
      (client : AzureDevOpsClient) (pool : ℤ) (s : State) (agents : List Agent)
      → (get_agents_in_pool env client pool s).0 ≢ ok agents
  unfolding get_agents_in_pool new_request do_request
  get_agents_in_pool_never_lists client pool s agents h =
      elim (Bool-cases (env.url_parses client.org_url (agents_in pool))) [
        | inl e ↦
            let req = request_of client http_get (agents_in pool) none in
            after_answer (env.http s.log req) (record s { log = Call.http req ∷ s.log }) agents
              (rw e at h)
        | inr e ↦ let h' = rw e at h in cc
      ]

  pub delete_external_resources-fails :
      (client : AzureDevOpsClient) (cr : AzureDevOps) (s : State)
      → (delete_external_resources env client cr s).0 ≢ ok tt
  unfolding delete_external_resources
  delete_external_resources-fails client cr s h =
      let first =
        wrapped "failed to get pool ID" (get_pool_id_by_name env client cr.spec.pool_name) in
      let second =
        λ (pool : ℤ). wrapped "failed to get agents in pool" (get_agents_in_pool env client pool) in
      let prefix = concat cr.meta.name "-" in
      let (pool, got, e) =
        bind-eq-ok first (λ pool. second pool >>= remove_matching env client prefix pool) s h in
      let s' = (first s).1 in
      let (agents, listed, f) =
        bind-eq-ok (second pool) (remove_matching env client prefix pool) s'
          (ap (λ x. x.0) (sym e) ∙ h) in
      get_agents_in_pool_never_lists client pool s' agents (
        wrapped-eq-ok "failed to get agents in pool" (get_agents_in_pool env client pool) s' listed)

  -- Where a body that was closed cannot be decoded any more, a resource that is being deleted never
  -- loses its finalizer.
  pub finalize_never_removes :
      (cr : AzureDevOps) (key : NamespacedName) (s : State)
      → resource_writes (finalize env key cr s).1.log ≡ resource_writes s.log
  finalize_never_removes cr key s = finalize_keeps_finalizer env cr key s (λ pat t.
      delete_external_resources-fails (client_of pat cr.spec.org_url cr.spec.project) cr t)
