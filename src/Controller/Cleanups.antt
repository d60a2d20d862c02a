-- ===== src/Controller/Cleanups.antt =====
-- What a cleanup that succeeds has done.
use mathlib.Core.List.{Memᴰ}
use azdo_kube_operator.Base.{◌≡◌, ap, sym, ◌∙◌, true, List, ℤ, concat, has_prefix}
use azdo_kube_operator.Kube.{AzureDevOps}
use azdo_kube_operator.World.{Env, State, Agent, ok, wrapped, ◌>>=◌}
use azdo_kube_operator.World.Inversion.{bind-eq-ok, wrapped-eq-ok}
use azdo_kube_operator.Devops.{AzureDevOpsClient, get_pool_id_by_name, get_agents_in_pool}
use azdo_kube_operator.Devops.Deletions.{Confirmed}
use azdo_kube_operator.Controller.{delete_external_resources, remove_matching}
use azdo_kube_operator.Controller.Removals.{remove_matching_complete}

module _ (env : Env) (client : AzureDevOpsClient) (cr : AzureDevOps) where
  -- A cleanup that succeeds has found the pool and listed its agents, and the server has confirmed the
  -- deletion of each agent of the list whose name begins with the resource's name and a dash.
  pub delete_external_resources_complete :
      (s : State)
      → (delete_external_resources env client cr s).0 ≡ ok tt
      → (pool : ℤ) × (agents : List Agent) × ((t : State) × ((get_pool_id_by_name env client
              cr.spec.pool_name t).0
            ≡ ok pool))
        × ((t : State) × ((get_agents_in_pool env client pool t).0 ≡ ok agents))
        × ((agent : Agent)
            → Memᴰ agent agents
            → has_prefix agent.name (concat cr.meta.name "-") ≡ true
            → Confirmed env client pool agent.id)
  unfolding delete_external_resources
  delete_external_resources_complete s h =
      let first =
        wrapped "failed to get pool ID" (get_pool_id_by_name env client cr.spec.pool_name) in
      let second =
        λ (pool : ℤ). wrapped "failed to get agents in pool" (get_agents_in_pool env client pool) in
      let prefix = concat cr.meta.name "-" in
      let (pool, got, e) =
        bind-eq-ok first (λ pool. second pool >>= remove_matching env client prefix pool) s h in
      let s' = (first s).1 in
      let (agents, listed, f) =
        bind-eq-ok (second pool) (remove_matching env client prefix pool) s'
          (ap (λ x. x.0) (sym e) ∙ h) in
      let s'' = (second pool s').1 in
      (
        pool,
        agents,
        (
          s,
          wrapped-eq-ok "failed to get pool ID" (get_pool_id_by_name env client cr.spec.pool_name) s
              got,
        ),
        (
          s',
          wrapped-eq-ok "failed to get agents in pool" (get_agents_in_pool env client pool) s'
              listed,
        ),
        λ agent member fits.
            remove_matching_complete env client prefix pool agents agent s'' member fits
              (ap (λ x. x.0) (sym f) ∙ ap (λ x. x.0) (sym e) ∙ h),
      )
