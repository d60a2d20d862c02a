-- ===== src/Controller/Cleanup.antt =====
-- `deleteExternalAzDOResources`. Its counters `success` and `failed` are never raised, so the test
-- `failed > 0` behind the loop does not pass.
use azdo_kube_operator.Base.{⊤, String, List, [], ◌∷◌, ℤ, concat, has_prefix}
use azdo_kube_operator.Kube.{AzureDevOps}
use azdo_kube_operator.World.{Env, Action, pure, when, wrapped, ◌>>=◌, ◌>>◌, Agent}
use azdo_kube_operator.Devops.{
  AzureDevOpsClient, get_pool_id_by_name, get_agents_in_pool, disable_agent, delete_agent,
}

module _ (env : Env) (client : AzureDevOpsClient) where
  -- Disabled first, if it is enabled.
  unfoldable pub remove_agent : ℤ → Agent → Action ⊤
  unfolding disable_agent delete_agent
  remove_agent pool agent = do
    when agent.enabled (disable_agent env client pool agent.id)
    delete_agent env client pool agent.id

  unfoldable pub remove_matching : String → ℤ → List Agent → Action ⊤
  unfolding has_prefix remove_agent
  remove_matching prefix pool [] = pure tt
  remove_matching prefix pool (agent ∷ rest) =
      when (has_prefix agent.name prefix) (remove_agent pool agent)
      >> remove_matching prefix pool rest

  unfoldable pub delete_external_resources : AzureDevOps → Action ⊤
  unfolding get_pool_id_by_name get_agents_in_pool concat remove_matching
  delete_external_resources cr = do
    pool ← wrapped "failed to get pool ID" (get_pool_id_by_name env client cr.spec.pool_name)
    agents ← wrapped "failed to get agents in pool" (get_agents_in_pool env client pool)
    remove_matching (concat cr.meta.name "-") pool agents
