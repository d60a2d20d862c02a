-- ===== src/Controller/Costs.antt =====
-- How many requests the cleanup sends at most.
use azdo_kube_operator.Base.{
  ℕ, ◌+◌, ◌*◌, ◌≤◌, arith, Bool, true, false, String, List, [], ◌∷◌, ℤ, count_if, has_prefix,
  if◌then◌else◌,
}
use azdo_kube_operator.World.{Env, State, Agent, when}
use azdo_kube_operator.Devops.{AzureDevOpsClient}
use azdo_kube_operator.Devops.Retries.{requests}
use azdo_kube_operator.Devops.Costs.{
  Costs, Costs-pure, Costs-when, Costs-bind, Costs-weaken, disable_agent-Costs, delete_agent-Costs,
}
use azdo_kube_operator.Controller.{remove_agent, remove_matching}

module _ (env : Env) (client : AzureDevOpsClient) (prefix : String) (pool : ℤ) where
  remove_agent-Costs : (a : Agent) → Costs 4 (remove_agent env client pool a)
  unfolding remove_agent
  remove_agent-Costs a =
      Costs-bind 1 3 _ _ (Costs-when 1 a.enabled _ (disable_agent-Costs env client pool a.id))
        (λ u. delete_agent-Costs env client pool a.id)

  abbrev matches : Agent → Bool
  matches a = has_prefix a.name prefix

  turn :
      (b : Bool) (a : Agent) → Costs (if b then 4 else 0) (when b (remove_agent env client pool a))
  turn true a = remove_agent-Costs a
  turn false a = Costs-pure tt

  abbrev budget : List Agent → ℕ
  budget agents = 4 * count_if matches agents

  remove_matching-Costs :
      (agents : List Agent) → Costs (budget agents) (remove_matching env client prefix pool agents)
  unfolding remove_matching
  remove_matching-Costs [] = Costs-weaken _ (omega arith) (Costs-pure tt)
  remove_matching-Costs (a ∷ rest) = Costs-weaken _ (ground arith) (
      Costs-bind _ _ (when (matches a) (remove_agent env client pool a)) _ (turn (matches a) a)
        (λ u. remove_matching-Costs rest))

  -- A cleanup sends at most four requests for each agent of the list whose name has the prefix: one
  -- to disable it, and three tries to delete it.
  pub remove_matching_cost :
      (agents : List Agent) (s : State)
      → requests (remove_matching env client prefix pool agents s).1.log
        ≤ requests s.log + 4 * count_if (λ (a : Agent). has_prefix a.name prefix) agents
  remove_matching_cost agents s = (remove_matching-Costs agents).at s
