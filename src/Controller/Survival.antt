-- ===== src/Controller/Survival.antt =====
-- The inner steps of a reconciliation do not panic.
use azdo_kube_operator.Base.{String, Bool, true, false, List, [], ◌∷◌, ℤ}
use azdo_kube_operator.Kube.{AzureDevOps, Reply, reply, fail, Pod, Secret, OwnerReference}
use azdo_kube_operator.World.{Env, Agent}
use azdo_kube_operator.World.Survival.{Survives, Survives-pure, Survives-if, survival_rules}
use azdo_kube_operator.Devops.{AzureDevOpsClient, new_client}
use azdo_kube_operator.Devops.Survival.{
  get_pool_id_by_name-Survives, get_queue_length-Survives, get_agents_in_pool-Survives,
  disable_agent-Survives, delete_agent-Survives,
}
use azdo_kube_operator.Kubernetes.{get_secret}
use azdo_kube_operator.Kubernetes.Survival.{
  validate_secrets-Survives, reconcile_deployment-Survives,
}
use azdo_kube_operator.Usecase.{handle, scale, stamp_scaling}
use azdo_kube_operator.Controller.{
  get_pat_token, from_own, from_default, handle_pod_event, retire_by_owner, retire_agents_of,
  retire_matching, retire_agent, remove_matching, remove_agent, delete_external_resources,
  is_ending,
}

from_default-Survives : (name : String) (r : Reply Secret) → Survives (from_default name r)
unfolding from_default
from_default-Survives name (reply s) = search survival_rules
from_default-Survives name (fail e) = search survival_rules

module _ (env : Env) where
  pub get_pat_token-Survives :
      (name namespace : String) → Survives (get_pat_token env name namespace)
  unfolding get_pat_token get_secret from_own
  get_pat_token-Survives name namespace = search (survival_rules, from_default-Survives) depth 10

  stamp_scaling-Survives : (b : Bool) (cr : AzureDevOps) → Survives (stamp_scaling env b cr)
  unfolding stamp_scaling
  stamp_scaling-Survives true cr = search survival_rules
  stamp_scaling-Survives false cr = search survival_rules

  pub handle-Survives :
      (client : AzureDevOpsClient) (cr : AzureDevOps) → Survives (handle env client cr)
  unfolding handle scale
  handle-Survives client cr =
      search
        (
          survival_rules, validate_secrets-Survives, get_queue_length-Survives,
          stamp_scaling-Survives, reconcile_deployment-Survives,
        )
        depth 14

  module _ (client : AzureDevOpsClient) where
    remove_agent-Survives : (pool : ℤ) (a : Agent) → Survives (remove_agent env client pool a)
    unfolding remove_agent
    remove_agent-Survives pool a =
        search (survival_rules, disable_agent-Survives, delete_agent-Survives)

    remove_matching-Survives :
        (prefix : String) (pool : ℤ) (agents : List Agent)
        → Survives (remove_matching env client prefix pool agents)
    unfolding remove_matching
    remove_matching-Survives prefix pool [] = Survives-pure tt
    remove_matching-Survives prefix pool (a ∷ rest) =
        let below = remove_matching-Survives prefix pool rest in
        search (survival_rules, remove_agent-Survives)

    pub delete_external_resources-Survives :
        (cr : AzureDevOps) → Survives (delete_external_resources env client cr)
    unfolding delete_external_resources
    delete_external_resources-Survives cr =
        search
          (
            survival_rules, get_pool_id_by_name-Survives, get_agents_in_pool-Survives,
            remove_matching-Survives,
          )
          depth 10

    retire_agent-Survives : (pool : ℤ) (a : Agent) → Survives (retire_agent env client pool a)
    unfolding retire_agent
    retire_agent-Survives pool a =
        search (survival_rules, disable_agent-Survives, delete_agent-Survives) depth 8

    retire_matching-Survives :
        (prefix : String) (pool : ℤ) (agents : List Agent)
        → Survives (retire_matching env client prefix pool agents)
    unfolding retire_matching
    retire_matching-Survives prefix pool [] = Survives-pure tt
    retire_matching-Survives prefix pool (a ∷ rest) =
        let below = retire_matching-Survives prefix pool rest in
        search (survival_rules, retire_agent-Survives)

  module _ (pod : Pod) where
    retire_agents_of-Survives : (o : OwnerReference) → Survives (retire_agents_of env pod o)
    unfolding retire_agents_of new_client
    retire_agents_of-Survives o =
        search
          (
            survival_rules, get_pat_token-Survives, get_pool_id_by_name-Survives,
            get_agents_in_pool-Survives, retire_matching-Survives,
          )
          depth 14

    retire_by_owner-Survives :
        (owners : List OwnerReference) → Survives (retire_by_owner env pod owners)
    unfolding retire_by_owner
    retire_by_owner-Survives [] = Survives-pure tt
    retire_by_owner-Survives (o ∷ rest) =
        Survives-if _ _ _ (retire_agents_of-Survives o) (retire_by_owner-Survives rest)

    pub handle_pod_event-Survives : Survives (handle_pod_event env pod)
    unfolding handle_pod_event
    handle_pod_event-Survives =
        Survives-if (is_ending env pod) _ _ (retire_by_owner-Survives pod.meta.owner_references)
          (Survives-pure tt)
