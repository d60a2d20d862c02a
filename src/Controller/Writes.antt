-- ===== src/Controller/Writes.antt =====
-- Which parts of `Reconcile` do not write the resource, other than its status.
use azdo_kube_operator.Base.{ℤ, refl, String, List, [], ◌∷◌}
use azdo_kube_operator.Kube.{AzureDevOps, NamespacedName, Pod, OwnerReference}
use azdo_kube_operator.World.{Env, Call, Agent, Request}
use azdo_kube_operator.Devops.Effects.{Uses}
use azdo_kube_operator.World.Footprint.{Adds, Adds-pure, Adds-if, Adds-weaken, adds_rules}
use azdo_kube_operator.Devops.{
  AzureDevOpsClient, new_client, get_pool_id_by_name, get_agents_in_pool,
}
use azdo_kube_operator.Devops.Requests.{get_pool_id_by_name-Reads, get_agents_in_pool-Reads}
use azdo_kube_operator.Controller.{
  process, get_pat_token, retire_matching, retire_agents_of, retire_by_owner, handle_pod_event,
  is_ending,
}
use azdo_kube_operator.Controller.Gentle.{Allowed, process-Allowed}
use azdo_kube_operator.Controller.Removals.{retire_matching-Targets}
use azdo_kube_operator.Controller.Tokens.{Looks, get_pat_token_reads}
use azdo_kube_operator.Controller.Finalizers.{Unwritten, Uses-Unwritten, Looks-Unwritten}

Allowed-Unwritten : (c : Call) → Allowed c → Unwritten c
Allowed-Unwritten (Call.update_resource cr) h = cc
Allowed-Unwritten (Call.get_pod k) h = refl
Allowed-Unwritten _ h = refl

module _ (env : Env) where
  pub process-Unwritten :
      (key : NamespacedName) (cr : AzureDevOps) → Adds Unwritten (process env key cr)
  process-Unwritten key cr = Adds-weaken Allowed-Unwritten _ (process-Allowed env key cr)

-- The handler of a pod's end makes no calls but those of the client and reads of secrets
-- and of the resource.
module _ (env : Env) {P : Call → Type 0} (uses : (Q : Request → Type 0) (c : Call) → Uses Q c → P c)
    (looks : (c : Call) → Looks c → P c)
    (gets : (k : NamespacedName) → P (Call.get_resource k)) where
  get_pat_token-Adds : (name namespace : String) → Adds P (get_pat_token env name namespace)
  get_pat_token-Adds name namespace = Adds-weaken looks _ (get_pat_token_reads env name namespace)

  module _ (client : AzureDevOpsClient) where
    pool_id-Adds : (name : String) → Adds P (get_pool_id_by_name env client name)
    pool_id-Adds name = Adds-weaken (uses _) _ (get_pool_id_by_name-Reads env client name)

    agents-Adds : (pool : ℤ) → Adds P (get_agents_in_pool env client pool)
    agents-Adds pool = Adds-weaken (uses _) _ (get_agents_in_pool-Reads env client pool)

    retire_matching-Adds :
        (prefix : String) (pool : ℤ) (agents : List Agent)
        → Adds P (retire_matching env client prefix pool agents)
    retire_matching-Adds prefix pool agents =
        Adds-weaken (uses _) _ (retire_matching-Targets env client prefix pool agents)

  module _ (pod : Pod) where
    retire_agents_of-Adds : (o : OwnerReference) → Adds P (retire_agents_of env pod o)
    unfolding retire_agents_of new_client
    retire_agents_of-Adds o =
        search (adds_rules, get_pat_token-Adds, pool_id-Adds, agents-Adds, retire_matching-Adds)
          depth 12

    retire_by_owner-Adds : (owners : List OwnerReference) → Adds P (retire_by_owner env pod owners)
    unfolding retire_by_owner
    retire_by_owner-Adds [] = Adds-pure tt
    retire_by_owner-Adds (o ∷ rest) =
        Adds-if _ _ _ (retire_agents_of-Adds o) (retire_by_owner-Adds rest)

    pub handle_pod_event-Adds : Adds P (handle_pod_event env pod)
    unfolding handle_pod_event
    handle_pod_event-Adds =
        Adds-if (is_ending env pod) _ _ (retire_by_owner-Adds pod.meta.owner_references)
          (Adds-pure tt)

pub handle_pod_event-Unwritten : (env : Env) (pod : Pod) → Adds Unwritten (handle_pod_event env pod)
handle_pod_event-Unwritten env pod =
    handle_pod_event-Adds env (λ Q. Uses-Unwritten) Looks-Unwritten (λ k. refl) pod
