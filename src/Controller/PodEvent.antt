-- ===== src/Controller/PodEvent.antt =====
-- `handlePodEvent`.
use azdo_kube_operator.Base.{
  ⊤, Bool, true, false, String, Option, none, some, List, [], ◌∷◌, ℤ, str_eq, before_last_dash,
  has_prefix, if◌then◌else◌,
}
use azdo_kube_operator.Kube.{
  named, OwnerReference, Pod, PodPhase, pod_succeeded, pod_failed, pod_pending, pod_running,
  pod_unknown, wrap_of, number,
}
use azdo_kube_operator.World.{
  Env, Action, pure, raise, lift, branch, when, ◌>>=◌, ◌>>◌, Call, call, Agent,
}
use azdo_kube_operator.Devops.{
  AzureDevOpsClient, new_client, get_pool_id_by_name, get_agents_in_pool, disable_agent,
  delete_agent,
}
use azdo_kube_operator.Controller.Token.{get_pat_token}

abbrev pub unless_empty : Option String → Option String
unless_empty none = none
unless_empty (some t) = if str_eq t "" then none else some t

-- `s[:i]` for the last dash at `i > 0`, where there is one.
unfoldable pub strip_segment : String → Option String
unfolding before_last_dash
strip_segment s = unless_empty (before_last_dash s)

abbrev pub or_whole : Option String → String → String
or_whole none s = s
or_whole (some t) s = t

abbrev pub strip_again : Option String → String → String
unfolding strip_segment
strip_again none s = s
strip_again (some t) s = or_whole (strip_segment t) t

unfoldable pub pod_name_without_hash : String → String
unfolding strip_segment
pod_name_without_hash name = strip_again (strip_segment name) name

abbrev pub is_over : PodPhase → Bool
is_over pod_failed = true
is_over pod_succeeded = true
is_over pod_pending = false
is_over pod_running = false
is_over pod_unknown = false

module _ (env : Env) (client : AzureDevOpsClient) where
  -- As in the cleanup of a resource, with the agent named in the error.
  unfoldable pub retire_agent : ℤ → Agent → Action ⊤
  unfolding disable_agent delete_agent
  retire_agent pool agent = do
    when agent.enabled (
        branch (disable_agent env client pool agent.id) pure
          (λ e. raise (wrap_of "failed to disable agent %d" (number agent.id ∷ []) e)))
    branch (delete_agent env client pool agent.id) pure
        (λ e. raise (wrap_of "failed to delete agent %d" (number agent.id ∷ []) e))

  unfoldable pub retire_matching : String → ℤ → List Agent → Action ⊤
  unfolding has_prefix retire_agent
  retire_matching prefix pool [] = pure tt
  retire_matching prefix pool (agent ∷ rest) =
      when (has_prefix agent.name prefix) (retire_agent pool agent)
      >> retire_matching prefix pool rest

module _ (env : Env) (pod : Pod) where
  unfoldable pub retire_agents_of : OwnerReference → Action ⊤
  unfolding get_pat_token new_client get_pool_id_by_name get_agents_in_pool pod_name_without_hash
      retire_matching
  retire_agents_of owner = do
    let key = named owner.name pod.meta.namespace
    found ← call (Call.get_resource key) (λ l. env.get_resource l key)
    cr ← lift found
    pat ← get_pat_token env cr.spec.pat_secret_ref cr.meta.namespace
    client ← new_client pat cr.spec.org_url cr.spec.project
    pool ← get_pool_id_by_name env client cr.spec.pool_name
    agents ← get_agents_in_pool env client pool
    retire_matching env client (pod_name_without_hash pod.meta.name) pool agents

  -- The first owner of the kind is the one.
  unfoldable pub retire_by_owner : List OwnerReference → Action ⊤
  unfolding retire_agents_of
  retire_by_owner [] = pure tt
  retire_by_owner (owner ∷ rest) =
      let others = retire_by_owner rest in
      if str_eq owner.kind "AzureDevOps" then retire_agents_of owner else others

  unfoldable pub is_ending : Bool
  is_ending = elim (pod.meta.deletion_timestamp) [ some t ↦ true | none ↦ is_over pod.phase ]

  unfoldable pub handle_pod_event : Action ⊤
  unfolding retire_by_owner is_ending
  handle_pod_event = if is_ending then retire_by_owner pod.meta.owner_references else pure tt
