-- ===== src/Tests/SettledTests.antt =====
-- A use case that succeeds, a cleanup that does, and a resource that is being deleted.
use mathlib.Core.List.{Memᴰ}
use azdo_kube_operator.Base.{
  ℕ, ℤ, pos, some, true, List, Option, ◌≡◌, ◌⊎◌, refl, has_prefix, concat,
}
use azdo_kube_operator.Kube.{AzureDevOps}
use azdo_kube_operator.World.{Env, State, Agent, ok}
use azdo_kube_operator.Devops.{get_queue_length, get_pool_id_by_name, get_agents_in_pool}
use azdo_kube_operator.Devops.Deletions.{Confirmed}
use azdo_kube_operator.Usecase.{after, handle, scaled, replica_bounds}
use azdo_kube_operator.Kubernetes.{needs_update}
use azdo_kube_operator.Kubernetes.Cluster.{deployments, Owns}
use azdo_kube_operator.Usecase.Settled.{Finished, handle_settles}
use azdo_kube_operator.Controller.{delete_external_resources, reconcile}
use azdo_kube_operator.Controller.Cleanups.{delete_external_resources_complete}
use azdo_kube_operator.Controller.Life.{held, phase}
use azdo_kube_operator.Controller.Histories.{
  History, over, changed, reconciled, deletes, IsGuarded, Released, finalizer_protects,
}
use azdo_kube_operator.Tests.Fixture.{
  sample, sample_env, sample_key, sample_client, start, all_agents, equality-IsReflexive,
}
use azdo_kube_operator.Tests.RefinementTests.{at_first, cluster, cluster-Serves}
use azdo_kube_operator.Tests.LifeTests.{answering, answering-Keeps}

cluster-Owns : Owns cluster
cluster-Owns = record { owned = λ cr m. m; sets = λ cr m. refl; keeps = λ cr m. refl }

abbrev scaled_sample : AzureDevOps
scaled_sample =
    let status = sample.status in
    record sample {
      status = record status {
        queued_jobs = pos 2;
        desired_agents = pos 1;
        last_scaling_time = some 1_010;
      };
    }

handle_settles_example :
    (q : ℕ) × ((t : State) × ((get_queue_length cluster sample_client "linux" t).0 ≡ ok q))
    × Finished cluster at_first cluster-Serves equality-IsReflexive cluster-Owns sample q
        (after (pos 30_000_000_000))
        scaled_sample
        (handle cluster sample_client sample start).1.log
unfolding handle scaled replica_bounds deployments needs_update
handle_settles_example =
    handle_settles cluster at_first cluster-Serves equality-IsReflexive cluster-Owns sample_client
      sample scaled_sample start (after (pos 30_000_000_000)) refl refl

-- Bodies can be decoded after they were closed.
abbrev lenient : Env
lenient = record sample_env { decode_agents = λ l b. some all_agents }

delete_external_resources_complete_example :
    (pool : ℤ) × (agents : List Agent) × ((t : State) × ((get_pool_id_by_name lenient sample_client
          "linux" t).0
        ≡ ok pool))
    × ((t : State) × ((get_agents_in_pool lenient sample_client pool t).0 ≡ ok agents))
    × ((agent : Agent)
        → Memᴰ agent agents
        → has_prefix agent.name (concat "agents" "-") ≡ true
        → Confirmed lenient sample_client pool agent.id)
unfolding delete_external_resources
delete_external_resources_complete_example =
    delete_external_resources_complete lenient sample_client sample start refl

abbrev dying : AzureDevOps
dying =
    let meta = sample.meta in record sample { meta = record meta { deletion_timestamp = some 5 } }

abbrev last : Option AzureDevOps
last =
    let env = answering dying in
    held env sample_key (some dying) (reconcile env sample_key start).1.log

-- The user asks for the deletion of the resource, which is then reconciled.
story : History (answering dying) sample_key (some sample) last
unfolding held
story =
    changed (deletes {t = 5} refl refl refl)
      (reconciled (answering dying) (some dying) (answering-Keeps dying refl) start refl over)

finalizer_protects_example : IsGuarded (phase (answering dying) sample_key last) ⊎ Released story
unfolding phase
finalizer_protects_example = finalizer_protects (answering dying) sample_key story tt
