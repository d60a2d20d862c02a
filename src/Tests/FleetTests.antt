-- ===== src/Tests/FleetTests.antt =====
-- Two resources that are reconciled one after the other.
use azdo_kube_operator.Base.{none, concat, ◌≡◌, refl, ap, sym, ◌∙◌, pos}
use azdo_kube_operator.Kube.{AzureDevOps, NamespacedName, named, Deployment, reply}
use azdo_kube_operator.World.{
  Env, ok, State, Endpoint, Response, response, pools_named, job_requests, agents_in, agent_of,
}
use azdo_kube_operator.Kubernetes.{
  validate_secrets, key_of, desired_deployment, workload_meta, needs_update,
}
use azdo_kube_operator.Kubernetes.Stores.{put-IsKeyed}
use azdo_kube_operator.Kubernetes.Cluster.{deployments, Serves, Owns}
use azdo_kube_operator.Usecase.{after, scaled, replica_bounds}
use azdo_kube_operator.Controller.{Outcome, deployment_key, reconcile}
use azdo_kube_operator.Controller.Progress.{reconcile_succeeds}
use azdo_kube_operator.Devops.Available.{Available}
use azdo_kube_operator.Controller.Fleet.{Met, nobody, other, reconcile_settles}
use azdo_kube_operator.Tests.Fixture.{serve, sample, sample_key, start, equality-IsReflexive}
use azdo_kube_operator.Tests.RefinementTests.{at_first, cluster, existing}

-- The API server holds a resource like the sample under each key.
abbrev sample_under : NamespacedName → AzureDevOps
sample_under key =
    let meta = sample.meta in
    record sample { meta = record meta { name = key.name; namespace = key.namespace } }

abbrev fleet : Env
fleet = record cluster { get_resource = λ l key. reply (sample_under key) }

fleet-Serves : Serves fleet at_first
fleet-Serves = record {
  keyed = put-IsKeyed (λ (d : Deployment). key_of d.meta) existing (λ k. none) (λ k d e. cc);
  reads = λ l k. refl;
  creates = λ l d e. refl;
  updates = λ l d e h. refl;
}

fleet-Owns : Owns fleet
fleet-Owns = record { owned = λ cr m. m; sets = λ cr m. refl; keeps = λ cr m. refl }

sample_under-key :
    (key : NamespacedName) (cr : AzureDevOps)
    → reply (sample_under key) ≡ reply cr
    → key_of cr.meta ≡ key
sample_under-key key cr h =
    let same : sample_under key ≡ cr = cc in sym (ap (λ x. key_of x.meta) same)

abbrev first_outcome : Outcome
first_outcome = record { result = after (pos 30_000_000_000); error = none }

reconcile_settles_example :
    Met fleet at_first fleet-Serves equality-IsReflexive fleet-Owns sample first_outcome
      (reconcile fleet (named "windows" "builds") (reconcile fleet sample_key start).1).1.log
unfolding reconcile scaled replica_bounds deployments needs_update
reconcile_settles_example =
    reconcile_settles fleet at_first fleet-Serves fleet-Owns (λ l key cr. sample_under-key key cr)
      equality-IsReflexive sample_key sample first_outcome start refl refl refl refl refl refl refl
      (other (named "windows" "builds") refl nobody)

served : (e : Endpoint) → (x : Response) × (serve e ≡ response x) × (x.status ≡ 200)
served (pools_named name) = (_, refl, refl)
served (job_requests pool) = (_, refl, refl)
served (agents_in pool) = (_, refl, refl)
served (agent_of pool agent) = (_, refl, refl)

fleet-Available : Available fleet
fleet-Available = record {
  passes = λ l. refl;
  parses = λ url e. refl;
  answers = λ l r. served r.endpoint;
  pools = λ l b. (_, refl, _, refl, _, _, refl, refl);
  jobs = λ l b. (_, refl);
}

fleet_valid : (t : State) → (validate_secrets fleet "builds" "pat" "" t).0 ≡ ok tt
unfolding validate_secrets
fleet_valid t = refl

unwatched : deployments at_first start.log (deployment_key sample) ≡ none
unfolding deployments deployment_key concat desired_deployment workload_meta
unwatched = refl

reconcile_succeeds_example :
    (o : Outcome) × ((reconcile fleet sample_key start).0 ≡ ok o)
    × (o.error ≡ none)
    × Met fleet at_first fleet-Serves equality-IsReflexive fleet-Owns sample o
        (reconcile fleet sample_key start).1.log
reconcile_succeeds_example =
    reconcile_succeeds fleet at_first fleet-Serves fleet-Owns fleet-Available (λ l m k. refl) sample
      refl fleet_valid equality-IsReflexive sample_key start refl refl refl refl refl
      (λ d e n. let missing = sym unwatched ∙ e in cc)
