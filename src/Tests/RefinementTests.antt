-- ===== src/Tests/RefinementTests.antt =====
-- The reconciliation of the sample resource's Deployment with an API server that holds one.
use azdo_kube_operator.Base.{Option, some, String, [], ℤ, ◌≡◌, refl, none, pos, ◌∷◌}
use azdo_kube_operator.Base.{Bool, true, if◌then◌else◌}
use azdo_kube_operator.Kubernetes.{is_job_finished}
use azdo_kube_operator.Kube.{
  PodTemplateSpec, ApiError, not_found, other, Job, AzureDevOps, Deployment, NamespacedName,
}
use azdo_kube_operator.World.{Env, ok}
use azdo_kube_operator.Kubernetes.{
  desired_deployment, desired_job, domain_of, key_of, add_standard_labels,
  reconcile_deployment_internal,
}
use azdo_kube_operator.Kubernetes.Stores.{Store, put, found, put-IsKeyed}
use azdo_kube_operator.Kubernetes.Cluster.{deployments, Serves}
use azdo_kube_operator.Kubernetes.Refinement.{settled, reconcile_deployment_internal_refines}
use azdo_kube_operator.Kubernetes.JobStore.{jobs, is_refused}
use azdo_kube_operator.Kubernetes.DomainLaws.{desired_by_domain}
use azdo_kube_operator.Tests.Fixture.{resource_in, sample, sample_env, sample_equality, start}

abbrev pub wanted : Deployment
unfolding desired_deployment
wanted = desired_deployment sample (pos 3)

abbrev pub existing : Deployment
unfolding desired_deployment
existing = desired_deployment sample (pos 1)

abbrev labelled : Deployment
unfolding add_standard_labels
labelled = record wanted { meta = add_standard_labels wanted.meta }

abbrev pub at_first : Store Deployment
at_first = put (key_of existing.meta) existing (λ k. none)

abbrev pub cluster : Env
cluster = record sample_env { get_deployment = λ l k. found (deployments at_first l k) }

pub cluster-Serves : Serves cluster at_first
cluster-Serves = record {
  keyed = put-IsKeyed (λ (d : Deployment). key_of d.meta) existing (λ k. none) (λ k d e. cc);
  reads = λ l k. refl;
  creates = λ l d e. refl;
  updates = λ l d e h. refl;
}

reconcile_deployment_internal_refines_example :
    let held = deployments at_first start.log in
    let (r, s') = reconcile_deployment_internal cluster sample wanted start in
    (r ≡ ok tt)
    × ((j : NamespacedName)
        → deployments at_first s'.log j
          ≡ put
              (key_of wanted.meta)
              (settled sample_equality labelled (held (key_of wanted.meta)))
              held
              j)
unfolding labelled
reconcile_deployment_internal_refines_example =
    reconcile_deployment_internal_refines cluster at_first cluster-Serves sample wanted wanted.meta
      start refl

abbrev wanted_job : Job
unfolding desired_job
wanted_job = desired_job (resource_in "Jobs" "" [])

-- A cluster that holds a Job with no containers, and tells templates apart by their containers.
abbrev old_job : Job
unfolding wanted_job
old_job =
    let template = wanted_job.template in
    let spec = template.spec in
    record wanted_job { template = record template { spec = record spec { containers = [] } } }

abbrev old_jobs : Store Job
old_jobs = put (key_of old_job.meta) old_job (λ k. none)

abbrev by_containers : PodTemplateSpec → PodTemplateSpec → Bool
by_containers a b = sample_equality.containers a.spec.containers b.spec.containers

abbrev judge : Option Job → Job → Option ApiError
judge none j = some not_found
judge (some e) j = if by_containers e.template j.template then none else some (other "immutable")

abbrev job_cluster : Env
job_cluster = record sample_env {
  get_job = λ l k. found (jobs by_containers old_jobs l k);
  update_job = λ l j. judge (jobs by_containers old_jobs l (key_of j.meta)) j;
}

-- Its update is refused.
old_job_refused :
    is_refused sample_equality wanted_job (jobs by_containers old_jobs [] (key_of old_job.meta))
    ≡ true
unfolding is_refused jobs is_job_finished wanted_job
old_job_refused = refl

-- The resource with other bounds and other requests.
abbrev demanding : AzureDevOps
demanding =
    let spec = sample.spec in
    record sample {
      spec = record spec {
        max_replicas = pos 9;
        resources = record { requests = ("cpu", "4") ∷ []; limits = [] };
      };
    }

abbrev as_written : Option String → String
as_written none = "0"
as_written (some q) = q

desired_by_domain_example :
    ((n : ℤ) → desired_deployment sample n ≡ desired_deployment demanding n)
    × (desired_job sample ≡ desired_job demanding)
unfolding domain_of
desired_by_domain_example = desired_by_domain as_written sample demanding refl refl
