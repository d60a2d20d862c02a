-- ===== src/Kubernetes/DomainLaws.antt =====
-- On what of a resource its workload depends.
use azdo_kube_operator.Base.{◌≡◌, refl, ap, sym, ◌∙◌, String, Option, none, List, [], ℤ, pos}
use azdo_kube_operator.Kube.{AzureDevOps, EnvVar}
use azdo_kube_operator.Kubernetes.{
  desired_deployment, desired_job, DomainModel, DomainResources, domain_of,
}

-- A resource with this model and these variables, and nothing else.
resource_of : DomainModel → List EnvVar → AzureDevOps
resource_of d env = record {
  api_version = d.api_version;
  kind = d.kind;
  meta = d.meta;
  spec = record {
    org_url = d.org_url;
    project = d.project;
    pool_name = d.pool_name;
    image = d.image;
    image_pull_secret_ref = d.image_pull_secret_ref;
    pat_secret_ref = d.pat_secret_ref;
    resources = record { requests = []; limits = [] };
    mode = d.mode;
    min_replicas = pos 0;
    max_replicas = pos 0;
    docker = d.docker;
    tolerations = d.tolerations;
    affinity = d.affinity;
    ephemeral = d.ephemeral;
    env = env;
  };
  status = record {
    current_agents = pos 0;
    queued_jobs = pos 0;
    desired_agents = pos 0;
    ready_agents = pos 0;
    last_scaling_time = none;
    conditions = [];
    last_failed_check = none;
  };
}

abbrev no_resources : DomainResources
no_resources = record { cpu_request = ""; memory_request = ""; cpu_limit = ""; memory_limit = "" }

abbrev pub without_resources : DomainModel → DomainModel
without_resources d = record d { resources = no_resources }

module _ (quantity_text : Option String → String) where
  abbrev core : AzureDevOps → AzureDevOps
  core cr = resource_of (without_resources (domain_of quantity_text cr)) cr.spec.env

  deployment_of_core :
      (cr : AzureDevOps) (n : ℤ) → desired_deployment cr n ≡ desired_deployment (core cr) n
  unfolding desired_deployment resource_of domain_of
  deployment_of_core cr n = refl

  job_of_core : (cr : AzureDevOps) → desired_job cr ≡ desired_job (core cr)
  unfolding desired_job resource_of domain_of
  job_of_core cr = refl

  -- The workload depends on the resource only by its domain model and its variables: two resources
  -- with the same, even if they ask for other resources or other bounds, get the same Deployment and
  -- the same Job.
  pub desired_by_domain :
      (a b : AzureDevOps)
      → without_resources (domain_of quantity_text a)
        ≡ without_resources (domain_of quantity_text b)
      → a.spec.env ≡ b.spec.env
      → ((n : ℤ) → desired_deployment a n ≡ desired_deployment b n)
        × (desired_job a ≡ desired_job b)
  desired_by_domain a b same_model same_env =
      let same : core a ≡ core b = λ i. resource_of (same_model i) (same_env i) in
      (
        λ n.
            deployment_of_core a n
            ∙ ap (λ x. desired_deployment x n) same
            ∙ sym (deployment_of_core b n),
        job_of_core a ∙ ap desired_job same ∙ sym (job_of_core b),
      )
