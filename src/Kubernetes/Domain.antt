-- ===== src/Kubernetes/Domain.antt =====
-- internal/domain/models/azure_devops.go: the domain model, and how `ReconcileDeployment` fills it.
-- The source builds the workload from the model, the model of this library from the fields of the
-- resource that it is a copy of; DomainLaws shows that this is the same.
use azdo_kube_operator.Base.{Bool, String, Option, List, lookup}
use azdo_kube_operator.Kube.{ObjectMeta, Opaque, AzureDevOps}

-- `models.ResourceRequirements`
pub record DomainResources : Type 0 where
  pub cpu_request : String
  pub memory_request : String
  pub cpu_limit : String
  pub memory_limit : String

-- `models.AzureDevOps`
pub record DomainModel : Type 0 where
  pub api_version : String
  pub kind : String
  pub meta : ObjectMeta
  pub namespace : String
  pub org_url : String
  pub pool_name : String
  pub project : String
  pub image : String
  pub pat_secret_ref : String
  pub image_pull_secret_ref : String
  pub resources : DomainResources
  pub mode : String
  pub docker : String
  pub tolerations : List Opaque
  pub affinity : Option Opaque
  pub ephemeral : Bool

-- `Quantity.String()` of an entry, which may be missing, is the library's.
module _ (quantity_text : Option String → String) where
  unfoldable pub domain_resources : AzureDevOps → DomainResources
  unfolding lookup
  domain_resources cr = record {
    cpu_request = quantity_text (lookup "cpu" cr.spec.resources.requests);
    memory_request = quantity_text (lookup "memory" cr.spec.resources.requests);
    cpu_limit = quantity_text (lookup "cpu" cr.spec.resources.limits);
    memory_limit = quantity_text (lookup "memory" cr.spec.resources.limits);
  }

  unfoldable pub domain_of : AzureDevOps → DomainModel
  unfolding domain_resources
  domain_of cr = record {
    api_version = cr.api_version;
    kind = cr.kind;
    meta = cr.meta;
    namespace = cr.meta.namespace;
    org_url = cr.spec.org_url;
    pool_name = cr.spec.pool_name;
    project = cr.spec.project;
    image = cr.spec.image;
    pat_secret_ref = cr.spec.pat_secret_ref;
    image_pull_secret_ref = cr.spec.image_pull_secret_ref;
    resources = domain_resources cr;
    mode = cr.spec.mode;
    docker = cr.spec.docker;
    tolerations = cr.spec.tolerations;
    affinity = cr.spec.affinity;
    ephemeral = cr.spec.ephemeral;
  }
