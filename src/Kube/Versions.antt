-- ===== src/Kube/Versions.antt =====
-- The two versions of the resource. The API server stores v1beta1 and, without a conversion webhook,
-- shows a stored resource in the other version field by field.
use std.Path.{transport}
use std.Equiv.{Iso, iso_to_equiv}
use std.Univalence.{ua, ua-β}
use azdo_kube_operator.Base.{◌≡◌, refl}
use azdo_kube_operator.Kube.Resource.{AzureDevOps, AzureDevOpsSpec, AzureDevOpsStatus}
use azdo_kube_operator.Kube.Beta0

stored_spec : Beta0.AzureDevOpsSpec → AzureDevOpsSpec
stored_spec spec = record {
  org_url = spec.org_url;
  project = spec.project;
  pool_name = spec.pool_name;
  image = spec.image;
  image_pull_secret_ref = spec.image_pull_secret_ref;
  pat_secret_ref = spec.pat_secret_ref;
  resources = spec.resources;
  mode = spec.mode;
  min_replicas = spec.min_replicas;
  max_replicas = spec.max_replicas;
  docker = spec.docker;
  tolerations = spec.tolerations;
  affinity = spec.affinity;
  ephemeral = spec.ephemeral;
  env = spec.env;
}

shown_spec : AzureDevOpsSpec → Beta0.AzureDevOpsSpec
shown_spec spec = record {
  org_url = spec.org_url;
  project = spec.project;
  pool_name = spec.pool_name;
  image = spec.image;
  image_pull_secret_ref = spec.image_pull_secret_ref;
  pat_secret_ref = spec.pat_secret_ref;
  resources = spec.resources;
  mode = spec.mode;
  min_replicas = spec.min_replicas;
  max_replicas = spec.max_replicas;
  docker = spec.docker;
  tolerations = spec.tolerations;
  affinity = spec.affinity;
  ephemeral = spec.ephemeral;
  env = spec.env;
}

stored_status : Beta0.AzureDevOpsStatus → AzureDevOpsStatus
stored_status status = record {
  current_agents = status.current_agents;
  queued_jobs = status.queued_jobs;
  desired_agents = status.desired_agents;
  ready_agents = status.ready_agents;
  last_scaling_time = status.last_scaling_time;
  conditions = status.conditions;
  last_failed_check = status.last_failed_check;
}

shown_status : AzureDevOpsStatus → Beta0.AzureDevOpsStatus
shown_status status = record {
  current_agents = status.current_agents;
  queued_jobs = status.queued_jobs;
  desired_agents = status.desired_agents;
  ready_agents = status.ready_agents;
  last_scaling_time = status.last_scaling_time;
  conditions = status.conditions;
  last_failed_check = status.last_failed_check;
}

unfoldable pub stored : Beta0.AzureDevOps → AzureDevOps
unfolding stored_spec stored_status
stored cr = record {
  api_version = cr.api_version;
  kind = cr.kind;
  meta = cr.meta;
  spec = stored_spec cr.spec;
  status = stored_status cr.status;
}

unfoldable pub shown : AzureDevOps → Beta0.AzureDevOps
unfolding shown_spec shown_status
shown cr = record {
  api_version = cr.api_version;
  kind = cr.kind;
  meta = cr.meta;
  spec = shown_spec cr.spec;
  status = shown_status cr.status;
}

versions : Iso Beta0.AzureDevOps AzureDevOps
unfolding stored shown
versions = record { fun = stored; inv = shown; rinv = λ cr. refl; linv = λ cr. refl }

-- The resource is the same type in its two versions: showing a resource as v0beta0 and storing it
-- again loses nothing in either direction, and the type of the one becomes that of the other by it.
pub versions_agree :
    (p : Beta0.AzureDevOps ≡ AzureDevOps) × ((cr : Beta0.AzureDevOps) → transport p cr ≡ stored cr)
    × ((cr : AzureDevOps) → stored (shown cr) ≡ cr)
    × ((cr : Beta0.AzureDevOps) → shown (stored cr) ≡ cr)
unfolding versions
versions_agree =
    (ua (iso_to_equiv versions), ua-β (iso_to_equiv versions), versions.rinv, versions.linv)
