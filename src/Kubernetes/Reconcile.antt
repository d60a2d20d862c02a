-- ===== src/Kubernetes/Reconcile.antt =====
-- reconcile.go: `ReconcileDeployment`, the choice between a Job and a Deployment.
use azdo_kube_operator.Base.{⊤, some, none, [], ◌∷◌, ℤ, pos, str_eq, if◌then◌else◌}
use azdo_kube_operator.Kube.{
  ObjectMeta, fault, word, AzureDevOps, Deployment, Job, PodTemplateSpec, never,
}
use azdo_kube_operator.World.{Env, Action, raise}
use azdo_kube_operator.Kubernetes.Template.{owner_of, pod_template}
use azdo_kube_operator.Kubernetes.Deployments.{reconcile_deployment_internal}
use azdo_kube_operator.Kubernetes.Jobs.{reconcile_job}

-- The metadata of the workload, which has the resource's own name.
unfoldable pub workload_meta : AzureDevOps → ObjectMeta
unfolding owner_of
workload_meta cr = record {
  name = cr.meta.name;
  namespace = cr.meta.namespace;
  uid = "";
  labels = ("app", "azdo-agent") ∷ ("name", cr.meta.name) ∷ [];
  annotations = [];
  owner_references = owner_of cr ∷ [];
  finalizers = [];
  deletion_timestamp = none;
  rest = "";
}

unfoldable pub never_restarted : PodTemplateSpec → PodTemplateSpec
never_restarted t = let spec = t.spec in record t { spec = record spec { restart_policy = never } }

unfoldable pub desired_job : AzureDevOps → Job
unfolding workload_meta never_restarted pod_template
desired_job cr = record {
  meta = workload_meta cr;
  template = never_restarted (pod_template cr);
  conditions = [];
  rest = "";
}

unfoldable pub desired_deployment : AzureDevOps → ℤ → Deployment
unfolding workload_meta pod_template
desired_deployment cr replicas = record {
  meta = workload_meta cr;
  spec = record {
    replicas = some replicas;
    selector = ("app", "azdo-agent") ∷ [];
    template = pod_template cr;
    rest = "";
  };
  ready_replicas = pos 0;
  rest = "";
}

module _ (env : Env) where
  unfoldable pub reconcile_deployment : AzureDevOps → ℤ → Action ⊤
  unfolding desired_job desired_deployment reconcile_job reconcile_deployment_internal
  reconcile_deployment cr replicas =
      if str_eq cr.spec.mode "Jobs"
      then reconcile_job env cr (desired_job cr)
      else if str_eq cr.spec.mode "Deployment"
      then reconcile_deployment_internal env cr (desired_deployment cr replicas)
      else raise (fault "mode non supporté : %s" (word cr.spec.docker ∷ []))
