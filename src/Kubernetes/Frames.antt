-- ===== src/Kubernetes/Frames.antt =====
-- Bringing the workload of one resource up to date leaves the Deployments under other keys.
use azdo_kube_operator.Base.{◌≡◌, refl, ap, ◌∙◌, false, String, Option, ℤ}
use azdo_kube_operator.Kube.{AzureDevOps, Deployment, Job, NamespacedName}
use azdo_kube_operator.World.{Env, Log}
use azdo_kube_operator.World.Views.{Leaves, Leaves-Adds, leaves_rules}
use azdo_kube_operator.Kubernetes.{
  key_of, desired_deployment, reconcile_deployment, reconcile_deployment_internal, reconcile_job,
  validate_secrets,
}
use azdo_kube_operator.Kubernetes.Stores.{Store, same_key, put}
use azdo_kube_operator.Kubernetes.Cluster.{deployments, Serves, Owns}
use azdo_kube_operator.Kubernetes.Effects.{validate_secrets-Adds, reconcile_job-Adds}
use azdo_kube_operator.Kubernetes.Refinement.{reconcile_deployment_internal_refines}

other_key :
    {V : Type 0} (a k : NamespacedName) (v : V) (store : Store V)
    → same_key a k ≡ false
    → put a v store k ≡ store k
other_key a k v store other = rw other refl

module _ (env : Env) (initial : Store Deployment) (k : NamespacedName) where
  -- What is held under the key.
  abbrev pub held : Log → Option Deployment
  held l = deployments initial l k

  pub validate_secrets-Leaves :
      (namespace pat pull : String) → Leaves held (validate_secrets env namespace pat pull)
  unfolding deployments
  validate_secrets-Leaves namespace pat pull =
      Leaves-Adds held _ (validate_secrets-Adds env (λ j l. refl) namespace pat pull)

  reconcile_job-Leaves : (cr : AzureDevOps) (d : Job) → Leaves held (reconcile_job env cr d)
  unfolding deployments
  reconcile_job-Leaves cr d =
      Leaves-Adds held _ (reconcile_job-Adds env (λ j l. refl) (λ j l. refl) (λ j l. refl) cr d)

  module _ (serves : Serves env initial) (owns : Owns env) (cr : AzureDevOps)
      (other : same_key (key_of cr.meta) k ≡ false) where
    reconcile_deployment_internal-Leaves :
        (n : ℤ) → Leaves held (reconcile_deployment_internal env cr (desired_deployment cr n))
    unfolding desired_deployment
    reconcile_deployment_internal-Leaves n = record {
      at = λ s.
          let desired = desired_deployment cr n in
          let meta = owns.owned cr desired.meta in
          (reconcile_deployment_internal_refines env initial serves cr desired meta s
              (owns.sets cr desired.meta)).1
            k
          ∙ other_key (key_of meta) k _ (deployments initial s.log)
              (ap (λ j. same_key j k) (owns.keeps cr desired.meta) ∙ other);
    }

    pub reconcile_deployment-Leaves : (n : ℤ) → Leaves held (reconcile_deployment env cr n)
    unfolding reconcile_deployment
    reconcile_deployment-Leaves n =
        search (leaves_rules, reconcile_job-Leaves, reconcile_deployment_internal-Leaves)
