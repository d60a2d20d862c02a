-- ===== src/Usecase/Progress.antt =====
-- The use case in surroundings that work succeeds.

use azdo_kube_operator.Base.{◌≡◌, refl, ap, ◌∙◌, ℕ, ℤ, Bool, true, false, not, eqb_ℤ}
use azdo_kube_operator.Kube.{AzureDevOps, Deployment}
use azdo_kube_operator.World.{Env, State, ok}
use azdo_kube_operator.World.Yields.{Yields, Any, Yields-pure, Yields-bind, Yields-wrapped}
use azdo_kube_operator.Devops.{AzureDevOpsClient}
use azdo_kube_operator.Devops.Available.{Available, get_queue_length-Yields}
use azdo_kube_operator.Kubernetes.{desired_deployment, validate_secrets, reconcile_deployment}
use azdo_kube_operator.Kubernetes.Stores.{Store}
use azdo_kube_operator.Kubernetes.Cluster.{Serves, Owns}
use azdo_kube_operator.Kubernetes.Refinement.{reconcile_deployment_internal_refines}
use azdo_kube_operator.Usecase.{
  CtrlResult, handle, scale, stamp_scaling, with_counts, determine_desired_replicas,
}
use azdo_kube_operator.Usecase.Settled.{as_deployment}

module _ (env : Env) (initial : Store Deployment) (serves : Serves env initial) (owns : Owns env)
    (available : Available env) where
  reconcile_deployment-Yields :
      (cr : AzureDevOps) (n : ℤ)
      → cr.spec.mode ≡ "Deployment"
      → Yields Any (reconcile_deployment env cr n)
  unfolding desired_deployment
  reconcile_deployment-Yields cr n mode = record {
    at = λ s.
        let desired = desired_deployment cr n in
        let done =
          reconcile_deployment_internal_refines env initial serves cr desired
            (owns.owned cr desired.meta) s (owns.sets cr desired.meta) in
        (tt, ap (λ x. x.0) (as_deployment env cr n s mode) ∙ done.0, tt);
  }

  stamp_scaling-Yields :
      (b : Bool) (cr : AzureDevOps)
      → Yields
          (λ (y : AzureDevOps). (y.spec.mode ≡ cr.spec.mode) × (y.meta ≡ cr.meta))
          (stamp_scaling env b cr)
  unfolding stamp_scaling
  stamp_scaling-Yields false cr = Yields-pure cr (refl, refl)
  stamp_scaling-Yields true cr = record { at = λ s. (_, refl, (refl, refl)) }

  module _ (cr : AzureDevOps) (mode : cr.spec.mode ≡ "Deployment")
      (valid : (t : State)
        → (validate_secrets env cr.meta.namespace cr.spec.pat_secret_ref
            cr.spec.image_pull_secret_ref t).0
          ≡ ok tt) where
    unfoldable pub Same : CtrlResult × AzureDevOps → Type 0
    Same (result, y) = y.meta ≡ cr.meta

    scale-Yields : (q : ℕ) → Yields Same (scale env cr q)
    unfolding scale with_counts Same
    scale-Yields q =
        let n = determine_desired_replicas q cr.spec in
        Yields-bind _ _
          (stamp_scaling-Yields (not (eqb_ℤ cr.status.desired_agents n)) (with_counts q n cr))
          λ y (same_mode, same_meta).
            Yields-bind _ _
              (Yields-wrapped "deployment reconciliation failed" (reconcile_deployment env y n)
                (reconcile_deployment-Yields y n (same_mode ∙ mode)))
              (λ u v. Yields-pure _ same_meta)

    pub handle-Yields : (client : AzureDevOpsClient) → Yields Same (handle env client cr)
    unfolding handle
    handle-Yields client =
        let checked : Yields Any (
            validate_secrets env cr.meta.namespace cr.spec.pat_secret_ref
              cr.spec.image_pull_secret_ref) =
          record { at = λ s. (tt, valid s, tt) } in
        Yields-bind _ _ (Yields-wrapped "secret validation failed" _ checked) λ u v.
          Yields-bind _ _
            (Yields-wrapped "failed to get queue length" _
              (get_queue_length-Yields env available client cr.spec.pool_name))
            (λ q w. scale-Yields q)
