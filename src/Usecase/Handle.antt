-- ===== src/Usecase/Handle.antt =====
-- `Reconcile.Handle`. The source changes the status of the resource that it is given; the model
-- returns the changed resource beside the result. On an error the caller reads of it only the
-- metadata, which stays as it was.
use azdo_kube_operator.Base.{ℕ, Bool, true, false, not, some, ℤ, int32, eqb_ℤ}
use azdo_kube_operator.Kube.{AzureDevOps}
use azdo_kube_operator.World.{Env, Action, pure, wrapped, ◌>>=◌, ◌>>◌, Call, call}
use azdo_kube_operator.Devops.{AzureDevOpsClient, get_queue_length}
use azdo_kube_operator.Kubernetes.{validate_secrets, reconcile_deployment}
use azdo_kube_operator.Usecase.Scaling.{determine_desired_replicas, calculate_requeue_interval}

-- `ctrl.Result`
pub record CtrlResult : Type 0 where
  pub requeue : Bool
  pub requeue_after : ℤ

abbrev pub after : ℤ → CtrlResult
after delay = record { requeue = false; requeue_after = delay }

unfoldable pub with_counts : ℕ → ℤ → AzureDevOps → AzureDevOps
unfolding int32
with_counts queue_length desired cr =
    let status = cr.status in
    record cr {
      status = record status {
        queued_jobs = int32 queue_length;
        desired_agents = desired;
        ready_agents = status.desired_agents;
      };
    }

module _ (env : Env) where
  -- The time of scaling is set where the count changes.
  unfoldable pub stamp_scaling : Bool → AzureDevOps → Action AzureDevOps
  stamp_scaling false cr = pure cr
  stamp_scaling true cr = do
    now ← call Call.clock env.clock
    let status = cr.status
    pure (record cr { status = record status { last_scaling_time = some now } })

  unfoldable pub scale : AzureDevOps → ℕ → Action (CtrlResult × AzureDevOps)
  unfolding determine_desired_replicas with_counts stamp_scaling reconcile_deployment
      calculate_requeue_interval
  scale cr queue_length = do
    let desired = determine_desired_replicas queue_length cr.spec
    changed ←
        stamp_scaling (not (eqb_ℤ cr.status.desired_agents desired))
          (with_counts queue_length desired cr)
    wrapped "deployment reconciliation failed" (reconcile_deployment env changed desired)
    pure (after (calculate_requeue_interval queue_length desired), changed)

  unfoldable pub handle : AzureDevOpsClient → AzureDevOps → Action (CtrlResult × AzureDevOps)
  unfolding validate_secrets get_queue_length scale
  handle client cr = do
    wrapped "secret validation failed" (
        validate_secrets env cr.meta.namespace cr.spec.pat_secret_ref cr.spec.image_pull_secret_ref)
    queue_length ←
        wrapped "failed to get queue length" (get_queue_length env client cr.spec.pool_name)
    scale cr queue_length
