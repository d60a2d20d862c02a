-- ===== src/Controller/Frames.antt =====
-- The reconciliation of one resource leaves the Deployments under other keys.
use azdo_kube_operator.Base.{ℤ, eqb_ℤ, not, eqb_ℤ, not, ◌≡◌, refl, ap, ◌∙◌, ℕ, false, String}
use azdo_kube_operator.Kube.{AzureDevOps, Deployment, NamespacedName, Reply, reply, fail, Pod}
use azdo_kube_operator.World.{Env, Action, ◌>>=◌, ◌>>◌, wrapped, pure, Call, call, Log}
use azdo_kube_operator.World.Views.{Leaves, Leaves-pure, Leaves-bind, Leaves-wrapped, leaves_rules}
use azdo_kube_operator.Devops.{AzureDevOpsClient}
use azdo_kube_operator.Kubernetes.{key_of, reconcile_deployment}
use azdo_kube_operator.Kubernetes.Stores.{Store, same_key}
use azdo_kube_operator.Kubernetes.Cluster.{deployments, Serves, Owns}
use azdo_kube_operator.Kubernetes.Frames.{validate_secrets-Leaves, reconcile_deployment-Leaves}
use azdo_kube_operator.Usecase.{
  CtrlResult, after, handle, scale, with_counts, determine_desired_replicas,
  calculate_requeue_interval,
}
use azdo_kube_operator.Controller.{
  with_queue, with_token, process, reconcile_resource, after_get_resource, after_get_pod, reconcile,
}
use azdo_kube_operator.Controller.Unseen.{
  view, update_status-Leaves, get_pat_token-Leaves, get_queue_length-Leaves,
  handle_pod_event-Leaves, new_client-Leaves, report-Leaves, conclude-Leaves, queue_failed-Leaves,
  add_finalizer-Leaves, finalize-Leaves, stamped-Leaves,
}

module _ (env : Env) (initial : Store Deployment) (k : NamespacedName) where
  module _ (serves : Serves env initial) (owns : Owns env) where
    module _ (cr : AzureDevOps) (other : same_key (key_of cr.meta) k ≡ false) where
      scaled-Leaves :
          (y : AzureDevOps) (n : ℤ)
          → y.meta ≡ cr.meta
          → Leaves (view env initial k) (reconcile_deployment env y n)
      scaled-Leaves y n e =
          reconcile_deployment-Leaves env initial k serves owns y
            (ap (λ m. same_key (key_of m) k) e ∙ other) n

      -- The workload, and then the result with the resource as it was changed.
      rest : ℤ → CtrlResult → AzureDevOps → Action (CtrlResult × AzureDevOps)
      rest n result y = do
        wrapped "deployment reconciliation failed" (reconcile_deployment env y n)
        pure (result, y)

      rest-Leaves :
          (n : ℤ) (result : CtrlResult) (y : AzureDevOps)
          → y.meta ≡ cr.meta
          → Leaves (view env initial k) (rest n result y)
      unfolding rest
      rest-Leaves n result y e =
          Leaves-bind (wrapped "deployment reconciliation failed" (reconcile_deployment env y n))
            (λ u. pure (result, y))
            (Leaves-wrapped "deployment reconciliation failed" (reconcile_deployment env y n)
              (scaled-Leaves y n e))
            (λ u. Leaves-pure (result, y))

      scale-Leaves : (q : ℕ) → Leaves (view env initial k) (scale env cr q)
      unfolding scale with_counts rest
      scale-Leaves q =
          let n = determine_desired_replicas q cr.spec in
          stamped-Leaves env initial k (not (eqb_ℤ cr.status.desired_agents n)) (with_counts q n cr)
            (rest n (after (calculate_requeue_interval q n)))
            (rest-Leaves n (after (calculate_requeue_interval q n)))

      pub handle-Leaves :
          (client : AzureDevOpsClient) → Leaves (view env initial k) (handle env client cr)
      unfolding handle
      handle-Leaves client = search (
        leaves_rules,
        validate_secrets-Leaves env initial k,
        get_queue_length-Leaves,
        scale-Leaves,
      )

      with_queue-Leaves :
          (client : AzureDevOpsClient) (n : ℕ)
          → Leaves (view env initial k) (with_queue env cr client n)
      unfolding with_queue
      with_queue-Leaves client n =
          search (leaves_rules, handle-Leaves, conclude-Leaves, report-Leaves)

      with_token-Leaves : (pat : String) → Leaves (view env initial k) (with_token env cr pat)
      unfolding with_token
      with_token-Leaves pat = search (
        leaves_rules, new_client-Leaves, get_queue_length-Leaves, with_queue-Leaves,
        queue_failed-Leaves,
      )

      process-Leaves : (key : NamespacedName) → Leaves (view env initial k) (process env key cr)
      unfolding process
      process-Leaves key = search (
        leaves_rules, update_status-Leaves, get_pat_token-Leaves, with_token-Leaves, report-Leaves,
      )

      reconcile_resource-Leaves :
          (key : NamespacedName) → Leaves (view env initial k) (reconcile_resource env key cr)
      unfolding reconcile_resource
      reconcile_resource-Leaves key =
          search (leaves_rules, process-Leaves, add_finalizer-Leaves, finalize-Leaves)

    module _ (key : NamespacedName) (other : same_key key k ≡ false)
        (own : (l : Log) (cr : AzureDevOps)
          → env.get_resource l key ≡ reply cr
          → key_of cr.meta ≡ key) where
      after_get_resource-Leaves :
          (r : Reply AzureDevOps)
          → ((cr : AzureDevOps) → r ≡ reply cr → key_of cr.meta ≡ key)
          → Leaves (view env initial k) (after_get_resource env key r)
      unfolding after_get_resource
      after_get_resource-Leaves (reply cr) h =
          reconcile_resource-Leaves cr (ap (λ j. same_key j k) (h cr refl) ∙ other) key
      after_get_resource-Leaves (fail e) h = search leaves_rules

      get_resource-Leaves : Leaves (view env initial k) (
          call (Call.get_resource key) (λ l. env.get_resource l key) >>= after_get_resource env key)
      unfolding deployments
      get_resource-Leaves = record {
        at = λ s. (after_get_resource-Leaves (env.get_resource s.log key) (own s.log)).at _;
      }

      after_get_pod-Leaves : (r : Reply Pod) → Leaves (view env initial k) (after_get_pod env key r)
      unfolding after_get_pod
      after_get_pod-Leaves (reply pod) = search (leaves_rules, handle_pod_event-Leaves)
      after_get_pod-Leaves (fail e) = search (leaves_rules, get_resource-Leaves)

      -- A reconciliation leaves what is held of the Deployments under each key but its own.
      pub reconcile-Leaves : Leaves (view env initial k) (reconcile env key)
      unfolding reconcile deployments
      reconcile-Leaves = search (leaves_rules, after_get_pod-Leaves)
