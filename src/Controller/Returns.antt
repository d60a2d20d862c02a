-- ===== src/Controller/Returns.antt =====
-- That `Reconcile` returns.
use azdo_kube_operator.Base.{
  ◌≡◌, ◌≢◌, refl, ℕ, String, Bool, true, false, Option, none, some, ◌∷◌, ℤ,
}
use azdo_kube_operator.Kube.{
  AzureDevOps, NamespacedName, said, Message, Error, Time, Reply, reply, fail, Deployment, Pod,
}
use azdo_kube_operator.World.{
  Env, normal, record_event, ◌>>◌, Action, in_case, Log, State, Call, ok,
}
use azdo_kube_operator.World.Survival.{Survives, survival_rules}
use azdo_kube_operator.World.Returns.{
  Returns, Returns-bind, Returns-call, Returns-pure, return_rules,
}
use azdo_kube_operator.Devops.{AzureDevOpsClient, new_client}
use azdo_kube_operator.Devops.Survival.{get_queue_length-Survives}
use azdo_kube_operator.Usecase.{CtrlResult, stamp_scaling}
use azdo_kube_operator.Controller.{
  Outcome, returned, update_status, event, report, observed, observe, conclude, with_queue,
  queue_failed, with_token, process, failure_interval, reconcile, reconcile_resource, after_get_pod,
  after_get_resource, finalize, clean_up, remove_finalizer, add_finalizer, update_resource,
  deployment_key,
}
use azdo_kube_operator.Controller.StatusWrites.{update_status_returns}
use azdo_kube_operator.Controller.Survival.{
  get_pat_token-Survives, handle-Survives, delete_external_resources-Survives,
  handle_pod_event-Survives,
}

new_client-Returns : (pat url project : String) → Returns (new_client pat url project)
unfolding new_client
new_client-Returns pat url project = record { at = λ s. (_, refl) }

module _ (env : Env) where
  -- Each Deployment that the API server gives has a number of replicas.
  abbrev pub HasReplicas : Type 0
  HasReplicas =
      (l : Log) (key : NamespacedName) (d : Deployment)
      → env.get_deployment l key ≡ reply d
      → d.spec.replicas ≢ none

  pub update_status-Returns :
      (cr : AzureDevOps) (phase : String) (message : Message)
      → Returns (update_status env cr phase message)
  update_status-Returns cr phase message = record {
    at = λ s. (tt, (update_status_returns env cr phase message s).0);
  }

  event-Returns : (c : Call) → Returns (event env c)
  unfolding event
  event-Returns c = Returns-call c _

  report-Returns :
      (cr : AzureDevOps) (reason : String) (a b : Message) → Returns (report env cr reason a b)
  unfolding report
  report-Returns cr reason a b =
      Returns-bind _ _ (event-Returns _) (λ u. update_status-Returns cr "Failed" b)

  pub stamp_scaling-Returns : (b : Bool) (cr : AzureDevOps) → Returns (stamp_scaling env b cr)
  unfolding stamp_scaling
  stamp_scaling-Returns false cr = Returns-pure cr
  stamp_scaling-Returns true cr = search return_rules

  present :
      {A : Type 0} (o : Option ℤ) (m : Action A) (f : ℤ → Action A)
      → o ≢ none
      → ((n : ℤ) → Returns (f n))
      → Returns (in_case o m f)
  present none m f h k = absurd (h refl)
  present (some n) m f h k = k n

  observe-Returns :
      (cr : AzureDevOps) (r : Reply Deployment)
      → ((d : Deployment) → r ≡ reply d → d.spec.replicas ≢ none)
      → Returns (observe env cr r)
  unfolding observe observed
  observe-Returns cr (fail e) h = Returns-pure cr
  observe-Returns cr (reply d) h =
      present d.spec.replicas _ _ (h d refl) (λ n. stamp_scaling-Returns _ _)

  -- What follows the look at the Deployment.
  abbrev told_ready : CtrlResult → AzureDevOps → Action Outcome
  told_ready result seen = do
    update_status env seen "Ready" (said "Successfully reconciled Azure DevOps agent pool")
    event env
        (record_event normal "Reconciled" (said "Successfully reconciled Azure DevOps agent pool"))
    returned result none

  told_ready-Returns : (result : CtrlResult) (seen : AzureDevOps) → Returns (told_ready result seen)
  told_ready-Returns result seen = search (return_rules, update_status-Returns, event-Returns)

  pub conclude_returns :
      (copy : AzureDevOps) (result : CtrlResult) (cr : AzureDevOps) (s : State)
      → ((d : Deployment)
          → env.get_deployment s.log (deployment_key cr) ≡ reply d
          → d.spec.replicas ≢ none)
      → (o : Outcome) × ((conclude env copy (result, cr) s).0 ≡ ok o)
  unfolding conclude
  conclude_returns copy result cr s h =
      (Returns-bind (observe env copy (env.get_deployment s.log (deployment_key cr)))
          (told_ready result)
          (observe-Returns copy (env.get_deployment s.log (deployment_key cr)) h)
          (told_ready-Returns result)).at
        (record s { log = Call.get_deployment (deployment_key cr) ∷ s.log })

  module _ (has : HasReplicas) where
    conclude-Returns :
        (copy : AzureDevOps) (p : CtrlResult × AzureDevOps) → Returns (conclude env copy p)
    conclude-Returns copy (result, cr) = record {
      at = λ s. conclude_returns copy result cr s (λ d e. has s.log (deployment_key cr) d e);
    }

    with_queue-Returns :
        (cr : AzureDevOps) (client : AzureDevOpsClient) (n : ℕ)
        → Returns (with_queue env cr client n)
    unfolding with_queue
    with_queue-Returns cr client n =
        search (return_rules, handle-Survives, conclude-Returns, report-Returns)

    failure_interval-Returns : (o : Option Time) → Returns (failure_interval env o)
    unfolding failure_interval
    failure_interval-Returns none = Returns-pure _
    failure_interval-Returns (some t) = search return_rules

    queue_failed-Returns : (cr : AzureDevOps) (e : Error) → Returns (queue_failed env cr e)
    unfolding queue_failed
    queue_failed-Returns cr e =
        search (return_rules, report-Returns, failure_interval-Returns) depth 8

    with_token-Returns : (cr : AzureDevOps) (pat : String) → Returns (with_token env cr pat)
    unfolding with_token
    with_token-Returns cr pat = search (
      return_rules, new_client-Returns, get_queue_length-Survives, with_queue-Returns,
      queue_failed-Returns,
    )

    process-Returns : (key : NamespacedName) (cr : AzureDevOps) → Returns (process env key cr)
    unfolding process
    process-Returns key cr = search (
      return_rules, update_status-Returns, get_pat_token-Survives, with_token-Returns,
      report-Returns,
    )

    update_resource-Survives : (cr : AzureDevOps) → Survives (update_resource env cr)
    unfolding update_resource
    update_resource-Survives cr = search survival_rules

    add_finalizer-Returns : (cr : AzureDevOps) → Returns (add_finalizer env cr)
    unfolding add_finalizer
    add_finalizer-Returns cr = search (return_rules, survival_rules, update_resource-Survives)

    remove_finalizer-Returns : (cr : AzureDevOps) → Returns (remove_finalizer env cr)
    unfolding remove_finalizer
    remove_finalizer-Returns cr = search (return_rules, update_resource-Survives)

    clean_up-Returns : (cr : AzureDevOps) (pat : String) → Returns (clean_up env cr pat)
    unfolding clean_up
    clean_up-Returns cr pat = search (
      return_rules, new_client-Returns, delete_external_resources-Survives,
      remove_finalizer-Returns,
    )

    finalize-Returns : (key : NamespacedName) (cr : AzureDevOps) → Returns (finalize env key cr)
    unfolding finalize
    finalize-Returns key cr = search (return_rules, get_pat_token-Survives, clean_up-Returns)

    reconcile_resource-Returns :
        (key : NamespacedName) (cr : AzureDevOps) → Returns (reconcile_resource env key cr)
    unfolding reconcile_resource
    reconcile_resource-Returns key cr =
        search (return_rules, finalize-Returns, process-Returns, add_finalizer-Returns)

    after_get_resource-Returns :
        (key : NamespacedName) (r : Reply AzureDevOps) → Returns (after_get_resource env key r)
    unfolding after_get_resource
    after_get_resource-Returns key (reply cr) = reconcile_resource-Returns key cr
    after_get_resource-Returns key (fail e) = search return_rules

    after_get_pod-Returns :
        (key : NamespacedName) (r : Reply Pod) → Returns (after_get_pod env key r)
    unfolding after_get_pod
    after_get_pod-Returns key (reply pod) = search (return_rules, handle_pod_event-Survives)
    after_get_pod-Returns key (fail e) = search (return_rules, after_get_resource-Returns)

    -- Where each Deployment that the API server gives has a number of replicas, a reconciliation ends
    -- and returns a result and at most an error, whatever the API server and Azure DevOps answer.
    pub reconcile_returns :
        (key : NamespacedName) (s : State) → (o : Outcome) × ((reconcile env key s).0 ≡ ok o)
    unfolding reconcile
    reconcile_returns key s =
        (after_get_pod-Returns key (env.get_pod s.log key)).at
          (record s { log = Call.get_pod key ∷ s.log })
