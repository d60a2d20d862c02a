-- ===== src/Controller/Reconcile.antt =====
-- `AzureDevOpsReconciler.Reconcile`. The returned error stands beside the result, as in Go.
use azdo_kube_operator.Base.{
  ℕ, ◌*◌, ⊤, true, not, String, Option, none, some, ℤ, pos, int32, eqb_ℤ, concat, if◌then◌else◌,
}
use azdo_kube_operator.Kube.{
  NamespacedName, named, is_not_found, Reply, reply, fail, Error, api_error, Message, said, said_of,
  Pod, Deployment, AzureDevOps,
}
use azdo_kube_operator.World.{
  Env, Action, pure, crash, lift, branch, in_case, ◌>>=◌, ◌>>◌, Call, call, record_event, normal,
  warning,
}
use azdo_kube_operator.Devops.{
  AzureDevOpsClient, finalizer_name, second, minute, new_client, get_queue_length,
}
use azdo_kube_operator.Usecase.{CtrlResult, after, handle, stamp_scaling}
use azdo_kube_operator.Controller.Token.{get_pat_token}
use azdo_kube_operator.Controller.Status.{update_status}
use azdo_kube_operator.Controller.Interval.{failure_interval}
use azdo_kube_operator.Controller.Cleanup.{delete_external_resources}
use azdo_kube_operator.Controller.PodEvent.{handle_pod_event}

pub record Outcome : Type 0 where
  pub result : CtrlResult
  pub error : Option Error

abbrev pub returned : CtrlResult → Option Error → Action Outcome
returned result error = pure (record { result = result; error = error })

abbrev pub ten_seconds : ℤ
ten_seconds = pos (10 * second)

abbrev pub no_delay : ℤ
no_delay = pos 0

abbrev pub one_minute : ℤ
one_minute = pos minute

module _ (env : Env) (cr : AzureDevOps) where
  -- `r.Update(ctx, &cr)`
  unfoldable pub update_resource : Action AzureDevOps
  update_resource = do
    answer ← call (Call.update_resource cr) (λ l. env.update_resource l cr)
    lift answer

-- The deployment that is asked for its counts.
unfoldable pub deployment_key : AzureDevOps → NamespacedName
unfolding concat
deployment_key cr = named (concat cr.meta.name "-agent") cr.meta.namespace

module _ (env : Env) where
  unfoldable pub remove_finalizer : AzureDevOps → Action Outcome
  unfolding update_resource
  remove_finalizer cr =
      branch
        (update_resource env (record cr { meta = env.remove_finalizer cr.meta finalizer_name }))
        (λ updated. returned (after ten_seconds) none) (λ e. returned (after no_delay) (some e))

  unfoldable pub clean_up : AzureDevOps → String → Action Outcome
  unfolding new_client delete_external_resources remove_finalizer
  clean_up cr pat = do
    client ← new_client pat cr.spec.org_url cr.spec.project
    branch (delete_external_resources env client cr) (λ done. remove_finalizer cr)
        (λ e. returned (after one_minute) (some e))

  -- The branch of a resource with a deletion timestamp.
  unfoldable pub finalize : NamespacedName → AzureDevOps → Action Outcome
  unfolding get_pat_token clean_up
  finalize key cr =
      if env.contains_finalizer cr.meta finalizer_name
      then branch (get_pat_token env cr.spec.pat_secret_ref key.namespace) (clean_up cr)
          (λ e. returned (after one_minute) (some e))
      else returned (after ten_seconds) none

  -- The resource is written twice.
  unfoldable pub add_finalizer : AzureDevOps → Action Outcome
  unfolding update_resource
  add_finalizer cr =
      branch
        (update_resource env (record cr { meta = env.add_finalizer cr.meta finalizer_name })
          >>= update_resource env)
        (λ updated. returned (record { requeue = true; requeue_after = no_delay }) none)
        (λ e. returned (after no_delay) (some e))

  unfoldable pub event : Call → Action ⊤
  event c = call c (λ l. tt)

  -- The event and the status of a failed reconciliation.
  unfoldable pub report : AzureDevOps → String → Message → Message → Action ⊤
  unfolding event update_status
  report copy reason told written = do
    event (record_event warning reason told)
    update_status env copy "Failed" written

  -- The counts that the deployment shows. A missing count of replicas is a nil pointer.
  unfoldable pub observed : AzureDevOps → Deployment → Action AzureDevOps
  unfolding stamp_scaling
  observed copy deployment = in_case deployment.spec.replicas crash λ replicas.
      let status = copy.status in
      stamp_scaling env (not (eqb_ℤ status.current_agents deployment.ready_replicas)) (record copy {
        status = record status {
          current_agents = deployment.ready_replicas;
          desired_agents = replicas;
          ready_agents = deployment.ready_replicas;
        };
      })

  unfoldable pub observe : AzureDevOps → Reply Deployment → Action AzureDevOps
  unfolding observed
  observe copy (fail e) = pure copy
  observe copy (reply deployment) = observed copy deployment

  -- What follows a use case that succeeded.
  unfoldable pub conclude : AzureDevOps → CtrlResult × AzureDevOps → Action Outcome
  unfolding deployment_key observe update_status event
  conclude copy (result, cr) = do
    found ←
        call (Call.get_deployment (deployment_key cr))
          (λ l. env.get_deployment l (deployment_key cr))
    seen ← observe copy found
    update_status env seen "Ready" (said "Successfully reconciled Azure DevOps agent pool")
    event
        (record_event normal "Reconciled" (said "Successfully reconciled Azure DevOps agent pool"))
    returned result none

  unfoldable pub with_queue : AzureDevOps → AzureDevOpsClient → ℕ → Action Outcome
  unfolding handle report conclude int32
  with_queue cr client queue_length =
      let status = cr.status in
      let copy = record cr { status = record status { queued_jobs = int32 queue_length } } in
      branch (handle env client cr) (conclude copy) λ e. do
        report copy "ReconcileError" (said_of "Failed to reconcile" e)
            (said_of "Reconciliation failed" e)
        returned (after no_delay) (some e)

  -- The time of the failure is written to a variable that is then dropped.
  unfoldable pub queue_failed : AzureDevOps → Error → Action Outcome
  unfolding report failure_interval
  queue_failed cr e = do
    report cr "AzureDevOpsError" (said_of "Failed to get queue length" e)
        (said_of "Failed to get queue length" e)
    delay ← failure_interval env cr.status.last_failed_check
    call Call.clock (λ l. tt)
    returned (after delay) (some e)

  unfoldable pub with_token : AzureDevOps → String → Action Outcome
  unfolding new_client get_queue_length with_queue queue_failed
  with_token cr pat = do
    client ← new_client pat cr.spec.org_url cr.spec.project
    branch (get_queue_length env client cr.spec.pool_name) (with_queue cr client) (queue_failed cr)

  unfoldable pub process : NamespacedName → AzureDevOps → Action Outcome
  unfolding update_status get_pat_token with_token report
  process key cr = do
    update_status env cr "Processing" (said "Reconciling Azure DevOps agent pool")
    branch (get_pat_token env cr.spec.pat_secret_ref key.namespace) (with_token cr) λ e. do
      report cr "SecretError" (said "Failed to get PAT token") (said_of "Failed to get PAT token" e)
      returned (after one_minute) (some e)

  unfoldable pub reconcile_resource : NamespacedName → AzureDevOps → Action Outcome
  unfolding finalize add_finalizer process
  reconcile_resource key cr =
      in_case cr.meta.deletion_timestamp
        (if env.contains_finalizer cr.meta finalizer_name then process key cr else add_finalizer cr)
        (λ t. finalize key cr)

  unfoldable pub after_get_resource : NamespacedName → Reply AzureDevOps → Action Outcome
  unfolding reconcile_resource
  after_get_resource key (reply cr) = reconcile_resource key cr
  after_get_resource key (fail e) =
      if is_not_found e
      then returned (after ten_seconds) none
      else returned (after no_delay) (some (api_error e))

  unfoldable pub after_get_pod : NamespacedName → Reply Pod → Action Outcome
  unfolding handle_pod_event after_get_resource
  after_get_pod key (reply pod) =
      branch (handle_pod_event env pod) (λ done. returned (after ten_seconds) none)
        (λ e. returned (after one_minute) (some e))
  after_get_pod key (fail e) =
      if is_not_found e
      then call (Call.get_resource key) (λ l. env.get_resource l key) >>= after_get_resource key
      else returned (after no_delay) (some (api_error e))

  unfoldable pub reconcile : NamespacedName → Action Outcome
  unfolding after_get_pod
  reconcile key = do pod ← call (Call.get_pod key) (λ l. env.get_pod l key); after_get_pod key pod
