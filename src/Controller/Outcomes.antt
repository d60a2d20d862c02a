-- ===== src/Controller/Outcomes.antt =====
-- How the reconciliation of a resource ends, and what it leaves behind.
use azdo_kube_operator.Base.{
  ℕ, suc, ◌≡◌, refl, ◌⊎◌, inl, inr, String, Option, none, some, ◌∷◌, int32,
}
use azdo_kube_operator.Kube.{AzureDevOps, NamespacedName, Message, said, said_of, Error}
use azdo_kube_operator.World.{
  Env, State, Call, Log, Action, Result, ok, err, panic, ◌>>=◌, ◌>>◌, normal, warning, call,
}
use azdo_kube_operator.World.Footprint.{Adds-call}
use azdo_kube_operator.Devops.{AzureDevOpsClient, new_client, get_queue_length}
use azdo_kube_operator.Usecase.{CtrlResult, after, handle}
use azdo_kube_operator.Controller.{
  Outcome, returned, update_status, get_pat_token, event, report, deployment_key, no_delay,
  one_minute, observe, conclude, with_queue, queue_failed, with_token, process, failure_interval,
}
use azdo_kube_operator.Controller.Telling.{
  Tells, Told, Counted, either, told, Tells-bind, Tells-branch, Told-event, events,
}
use azdo_kube_operator.Controller.Calm.{
  Calm-call, update_status-Calm, new_client-Calm, observe-Calm, failure_interval-Calm,
  new_client-Quiet,
}
use azdo_kube_operator.Controller.Quiet.{
  update_status-Quiet, get_pat_token-Quiet, get_queue_length-Quiet, handle-Quiet, observe-Quiet,
  failure_interval-Quiet, clock-Quiet, get_deployment-Quiet,
}

module _ (env : Env) where
  -- A report of a failure, and then an outcome with an error.
  reported :
      (cr : AzureDevOps) (reason : String) (said_it written : Message) (k : Action Outcome)
      → Tells (told warning) k
      → Tells either (report env cr reason said_it written >>= λ u. k)
  unfolding report event
  reported cr reason said_it written k h = record {
    at = λ s.
        let s' = record s { log = Call.record_event warning reason said_it ∷ s.log } in
        Told-event warning s.log reason said_it _ _ (
          (Tells-bind (told warning) (update_status env cr "Failed" written) (λ u. k)
              (update_status-Quiet env cr "Failed" written)
              (update_status-Calm env cr "Failed" written) (λ u. h)).at
            s');
  }

  returned-some : (r : CtrlResult) (e : Error) → Tells (told warning) (returned r (some e))
  returned-some r e = record { at = λ s. (refl, refl) }

  -- The event of a success, and then the outcome with no error.
  concluded : (copy : AzureDevOps) (result : CtrlResult) → Action Outcome
  concluded copy result = do
    event env (
        Call.record_event normal "Reconciled"
          (said "Successfully reconciled Azure DevOps agent pool"))
    returned result none

  concluded-Tells :
      (copy : AzureDevOps) (result : CtrlResult) → Tells either (concluded copy result)
  unfolding concluded event
  concluded-Tells copy result = record { at = λ s. (refl, refl) }

  conclude-Tells :
      (copy : AzureDevOps) (p : CtrlResult × AzureDevOps) → Tells either (conclude env copy p)
  unfolding conclude concluded
  conclude-Tells copy (result, cr) =
      let key = deployment_key cr in
      Tells-bind either (call (Call.get_deployment key) (λ l. env.get_deployment l key)) _
        (Adds-call _ _ (get_deployment-Quiet key)) (Calm-call env _ _)
        λ found.
          Tells-bind either (observe env copy found) _ (observe-Quiet env copy found)
            (observe-Calm env copy found)
            λ seen.
              Tells-bind either
                (update_status env seen "Ready"
                  (said "Successfully reconciled Azure DevOps agent pool"))
                _
                (update_status-Quiet env seen "Ready"
                  (said "Successfully reconciled Azure DevOps agent pool"))
                (update_status-Calm env seen "Ready"
                  (said "Successfully reconciled Azure DevOps agent pool"))
                (λ u. concluded-Tells copy result)

  with_queue-Tells :
      (cr : AzureDevOps) (client : AzureDevOpsClient) (n : ℕ)
      → Tells either (with_queue env cr client n)
  unfolding with_queue
  with_queue-Tells cr client n =
      let status = cr.status in
      let copy = record cr { status = record status { queued_jobs = int32 n } } in
      Tells-branch either (handle env client cr) _ _ (handle-Quiet env client cr)
        (conclude-Tells copy)
        (λ e.
          reported copy "ReconcileError" (said_of "Failed to reconcile" e)
            (said_of "Reconciliation failed" e) (returned (after no_delay) (some e))
            (returned-some (after no_delay) e))

  -- The interval, the time of the failure, and the outcome with the error.
  delayed : AzureDevOps → Error → Action Outcome
  delayed cr e = do
    delay ← failure_interval env cr.status.last_failed_check
    call Call.clock (λ l. tt)
    returned (after delay) (some e)

  delayed-Tells : (cr : AzureDevOps) (e : Error) → Tells (told warning) (delayed cr e)
  unfolding delayed
  delayed-Tells cr e =
      Tells-bind (told warning) (failure_interval env cr.status.last_failed_check) _
        (failure_interval-Quiet env cr.status.last_failed_check)
        (failure_interval-Calm env cr.status.last_failed_check)
        (λ delay.
          Tells-bind (told warning) (call Call.clock (λ l. tt))
            (λ u. returned (after delay) (some e)) (Adds-call _ _ clock-Quiet) (Calm-call env _ _)
            (λ u. returned-some (after delay) e))

  queue_failed-Tells : (cr : AzureDevOps) (e : Error) → Tells either (queue_failed env cr e)
  unfolding queue_failed delayed
  queue_failed-Tells cr e =
      reported cr "AzureDevOpsError" (said_of "Failed to get queue length" e)
        (said_of "Failed to get queue length" e) (delayed cr e) (delayed-Tells cr e)

  with_token-Tells : (cr : AzureDevOps) (pat : String) → Tells either (with_token env cr pat)
  unfolding with_token
  with_token-Tells cr pat =
      Tells-bind either (new_client pat cr.spec.org_url cr.spec.project) _
        (new_client-Quiet env pat cr.spec.org_url cr.spec.project)
        (new_client-Calm env pat cr.spec.org_url cr.spec.project)
        (λ client.
          Tells-branch either (get_queue_length env client cr.spec.pool_name) _ _
            (get_queue_length-Quiet env client cr.spec.pool_name) (with_queue-Tells cr client)
            (queue_failed-Tells cr))

  process-Tells : (key : NamespacedName) (cr : AzureDevOps) → Tells either (process env key cr)
  unfolding process
  process-Tells key cr =
      Tells-bind either
        (update_status env cr "Processing" (said "Reconciling Azure DevOps agent pool")) _
        (update_status-Quiet env cr "Processing" (said "Reconciling Azure DevOps agent pool"))
        (update_status-Calm env cr "Processing" (said "Reconciling Azure DevOps agent pool"))
        (λ u.
          Tells-branch either (get_pat_token env cr.spec.pat_secret_ref key.namespace) _ _
            (get_pat_token-Quiet env cr.spec.pat_secret_ref key.namespace) (with_token-Tells cr)
            (λ e.
              reported cr "SecretError" (said "Failed to get PAT token")
                (said_of "Failed to get PAT token" e) (returned (after one_minute) (some e))
                (returned-some (after one_minute) e)))

  -- Processing a resource ends in a panic or in an outcome, and records exactly one event: a normal one
  -- where the outcome has no error, and a warning where it has one.
  pub process_tells :
      (key : NamespacedName) (cr : AzureDevOps) (s : State)
      → let (r, s') = process env key cr s in
        (r ≡ panic)
        ⊎ ((o : Outcome) × (r ≡ ok o)
            × (((o.error ≡ none)
                  × (events normal s'.log ≡ suc (events normal s.log))
                  × (events warning s'.log ≡ events warning s.log))
                ⊎ ((e : Error) × (o.error ≡ some e)
                    × (events normal s'.log ≡ events normal s.log)
                    × (events warning s'.log ≡ suc (events warning s.log)))))
  process_tells key cr s = read_Told s.log _ _ ((process-Tells key cr).at s)
    where
      read_error :
          (l m : Log) (x : Option Error)
          → Counted either l m x
          → ((x ≡ none)
              × (events normal m ≡ suc (events normal l))
              × (events warning m ≡ events warning l))
            ⊎ ((e : Error) × (x ≡ some e)
                × (events normal m ≡ events normal l)
                × (events warning m ≡ suc (events warning l)))
      read_error l m none (a, b) = inl (refl, a, b)
      read_error l m (some e) (a, b) = inr (e, refl, a, b)

      read_Told :
          (l : Log) (r : Result Outcome) (s' : State)
          → Told either l (r, s')
          → (r ≡ panic)
            ⊎ ((o : Outcome) × (r ≡ ok o)
                × (((o.error ≡ none)
                      × (events normal s'.log ≡ suc (events normal l))
                      × (events warning s'.log ≡ events warning l))
                    ⊎ ((e : Error) × (o.error ≡ some e)
                        × (events normal s'.log ≡ events normal l)
                        × (events warning s'.log ≡ suc (events warning l)))))
      read_Told l (ok o) s' h = inr (o, refl, read_error l s'.log o.error h)
      read_Told l (err e) s' h = absurd h
      read_Told l panic s' h = inl refl
