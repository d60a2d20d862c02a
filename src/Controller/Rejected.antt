-- ===== src/Controller/Rejected.antt =====
-- A resource in a mode that is not supported.
use azdo_kube_operator.Base.{
  ◌≡◌, ◌≢◌, ap, sym, ◌∙◌, ℕ, ℤ, Bool, true, false, not, eqb_ℤ, String, int32,
}
use azdo_kube_operator.Kube.{AzureDevOps, NamespacedName, said}
use azdo_kube_operator.World.{Env, State, ◌>>=◌, wrapped, Result, ok, err, panic}
use azdo_kube_operator.World.Inversion.{bind-eq-ok, wrapped-eq-ok}
use azdo_kube_operator.Devops.{AzureDevOpsClient, new_client, get_queue_length}
use azdo_kube_operator.Kubernetes.{validate_secrets, reconcile_deployment}
use azdo_kube_operator.Kubernetes.Modes.{reconcile_deployment_unsupported}
use azdo_kube_operator.Usecase.{
  CtrlResult, handle, scale, stamp_scaling, with_counts, determine_desired_replicas,
}
use azdo_kube_operator.Controller.{update_status, get_pat_token, with_queue, with_token, process}
use azdo_kube_operator.Controller.Endings.{
  Gives, HasError, Gives-bind, Gives-branch, Gives-failing, reported-HasError,
  queue_failed-HasError,
}

abbrev mode_of : Result AzureDevOps → String
mode_of (ok y) = y.spec.mode
mode_of (err e) = ""
mode_of panic = ""

module _ (env : Env) (cr : AzureDevOps) (no_jobs : cr.spec.mode ≢ "Jobs")
    (no_deployment : cr.spec.mode ≢ "Deployment") where
  stamped_mode :
      (b : Bool) (x y : AzureDevOps) (s : State)
      → (stamp_scaling env b x s).0 ≡ ok y
      → y.spec.mode ≡ x.spec.mode
  unfolding stamp_scaling
  stamped_mode true x y s h = sym (ap mode_of h)
  stamped_mode false x y s h = sym (ap mode_of h)

  rejected :
      (y : AzureDevOps) (n : ℤ) (s : State)
      → y.spec.mode ≡ cr.spec.mode
      → (reconcile_deployment env y n s).0 ≡ ok tt
      → ⊥
  rejected y n s same h =
      let e =
        reconcile_deployment_unsupported env y n s (λ m. no_jobs (sym same ∙ m))
          (λ m. no_deployment (sym same ∙ m)) in
      let h' = ap (λ x. x.0) (sym e) ∙ h in cc

  scale_fails : (q : ℕ) (s : State) (p : CtrlResult × AzureDevOps) → (scale env cr q s).0 ≢ ok p
  unfolding scale with_counts
  scale_fails q s p h =
      let n = determine_desired_replicas q cr.spec in
      let b = not (eqb_ℤ cr.status.desired_agents n) in
      let x = with_counts q n cr in
      let (y, stamped, e) = bind-eq-ok (stamp_scaling env b x) _ s h in
      let t = (stamp_scaling env b x s).1 in
      let work = wrapped "deployment reconciliation failed" (reconcile_deployment env y n) in
      let (u, done, f) = bind-eq-ok work _ t (ap (λ x. x.0) (sym e) ∙ h) in
      rejected y n t (stamped_mode b x y s stamped)
        (wrapped-eq-ok "deployment reconciliation failed" (reconcile_deployment env y n) t done)

  handle_fails :
      (client : AzureDevOpsClient) (s : State) (p : CtrlResult × AzureDevOps)
      → (handle env client cr s).0 ≢ ok p
  unfolding handle
  handle_fails client s p h =
      let checked = wrapped "secret validation failed" (
        validate_secrets env cr.meta.namespace cr.spec.pat_secret_ref
          cr.spec.image_pull_secret_ref) in
      let counted =
        wrapped "failed to get queue length" (get_queue_length env client cr.spec.pool_name) in
      let (u, valid, e) = bind-eq-ok checked (λ u. counted >>= scale env cr) s h in
      let t = (checked s).1 in
      let h' = ap (λ x. x.0) (sym e) ∙ h in
      let (q, got, f) = bind-eq-ok counted (scale env cr) t h' in
      scale_fails q (counted t).1 p (ap (λ x. x.0) (sym f) ∙ h')

  with_queue-HasError :
      (client : AzureDevOpsClient) (n : ℕ) → Gives HasError (with_queue env cr client n)
  unfolding with_queue
  with_queue-HasError client n =
      let status = cr.status in
      let copy = record cr { status = record status { queued_jobs = int32 n } } in
      Gives-failing (handle env client cr) _ _ (handle_fails client)
        (λ e. reported-HasError env copy _ _ _ _ e)

  with_token-HasError : (pat : String) → Gives HasError (with_token env cr pat)
  unfolding with_token
  with_token-HasError pat = Gives-bind (new_client pat cr.spec.org_url cr.spec.project) _ λ client.
      Gives-branch (get_queue_length env client cr.spec.pool_name) _ _ (with_queue-HasError client)
        (queue_failed-HasError env cr)

  -- Processing a resource in any mode but "Jobs" and "Deployment", the empty one included, never ends
  -- without an error, whatever the API server and Azure DevOps answer.
  pub process_rejects : (key : NamespacedName) → Gives HasError (process env key cr)
  unfolding process
  process_rejects key =
      Gives-bind (update_status env cr "Processing" (said "Reconciling Azure DevOps agent pool")) _
        λ u.
          Gives-branch (get_pat_token env cr.spec.pat_secret_ref key.namespace) (with_token env cr)
            _ with_token-HasError (λ e. reported-HasError env cr _ _ _ _ e)
