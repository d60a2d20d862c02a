-- ===== src/Usecase/Settled.antt =====
-- What a use case that succeeds leaves in the cluster.
use azdo_kube_operator.Base.{
  String, subst, str_eq, if◌then◌else◌, [], ◌∷◌, ℕ, false, Bool-cases, inl, inr, some, ◌≡◌, refl,
  ap, sym, ◌∙◌, ℤ, eqb_ℤ, int32, ⊤,
}
use azdo_kube_operator.Kube.{Error, fault, word, AzureDevOps, Deployment}
use azdo_kube_operator.World.{
  Call, Action, raise, Result, err, panic, resume, Env, State, ok, wrapped, pure, ◌>>=◌, ◌>>◌, Log,
}
use azdo_kube_operator.World.Inversion.{bind-eq-ok, wrapped-eq-ok}
use azdo_kube_operator.Devops.{AzureDevOpsClient, get_queue_length}
use azdo_kube_operator.Kubernetes.{
  desired_job, reconcile_job, key_of, needs_update, add_standard_labels, desired_deployment,
  reconcile_deployment, reconcile_deployment_internal, validate_secrets,
}
use azdo_kube_operator.Kubernetes.Stores.{Store, put-same_key}
use azdo_kube_operator.Kubernetes.Cluster.{deployments, Serves, Owns}
use azdo_kube_operator.Kubernetes.Updates.{IsReflexive}
use azdo_kube_operator.Kubernetes.Refinement.{
  settled, settled_equal, reconcile_deployment_internal_refines,
}
use azdo_kube_operator.Usecase.{
  CtrlResult, after, handle, scale, stamp_scaling, with_counts, determine_desired_replicas,
  calculate_requeue_interval,
}

pub as_deployment :
    (env : Env) (cr : AzureDevOps) (n : ℤ) (s : State)
    → cr.spec.mode ≡ "Deployment"
    → reconcile_deployment env cr n s
      ≡ reconcile_deployment_internal env cr (desired_deployment cr n) s
unfolding reconcile_deployment
as_deployment env cr n s mode =
    ap
      (λ m.
        (if str_eq m "Jobs"
            then reconcile_job env cr (desired_job cr)
            else if str_eq m "Deployment"
            then reconcile_deployment_internal env cr (desired_deployment cr n)
            else raise (fault "mode non supporté : %s" (word cr.spec.docker ∷ [])))
          s)
      mode

ok_pair : {A : Type 0} {a b : A} → Result.ok a ≡ ok b → a ≡ b
ok_pair h = cc

module _ (env : Env) (initial : Store Deployment) (serves : Serves env initial)
    (r : IsReflexive env.deep_equal) (owns : Owns env) where
  -- The Deployment of the resource is held and is the one that is wanted for a number of agents.
  unfoldable pub Settled : AzureDevOps → ℤ → Log → Type 0
  Settled cr n l =
      (d : Deployment) × (deployments initial l (key_of cr.meta) ≡ some d)
      × (needs_update env.deep_equal d.spec (desired_deployment cr n).spec ≡ false)

  internal-Settled :
      (cr : AzureDevOps) (n : ℤ) (s : State)
      → Settled cr n (reconcile_deployment_internal env cr (desired_deployment cr n) s).1.log
  unfolding Settled desired_deployment
  internal-Settled cr n s =
      let desired = desired_deployment cr n in
      let meta = owns.owned cr desired.meta in
      let wanted = record desired { meta = add_standard_labels meta } in
      let held = deployments initial s.log in
      let left =
        reconcile_deployment_internal_refines env initial serves cr desired meta s
          (owns.sets cr desired.meta) in
      let d = settled env.deep_equal wanted (held (key_of meta)) in
      (
        d,
        ap (deployments initial (reconcile_deployment_internal env cr desired s).1.log)
              (sym (owns.keeps cr desired.meta))
            ∙ left.1 (key_of meta)
            ∙ put-same_key (key_of meta) d held,
        settled_equal env.deep_equal r wanted (held (key_of meta)),
      )

  reconcile_deployment-Settled :
      (cr : AzureDevOps) (n : ℤ) (s : State)
      → cr.spec.mode ≡ "Deployment"
      → Settled cr n (reconcile_deployment env cr n s).1.log
  reconcile_deployment-Settled cr n s mode =
      subst (λ x. Settled cr n x.1.log) (sym (as_deployment env cr n s mode))
        (internal-Settled cr n s)

  wrapped_state :
      (label : String) (x : Result ⊤) (s : State)
      → (resume x pure (λ e. raise (Error.wrap label e)) s).1 ≡ s
  wrapped_state label (ok u) s = refl
  wrapped_state label (err e) s = refl
  wrapped_state label panic s = refl

  -- The last steps of `Handle`, for the resource as it was changed.
  closing : AzureDevOps → ℤ → CtrlResult → Action (CtrlResult × AzureDevOps)
  closing x n result = do
    wrapped "deployment reconciliation failed" (reconcile_deployment env x n)
    pure (result, x)

  closing-Settled :
      (x : AzureDevOps) (n : ℤ) (result : CtrlResult) (s : State) (p : CtrlResult × AzureDevOps)
      → x.spec.mode ≡ "Deployment"
      → (closing x n result s).0 ≡ ok p
      → Settled x n (closing x n result s).1.log × (p ≡ (result, x))
  unfolding closing
  closing-Settled x n result s p mode h =
      let work = wrapped "deployment reconciliation failed" (reconcile_deployment env x n) in
      let last : ⊤ → Action (CtrlResult × AzureDevOps) = λ u. pure (result, x) in
      let (u, done, e) = bind-eq-ok work last s h in
      let same : (work s).1 ≡ (reconcile_deployment env x n s).1 =
        wrapped_state "deployment reconciliation failed" (reconcile_deployment env x n s).0
          (reconcile_deployment env x n s).1 in
      (
        subst (λ l. Settled x n l) (sym (ap (λ y. y.1.log) e ∙ ap (λ y. y.log) same))
            (reconcile_deployment-Settled x n s mode),
        ok_pair (sym h ∙ ap (λ y. y.0) e),
      )

  -- What holds of a use case that succeeds with `n` agents.
  unfoldable pub Finished : AzureDevOps → ℕ → CtrlResult → AzureDevOps → Log → Type 0
  Finished cr q result changed l =
      let n = determine_desired_replicas q cr.spec in
      Settled cr n l
      × (result ≡ after (calculate_requeue_interval q n))
      × (changed.status.desired_agents ≡ n)
      × (changed.status.queued_jobs ≡ int32 q)

  scale-Finished :
      (cr : AzureDevOps) (q : ℕ) (s : State) (result : CtrlResult) (changed : AzureDevOps)
      → cr.spec.mode ≡ "Deployment"
      → (scale env cr q s).0 ≡ ok (result, changed)
      → Finished cr q result changed (scale env cr q s).1.log
  unfolding scale stamp_scaling with_counts closing Finished Settled desired_deployment
  scale-Finished cr q s result changed mode h =
      let n = determine_desired_replicas q cr.spec in
      let next = after (calculate_requeue_interval q n) in
      elim (Bool-cases (eqb_ℤ cr.status.desired_agents n)) [
        | inl e ↦
            let (held, p) =
              closing-Settled (with_counts q n cr) n next s (result, changed) mode (rw e at h) in
            rw e (
              held,
              ap (λ y. y.0) p,
              ap (λ y. y.1.status.desired_agents) p,
              ap (λ y. y.1.status.queued_jobs) p,
            )
        | inr e ↦
            let counted = with_counts q n cr in
            let status = counted.status in
            let x = record counted {
              status = record status { last_scaling_time = some (env.clock s.log) };
            } in
            let (held, p) =
              closing-Settled x n next (record s { log = Call.clock ∷ s.log }) (result, changed)
                mode (rw e at h) in
            rw e (
              held,
              ap (λ y. y.0) p,
              ap (λ y. y.1.status.desired_agents) p,
              ap (λ y. y.1.status.queued_jobs) p,
            )
      ]

  -- Where the API server answers by what it holds, nobody else writes Deployments, DeepEqual is
  -- reflexive and the owner can be set, a use case that succeeds in the mode "Deployment" has read a
  -- length of the queue, and leaves under the resource's key a Deployment that differs in nothing
  -- that is compared from the one wanted for the number of agents that the length asks for; the status
  -- that it gives tells both counts, and it asks to be called again by them.
  pub handle_settles :
      (client : AzureDevOpsClient) (cr changed : AzureDevOps) (s : State) (result : CtrlResult)
      → cr.spec.mode ≡ "Deployment"
      → (handle env client cr s).0 ≡ ok (result, changed)
      → (q : ℕ) × ((t : State) × ((get_queue_length env client cr.spec.pool_name t).0 ≡ ok q))
        × Finished cr q result changed (handle env client cr s).1.log
  unfolding handle
  handle_settles client cr changed s result mode h =
      let checked = wrapped "secret validation failed" (
        validate_secrets env cr.meta.namespace cr.spec.pat_secret_ref
          cr.spec.image_pull_secret_ref) in
      let counted =
        wrapped "failed to get queue length" (get_queue_length env client cr.spec.pool_name) in
      let (u, valid, e) = bind-eq-ok checked (λ u. counted >>= scale env cr) s h in
      let t = (checked s).1 in
      let h' = ap (λ x. x.0) (sym e) ∙ h in
      let (q, got, f) = bind-eq-ok counted (scale env cr) t h' in
      (
        q,
        (
          t,
          wrapped-eq-ok "failed to get queue length" (get_queue_length env client cr.spec.pool_name)
              t got,
        ),
        subst (λ x. Finished cr q result changed x.1.log) (sym (e ∙ f))
            (scale-Finished cr q (counted t).1 result changed mode (ap (λ x. x.0) (sym f) ∙ h')),
      )
