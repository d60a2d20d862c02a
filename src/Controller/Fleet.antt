-- ===== src/Controller/Fleet.antt =====
-- What a reconciliation without an error leaves, also behind reconciliations of other resources.
use azdo_kube_operator.Base.{
  ◌≡◌, refl, subst, ap, sym, ◌∙◌, ℕ, true, false, String, none, some, int32, if◌then◌else◌, ◌∷◌, [],
}
use azdo_kube_operator.Kube.{
  AzureDevOps, Deployment, NamespacedName, said, said_of, Error, reply, fail, not_found,
}
use azdo_kube_operator.World.{Env, State, Action, ◌>>◌, branch, Call, Log, ok, in_case}
use azdo_kube_operator.World.Inversion.{bind-eq-ok}
use azdo_kube_operator.Devops.{client_of, new_client, get_queue_length, finalizer_name}
use azdo_kube_operator.Kubernetes.{key_of}
use azdo_kube_operator.Kubernetes.Stores.{Store, same_key}
use azdo_kube_operator.Kubernetes.Cluster.{Serves, Owns}
use azdo_kube_operator.Kubernetes.Updates.{IsReflexive}
use azdo_kube_operator.Usecase.{
  CtrlResult, after, handle, determine_desired_replicas, calculate_requeue_interval,
}
use azdo_kube_operator.Usecase.Settled.{Settled, Finished, handle_settles}
use azdo_kube_operator.Controller.{
  Outcome, returned, update_status, get_pat_token, report, conclude, with_queue, queue_failed,
  with_token, process, reconcile_resource, add_finalizer, finalize, after_get_resource,
  after_get_pod, reconcile, no_delay, one_minute,
}
use azdo_kube_operator.Controller.Unseen.{view, conclude-Leaves}
use azdo_kube_operator.Controller.Frames.{reconcile-Leaves}
use azdo_kube_operator.Controller.Endings.{
  branch_clean, reported-HasError, queue_failed-HasError, conclude_result,
}

module _ (env : Env) (initial : Store Deployment) (serves : Serves env initial)
    (r : IsReflexive env.deep_equal) (owns : Owns env) where
  -- A length of the queue was read with some token, the Deployment of the resource is held and is the
  -- one that is wanted for it, and the resource is asked for again by it.
  pub Met : AzureDevOps → Outcome → Log → Type 0
  Met cr o l =
      (pat : String) × (q : ℕ) × ((t : State) × ((get_queue_length env
            (client_of pat cr.spec.org_url cr.spec.project) cr.spec.pool_name t).0
          ≡ ok q))
      × Settled env initial serves r owns cr (determine_desired_replicas q cr.spec) l
      × (o.result ≡ after (calculate_requeue_interval q (determine_desired_replicas q cr.spec)))

  Met-view :
      (cr : AzureDevOps) (o : Outcome) (a b : Log)
      → view env initial (key_of cr.meta) b ≡ view env initial (key_of cr.meta) a
      → Met cr o a
      → Met cr o b
  unfolding Met Settled
  Met-view cr o a b e (pat, q, read, (d, held, same), result) =
      (pat, q, read, (d, e ∙ held, same), result)

  Finished-Met :
      (cr changed : AzureDevOps) (pat : String) (q : ℕ) (result : CtrlResult) (o : Outcome)
      (l : Log)
      → ((t : State) × ((get_queue_length env
              (client_of pat cr.spec.org_url cr.spec.project)
              cr.spec.pool_name
              t).0
            ≡ ok q))
      → Finished env initial serves r owns cr q result changed l
      → o.result ≡ result
      → Met cr o l
  unfolding Finished Met
  Finished-Met cr changed pat q result o l read (held, next, desired, queued) e =
      (pat, q, read, held, e ∙ next)

  module _ (cr : AzureDevOps) (mode : cr.spec.mode ≡ "Deployment") (o : Outcome)
      (clean : o.error ≡ none) where
    with_queue-Met :
        (pat : String) (n : ℕ) (s : State)
        → let client = client_of pat cr.spec.org_url cr.spec.project in
          (with_queue env cr client n s).0 ≡ ok o → Met cr o (with_queue env cr client n s).1.log
    unfolding with_queue
    with_queue-Met pat n s h =
        let client = client_of pat cr.spec.org_url cr.spec.project in
        let status = cr.status in
        let copy = record cr { status = record status { queued_jobs = int32 n } } in
        let used = handle env client cr in
        let ((result, changed), done, e) =
          branch_clean used (conclude env copy)
            (λ e.
              report env copy "ReconcileError" (said_of "Failed to reconcile" e)
                (said_of "Reconciliation failed" e)
              >> returned (after no_delay) (some e))
            s o (λ e. reported-HasError env copy _ _ _ _ e) h clean in
        let t = (used s).1 in
        let (q, read, finished) =
          handle_settles env initial serves r owns client cr changed s result mode done in
        let kept = (conclude-Leaves env initial (key_of cr.meta) copy (result, changed)).at t in
        let ended =
          ((conclude_result env copy result changed).at t o (ap (λ x. x.0) (sym e) ∙ h)).0 in
        Met-view cr o t.log _ (ap (λ x. view env initial (key_of cr.meta) x.1.log) e ∙ kept)
          (Finished-Met cr changed pat q result o t.log read finished ended)

    with_token-Met :
        (pat : String) (s : State)
        → (with_token env cr pat s).0 ≡ ok o
        → Met cr o (with_token env cr pat s).1.log
    unfolding with_token new_client
    with_token-Met pat s h =
        let client = client_of pat cr.spec.org_url cr.spec.project in
        let counted = get_queue_length env client cr.spec.pool_name in
        let s' = record s { pool_id_cache = [] } in
        let (n, done, e) =
          branch_clean counted (with_queue env cr client) (queue_failed env cr) s' o
            (queue_failed-HasError env cr) h clean in
        subst (λ x. Met cr o x.1.log) (sym e)
          (with_queue-Met pat n (counted s').1 (ap (λ x. x.0) (sym e) ∙ h))

    process-Met :
        (key : NamespacedName) (s : State)
        → (process env key cr s).0 ≡ ok o
        → Met cr o (process env key cr s).1.log
    unfolding process
    process-Met key s h =
        let first =
          update_status env cr "Processing" (said "Reconciling Azure DevOps agent pool") in
        let look = get_pat_token env cr.spec.pat_secret_ref key.namespace in
        let refuse : Error → Action Outcome = λ e.
          report env cr "SecretError" (said "Failed to get PAT token")
            (said_of "Failed to get PAT token" e)
          >> returned (after one_minute) (some e) in
        let (u, told, e) = bind-eq-ok first (λ u. branch look (with_token env cr) refuse) s h in
        let t = (first s).1 in
        let h' = ap (λ x. x.0) (sym e) ∙ h in
        let (pat, found, f) =
          branch_clean look (with_token env cr) refuse t o (λ e. reported-HasError env cr _ _ _ _ e)
            h' clean in
        subst (λ x. Met cr o x.1.log) (sym (e ∙ f))
          (with_token-Met pat (look t).1 (ap (λ x. x.0) (sym f) ∙ h'))

    module _ (stays : cr.meta.deletion_timestamp ≡ none)
        (marked : env.contains_finalizer cr.meta finalizer_name ≡ true) (key : NamespacedName) where
      processed : (s : State) → reconcile_resource env key cr s ≡ process env key cr s
      unfolding reconcile_resource
      processed s =
          ap
            (λ d.
              in_case d
                (if env.contains_finalizer cr.meta finalizer_name
                  then process env key cr
                  else add_finalizer env cr)
                (λ t. finalize env key cr) s)
            stays
          ∙ ap (λ b. (if b then process env key cr else add_finalizer env cr) s) marked

      pub reads :
          (s : State)
          → env.get_pod s.log key ≡ fail not_found
          → env.get_resource (Call.get_pod key ∷ s.log) key ≡ reply cr
          → reconcile env key s
            ≡ process env key cr
                (record s { log = Call.get_resource key ∷ Call.get_pod key ∷ s.log })
      unfolding reconcile after_get_pod after_get_resource
      reads s no_pod got = rw (no_pod, got) (processed _)

      pub reconcile-Met :
          (s : State)
          → env.get_pod s.log key ≡ fail not_found
          → env.get_resource (Call.get_pod key ∷ s.log) key ≡ reply cr
          → (reconcile env key s).0 ≡ ok o
          → Met cr o (reconcile env key s).1.log
      reconcile-Met s no_pod got h =
          let e = reads s no_pod got in
          subst (λ x. Met cr o x.1.log) (sym e) (process-Met key _ (ap (λ x. x.0) (sym e) ∙ h))

-- Reconciliations under other keys than one, one after another, whatever they end in.
pub data Others (env : Env) (k : NamespacedName) : State → State → Type 0 where
  nobody : {s : State} → Others env k s s
  other :
      (key : NamespacedName) {s t : State}
      → same_key key k ≡ false
      → Others env k (reconcile env key s).1 t
      → Others env k s t

module _ (env : Env) (initial : Store Deployment) (serves : Serves env initial) (owns : Owns env)
    (own : (l : Log) (key : NamespacedName) (cr : AzureDevOps)
      → env.get_resource l key ≡ reply cr
      → key_of cr.meta ≡ key) where
  Others-view :
      (k : NamespacedName) {s t : State}
      → Others env k s t
      → view env initial k t.log ≡ view env initial k s.log
  Others-view k nobody = refl
  Others-view k (other key differs rest) =
      Others-view k rest
      ∙ (reconcile-Leaves env initial k serves owns key differs (λ l cr. own l key cr)).at _

  -- Where the API server answers by what it holds, with a resource that has the key that it is asked
  -- for, nobody else writes Deployments, DeepEqual is reflexive and owners can be set: a
  -- reconciliation without an error of a resource in the mode "Deployment" that has the finalizer and
  -- is not being deleted, with no pod of its name, has read a length of the queue, has left the
  -- Deployment that this length asks for, and asks to be called again by it; and however many
  -- reconciliations under other keys follow, in any order and with any outcome, the Deployment stays
  -- so.
  pub reconcile_settles :
      (r : IsReflexive env.deep_equal) (key : NamespacedName) (cr : AzureDevOps) (o : Outcome)
      (s : State) {t : State}
      → env.get_pod s.log key ≡ fail not_found
      → env.get_resource (Call.get_pod key ∷ s.log) key ≡ reply cr
      → cr.meta.deletion_timestamp ≡ none
      → env.contains_finalizer cr.meta finalizer_name ≡ true
      → cr.spec.mode ≡ "Deployment"
      → (reconcile env key s).0 ≡ ok o
      → o.error ≡ none
      → Others env (key_of cr.meta) (reconcile env key s).1 t
      → Met env initial serves r owns cr o t.log
  reconcile_settles r key cr o s no_pod got stays marked mode h clean others =
      Met-view env initial serves r owns cr o (reconcile env key s).1.log _
        (Others-view (key_of cr.meta) others)
        (reconcile-Met env initial serves r owns cr mode o clean stays marked key s no_pod got h)
