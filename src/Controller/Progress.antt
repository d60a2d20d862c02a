-- ===== src/Controller/Progress.antt =====
-- A reconciliation in surroundings that work succeeds.
use azdo_kube_operator.Kube.{named}
use azdo_kube_operator.Usecase.Progress.{Same, handle-Yields}
use azdo_kube_operator.Base.{Option, subst, ◌≢◌, concat, concat-ne, str_ne, []}
use azdo_kube_operator.Controller.{deployment_key, queue_failed}
use azdo_kube_operator.Base.{
  ◌≡◌, refl, ap, sym, ◌∙◌, ℕ, true, false, none, some, ◌∷◌, int32, String,
}
use azdo_kube_operator.Kube.{
  AzureDevOps, Deployment, NamespacedName, said, Error, reply, fail, not_found,
}
use azdo_kube_operator.World.{Env, State, Action, Call, Log, ok, raise, branch}
use azdo_kube_operator.World.Views.{Leaves}
use azdo_kube_operator.Controller.Unseen.{
  view, update_status-Leaves, get_pat_token-Leaves, get_queue_length-Leaves,
}
use azdo_kube_operator.Controller.Frames.{handle-Leaves}
use azdo_kube_operator.World.Yields.{Yields, Any, Returns-Yields}
use azdo_kube_operator.Devops.{
  AzureDevOpsClient, client_of, get_queue_length, new_client, finalizer_name,
}
use azdo_kube_operator.Devops.Available.{Available, get_queue_length-Yields}
use azdo_kube_operator.Kubernetes.{key_of, validate_secrets}
use azdo_kube_operator.Kubernetes.Stores.{Store, same_key, found}
use azdo_kube_operator.Kubernetes.Cluster.{deployments, Serves, Owns}
use azdo_kube_operator.Kubernetes.Updates.{IsReflexive}
use azdo_kube_operator.Usecase.{CtrlResult}
use azdo_kube_operator.Controller.{
  Outcome, get_pat_token, conclude, with_queue, with_token, process, reconcile,
}
use azdo_kube_operator.Controller.Agreement.{validate_secrets-get_pat_token}
use azdo_kube_operator.Controller.Endings.{conclude_result}
use azdo_kube_operator.Controller.Returns.{conclude_returns, update_status-Returns}
use azdo_kube_operator.Controller.Fleet.{Met, reads, reconcile-Met}

abbrev IsClean : Outcome → Type 0
IsClean o = o.error ≡ none

found-reply : {V : Type 0} (o : Option V) (v : V) → found o ≡ reply v → o ≡ some v
found-reply none v h = cc
found-reply (some w) v h = let same : w ≡ v = cc in ap some same

module _ (env : Env) (initial : Store Deployment) (serves : Serves env initial) (owns : Owns env)
    (available : Available env)
    (stable : (l l' : Log) (k : NamespacedName) → env.get_secret l k ≡ env.get_secret l' k) where
  module _ (cr : AzureDevOps) (mode : cr.spec.mode ≡ "Deployment")
      (valid : (t : State)
        → (validate_secrets env cr.meta.namespace cr.spec.pat_secret_ref
            cr.spec.image_pull_secret_ref t).0
          ≡ ok tt) where
    -- What is held under the key of the Deployment that is asked for its counts.
    abbrev watched : Log → Option Deployment
    watched = view env initial (deployment_key cr)

    abbrev IsCounted : Option Deployment → Type 0
    IsCounted o = (d : Deployment) → o ≡ some d → d.spec.replicas ≢ none

    -- A success, where the Deployment that is asked for its counts has a number of replicas.
    record Succeeds (m : Action Outcome) : Type 0 where
      at : (s : State) → IsCounted (watched s.log) → (o : Outcome) × ((m s).0 ≡ ok o) × IsClean o

    Succeeds-branch :
        {A : Type 0} {P : A → Type 0} (m : Action A) (f : A → Action Outcome)
        (g : Error → Action Outcome)
        → Yields P m
        → Leaves watched m
        → ((a : A) → P a → Succeeds (f a))
        → Succeeds (branch m f g)
    Succeeds-branch m f g yields leaves k = record {
      at = λ s counted.
          let (a, e, p) = yields.at s in
          let same = sym (leaves.at s) in rw e ((k a p).at (m s).1 (subst IsCounted same counted));
    }

    conclude-Succeeds :
        (copy : AzureDevOps) (p : CtrlResult × AzureDevOps)
        → Same env initial serves owns available cr mode valid p
        → Succeeds (conclude env copy p)
    unfolding Same deployment_key
    conclude-Succeeds copy (result, changed) same = record {
      at = λ s counted.
          let (o, e) = conclude_returns env copy result changed s (λ d got. counted d (
            ap (λ m. deployments initial s.log (named (concat m.name "-agent") m.namespace))
              (sym same)
            ∙ found-reply _ d (sym (serves.reads s.log (deployment_key changed)) ∙ got))) in
          (o, e, ((conclude_result env copy result changed).at s o e).1);
    }

    apart : same_key (key_of cr.meta) (deployment_key cr) ≡ false
    unfolding deployment_key
    apart =
        rw
          (str_ne cr.meta.name (concat cr.meta.name "-agent")
            (λ e. concat-ne cr.meta.name _ _ (sym e)))
          refl

    with_queue-Succeeds :
        (client : AzureDevOpsClient) (n : ℕ) → Succeeds (with_queue env cr client n)
    unfolding with_queue
    with_queue-Succeeds client n =
        let status = cr.status in
        let copy = record cr { status = record status { queued_jobs = int32 n } } in
        Succeeds-branch _ _ _ (handle-Yields env initial serves owns available cr mode valid client)
          (handle-Leaves env initial (deployment_key cr) serves owns cr apart client)
          (λ p same. conclude-Succeeds copy p same)

    with_token-Succeeds : (pat : String) → Succeeds (with_token env cr pat)
    unfolding with_token new_client
    with_token-Succeeds pat = record {
      at = λ s counted.
          let client = client_of pat cr.spec.org_url cr.spec.project in
          (Succeeds-branch (get_queue_length env client cr.spec.pool_name)
              (with_queue env cr client) (queue_failed env cr)
              (get_queue_length-Yields env available client cr.spec.pool_name)
              (get_queue_length-Leaves env initial (deployment_key cr) client cr.spec.pool_name)
              (λ n v. with_queue-Succeeds client n)).at
            (record s { pool_id_cache = [] }) counted;
    }

    process-Succeeds :
        (key : NamespacedName) → cr.meta.namespace ≡ key.namespace → Succeeds (process env key cr)
    unfolding process
    process-Succeeds key own =
        let token : Yields Any (get_pat_token env cr.spec.pat_secret_ref key.namespace) = record {
          at = λ s.
              let (pat, e) =
                validate_secrets-get_pat_token env stable cr.meta.namespace cr.spec.pat_secret_ref
                  cr.spec.image_pull_secret_ref s s (valid s) in
              (pat, ap (λ m. (get_pat_token env cr.spec.pat_secret_ref m s).0) (sym own) ∙ e, tt);
        } in
        Succeeds-branch _ _ raise
          (Returns-Yields _ (
            update_status-Returns env cr "Processing" (said "Reconciling Azure DevOps agent pool")))
          (update_status-Leaves env initial (deployment_key cr) cr "Processing"
            (said "Reconciling Azure DevOps agent pool"))
          λ u v.
            Succeeds-branch _ _ _ token
              (get_pat_token-Leaves env initial (deployment_key cr) cr.spec.pat_secret_ref
                key.namespace)
              (λ pat w. with_token-Succeeds pat)

    -- Where the API server answers by what it holds and alike about secrets, nobody else writes
    -- Deployments, DeepEqual is reflexive, owners can be set, the rate limiter passes, addresses parse,
    -- and Azure DevOps answers each request with the status 200 and a body that can be read, with a
    -- pool where pools are asked for: the reconciliation of a resource in the mode "Deployment", in the
    -- namespace of the request, whose secrets pass the validation at all times, that has the finalizer
    -- and is not being deleted, with no pod of its name and no Deployment without a number of replicas
    -- under the name that the counts are asked of, ends without an error, and has left the Deployment
    -- that a length of the queue asks for.
    pub reconcile_succeeds :
        (r : IsReflexive env.deep_equal) (key : NamespacedName) (s : State)
        → env.get_pod s.log key ≡ fail not_found
        → env.get_resource (Call.get_pod key ∷ s.log) key ≡ reply cr
        → cr.meta.namespace ≡ key.namespace
        → cr.meta.deletion_timestamp ≡ none
        → env.contains_finalizer cr.meta finalizer_name ≡ true
        → ((d : Deployment)
            → deployments initial s.log (deployment_key cr) ≡ some d
            → d.spec.replicas ≢ none)
        → (o : Outcome) × ((reconcile env key s).0 ≡ ok o)
          × (o.error ≡ none)
          × Met env initial serves r owns cr o (reconcile env key s).1.log
    unfolding deployments
    reconcile_succeeds r key s no_pod got own stays marked counted =
        let s' = record s { log = Call.get_resource key ∷ Call.get_pod key ∷ s.log } in
        let (o, ended, clean) = (process-Succeeds key own).at s' counted in
        let h =
          ap (λ x. x.0)
            (reads env initial serves r owns cr mode o clean stays marked key s no_pod got)
          ∙ ended in
        (
          o,
          h,
          clean,
          reconcile-Met env initial serves r owns cr mode o clean stays marked key s no_pod got h,
        )
