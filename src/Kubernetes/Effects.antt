-- ===== src/Kubernetes/Effects.antt =====
-- Which calls the work on the cluster makes.
use azdo_kube_operator.Base.{ℕ, zero, suc, ⊤, String, Option, none, some, ℤ}
use azdo_kube_operator.Kube.{
  AzureDevOps, Deployment, Job, NamespacedName, Reply, reply, fail, ApiError, Secret,
}
use azdo_kube_operator.World.{Env, Call, Action}
use azdo_kube_operator.World.Footprint.{Adds, Adds-pure, Adds-bind, Adds-raise, adds_rules}
use azdo_kube_operator.Kubernetes.{
  get_secret, Texts, in_default, in_own, find_secret, validate_pull_secret, validate_secrets,
  create_deployment, after_update, send_update, update_existing, after_get, attempt_deployment,
  deployment_loop, Attempt, finished, retry, follow_attempt, reconcile_deployment_internal,
  create_job, after_job_update, send_job_update, update_job, after_get_job, apply_job,
  reconcile_job, reconcile_deployment,
}

-- Reads of secrets, reads, creations and updates of Deployments and Jobs, and pauses.
pub data ClusterCalls : Call → Type 0 where
  reads_secret : {k : NamespacedName} → ClusterCalls (Call.get_secret k)
  reads_deployment : {k : NamespacedName} → ClusterCalls (Call.get_deployment k)
  reads_job : {k : NamespacedName} → ClusterCalls (Call.get_job k)
  makes_deployment : {d : Deployment} → ClusterCalls (Call.create_deployment d)
  updates_deployment : {d : Deployment} → ClusterCalls (Call.update_deployment d)
  makes_job : {j : Job} → ClusterCalls (Call.create_job j)
  updates_job : {j : Job} → ClusterCalls (Call.update_job j)
  sleeps : {d : ℤ} → ClusterCalls (Call.sleep d)

ruleset cluster_rules = (
  reads_secret, reads_deployment, reads_job, makes_deployment, updates_deployment, makes_job,
  updates_job, sleeps,
)

-- The validation of secrets makes no calls but reads of secrets.
module _ (env : Env) {P : Call → Type 0}
    (reads : (k : NamespacedName) → P (Call.get_secret k)) where
  in_default-Adds :
      (t : Texts) (name namespace : String) (r : Reply Secret)
      → Adds P (in_default env t name namespace r)
  unfolding in_default
  in_default-Adds t name namespace (reply x) = search adds_rules
  in_default-Adds t name namespace (fail e) = search adds_rules

  in_own-Adds :
      (t : Texts) (name namespace : String) (r : Reply Secret)
      → Adds P (in_own env t name namespace r)
  unfolding in_own get_secret
  in_own-Adds t name namespace (reply x) = search adds_rules
  in_own-Adds t name namespace (fail e) = search (adds_rules, in_default-Adds)

  find_secret-Adds :
      (t : Texts) (name namespace : String) → Adds P (find_secret env t name namespace)
  unfolding find_secret get_secret
  find_secret-Adds t name namespace = search (adds_rules, in_own-Adds)

  validate_pull_secret-Adds :
      (namespace name : String) → Adds P (validate_pull_secret env namespace name)
  unfolding validate_pull_secret
  validate_pull_secret-Adds namespace name = search (adds_rules, find_secret-Adds)

  pub validate_secrets-Adds :
      (namespace pat pull : String) → Adds P (validate_secrets env namespace pat pull)
  unfolding validate_secrets
  validate_secrets-Adds namespace pat pull =
      search (adds_rules, find_secret-Adds, validate_pull_secret-Adds)

-- The reconciliation of a Job makes no calls but those on Jobs.
module _ (env : Env) {P : Call → Type 0} (reads : (k : NamespacedName) → P (Call.get_job k))
    (makes : (j : Job) → P (Call.create_job j)) (updates : (j : Job) → P (Call.update_job j)) where
  after_job_update-Adds : (o : Option ApiError) → Adds P (after_job_update env o)
  unfolding after_job_update
  after_job_update-Adds none = search adds_rules
  after_job_update-Adds (some e) = search adds_rules

  after_get_job-Adds : (d : Job) (r : Reply Job) → Adds P (after_get_job env d r)
  unfolding after_get_job create_job update_job send_job_update
  after_get_job-Adds d (reply x) = search (adds_rules, after_job_update-Adds)
  after_get_job-Adds d (fail e) = search (adds_rules)

  pub reconcile_job-Adds : (cr : AzureDevOps) (d : Job) → Adds P (reconcile_job env cr d)
  unfolding reconcile_job apply_job
  reconcile_job-Adds cr d = search (adds_rules, after_get_job-Adds)

module _ (env : Env) where
  pub validate_secrets-ClusterCalls :
      (namespace pat pull : String) → Adds ClusterCalls (validate_secrets env namespace pat pull)
  validate_secrets-ClusterCalls namespace pat pull =
      validate_secrets-Adds env (λ k. reads_secret) namespace pat pull

  reconcile_job-ClusterCalls :
      (cr : AzureDevOps) (d : Job) → Adds ClusterCalls (reconcile_job env cr d)
  reconcile_job-ClusterCalls cr d =
      reconcile_job-Adds env (λ k. reads_job) (λ j. makes_job) (λ j. updates_job) cr d

  after_update-ClusterCalls :
      (n : ℕ) (o : Option ApiError) → Adds ClusterCalls (after_update env n o)
  unfolding after_update
  after_update-ClusterCalls n none = search adds_rules
  after_update-ClusterCalls n (some e) = search (adds_rules, cluster_rules)

  after_get-ClusterCalls :
      (n : ℕ) (d : Deployment) (r : Reply Deployment) → Adds ClusterCalls (after_get env n d r)
  unfolding after_get create_deployment update_existing send_update
  after_get-ClusterCalls n d (reply x) =
      search (adds_rules, cluster_rules, after_update-ClusterCalls)
  after_get-ClusterCalls n d (fail e) = search (adds_rules, cluster_rules)

  attempt_deployment-ClusterCalls :
      (n : ℕ) (d : Deployment) → Adds ClusterCalls (attempt_deployment env n d)
  unfolding attempt_deployment
  attempt_deployment-ClusterCalls n d = search (adds_rules, cluster_rules, after_get-ClusterCalls)

  follow_attempt-ClusterCalls :
      (a : Attempt) (m : Action ⊤) → Adds ClusterCalls m → Adds ClusterCalls (follow_attempt a m)
  follow_attempt-ClusterCalls finished m k = Adds-pure tt
  follow_attempt-ClusterCalls retry m k = k

  deployment_loop-ClusterCalls :
      (n i : ℕ) (d : Deployment) → Adds ClusterCalls (deployment_loop env n i d)
  unfolding deployment_loop
  deployment_loop-ClusterCalls zero i d = Adds-raise _
  deployment_loop-ClusterCalls (suc n) i d =
      Adds-bind _ _ (attempt_deployment-ClusterCalls i d)
        (λ a. follow_attempt-ClusterCalls a _ (deployment_loop-ClusterCalls n (suc i) d))

  reconcile_deployment_internal-ClusterCalls :
      (cr : AzureDevOps) (d : Deployment)
      → Adds ClusterCalls (reconcile_deployment_internal env cr d)
  unfolding reconcile_deployment_internal
  reconcile_deployment_internal-ClusterCalls cr d =
      search (adds_rules, deployment_loop-ClusterCalls)

  pub reconcile_deployment-ClusterCalls :
      (cr : AzureDevOps) (n : ℤ) → Adds ClusterCalls (reconcile_deployment env cr n)
  unfolding reconcile_deployment
  reconcile_deployment-ClusterCalls cr n =
      search (adds_rules, reconcile_job-ClusterCalls, reconcile_deployment_internal-ClusterCalls)
