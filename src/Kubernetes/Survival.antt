-- ===== src/Kubernetes/Survival.antt =====
-- No work on the cluster panics.
use azdo_kube_operator.Base.{ℕ, zero, suc, ⊤, String, Option, none, some, ℤ}
use azdo_kube_operator.Kube.{AzureDevOps, Deployment, Job, Reply, reply, fail, ApiError, Secret}
use azdo_kube_operator.World.{Env, Action}
use azdo_kube_operator.World.Survival.{
  Survives, Survives-bind, Survives-pure, Survives-raise, survival_rules,
}
use azdo_kube_operator.Kubernetes.{
  get_secret, Texts, in_default, in_own, find_secret, validate_pull_secret, validate_secrets,
  create_deployment, after_update, send_update, update_existing, after_get, attempt_deployment,
  deployment_loop, Attempt, finished, retry, follow_attempt, reconcile_deployment_internal,
  create_job, after_job_update, send_job_update, update_job, after_get_job, apply_job,
  reconcile_job, reconcile_deployment,
}

module _ (env : Env) where
  in_default-Survives :
      (t : Texts) (name namespace : String) (r : Reply Secret)
      → Survives (in_default env t name namespace r)
  unfolding in_default
  in_default-Survives t name namespace (reply x) = search survival_rules
  in_default-Survives t name namespace (fail e) = search survival_rules

  in_own-Survives :
      (t : Texts) (name namespace : String) (r : Reply Secret)
      → Survives (in_own env t name namespace r)
  unfolding in_own get_secret
  in_own-Survives t name namespace (reply x) = search survival_rules
  in_own-Survives t name namespace (fail e) = search (survival_rules, in_default-Survives)

  find_secret-Survives :
      (t : Texts) (name namespace : String) → Survives (find_secret env t name namespace)
  unfolding find_secret get_secret
  find_secret-Survives t name namespace = search (survival_rules, in_own-Survives)

  pub validate_secrets-Survives :
      (namespace pat pull : String) → Survives (validate_secrets env namespace pat pull)
  unfolding validate_secrets validate_pull_secret
  validate_secrets-Survives namespace pat pull =
      search (survival_rules, find_secret-Survives) depth 10

  after_update-Survives : (n : ℕ) (o : Option ApiError) → Survives (after_update env n o)
  unfolding after_update
  after_update-Survives n none = search survival_rules
  after_update-Survives n (some e) = search survival_rules

  after_get-Survives :
      (n : ℕ) (d : Deployment) (r : Reply Deployment) → Survives (after_get env n d r)
  unfolding after_get create_deployment update_existing send_update
  after_get-Survives n d (reply x) = search (survival_rules, after_update-Survives)
  after_get-Survives n d (fail e) = search survival_rules

  attempt_deployment-Survives : (n : ℕ) (d : Deployment) → Survives (attempt_deployment env n d)
  unfolding attempt_deployment
  attempt_deployment-Survives n d = search (survival_rules, after_get-Survives)

  follow_attempt-Survives :
      (a : Attempt) (m : Action ⊤) → Survives m → Survives (follow_attempt a m)
  follow_attempt-Survives finished m k = Survives-pure tt
  follow_attempt-Survives retry m k = k

  deployment_loop-Survives : (n i : ℕ) (d : Deployment) → Survives (deployment_loop env n i d)
  unfolding deployment_loop
  deployment_loop-Survives zero i d = Survives-raise _
  deployment_loop-Survives (suc n) i d =
      Survives-bind _ _ (attempt_deployment-Survives i d)
        (λ a. follow_attempt-Survives a _ (deployment_loop-Survives n (suc i) d))

  after_job_update-Survives : (o : Option ApiError) → Survives (after_job_update env o)
  unfolding after_job_update
  after_job_update-Survives none = search survival_rules
  after_job_update-Survives (some e) = search survival_rules

  after_get_job-Survives : (d : Job) (r : Reply Job) → Survives (after_get_job env d r)
  unfolding after_get_job create_job update_job send_job_update
  after_get_job-Survives d (reply x) = search (survival_rules, after_job_update-Survives)
  after_get_job-Survives d (fail e) = search survival_rules

  pub reconcile_deployment-Survives :
      (cr : AzureDevOps) (n : ℤ) → Survives (reconcile_deployment env cr n)
  unfolding reconcile_deployment reconcile_job apply_job reconcile_deployment_internal
  reconcile_deployment-Survives cr n =
      search (survival_rules, after_get_job-Survives, deployment_loop-Survives) depth 10
