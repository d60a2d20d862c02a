-- ===== src/Kubernetes/Deployments.antt =====
-- reconcile_deployment.go: `reconcileDeploymentInternal`.
use azdo_kube_operator.Base.{
  ℕ, zero, suc, ◌*◌, ⊤, Bool, ◌||◌, not, Option, none, some, [], pos, insert, if◌then◌else◌,
}
use azdo_kube_operator.Kube.{
  ObjectMeta, NamespacedName, named, ApiError, is_not_found, is_conflict, Reply, reply, fail,
  api_error, wrap, fault, AzureDevOps, Deployment, DeploymentSpec, PodTemplateSpec,
}
use azdo_kube_operator.World.{
  Env, DeepEqual, Action, pure, raise, lift, lift_error, wrapped, ◌>>=◌, ◌>>◌, Call, call,
}
use azdo_kube_operator.Devops.{second}

-- The two labels that are set on each object.
unfoldable pub add_standard_labels : ObjectMeta → ObjectMeta
unfolding insert
add_standard_labels m = record m {
  labels =
      insert "app.kubernetes.io/name" m.name
        (insert "app.kubernetes.io/managed-by" "azure-devops-controller" m.labels);
}

abbrev pub key_of : ObjectMeta → NamespacedName
key_of m = named m.name m.namespace

-- `if !DeepEqual(have, want) { have = want; needsUpdate = true }`
abbrev pub changed : {A : Type 0} → (A → A → Bool) → A → A → A
changed eq have want = if eq have want then have else want

module _ (eq : DeepEqual) where
  -- The five comparisons.
  unfoldable pub needs_update : DeploymentSpec → DeploymentSpec → Bool
  needs_update have want =
      not (eq.replicas have.replicas want.replicas)
      || not (eq.pod_spec have.template.spec want.template.spec)
      || not (eq.labels have.template.labels want.template.labels)
      || not (eq.labels have.template.annotations want.template.annotations)
      || not (eq.labels have.selector want.selector)

  unfoldable pub updated_template : PodTemplateSpec → PodTemplateSpec → PodTemplateSpec
  updated_template have want = record have {
    spec = changed eq.pod_spec have.spec want.spec;
    labels = changed eq.labels have.labels want.labels;
    annotations = changed eq.labels have.annotations want.annotations;
  }

  unfoldable pub updated_spec : DeploymentSpec → DeploymentSpec → DeploymentSpec
  unfolding updated_template
  updated_spec have want = record have {
    replicas = changed eq.replicas have.replicas want.replicas;
    template = updated_template have.template want.template;
    selector = changed eq.labels have.selector want.selector;
  }

  -- The copy of the existing object with what differs taken over.
  unfoldable pub updated_deployment : Deployment → Deployment → Deployment
  unfolding updated_spec
  updated_deployment existing desired = record existing {
    spec = updated_spec existing.spec desired.spec;
  }

-- How one round of the loop ends.
pub data Attempt : Type 0 where
  finished : Attempt
  retry : Attempt

abbrev pub follow_attempt : Attempt → Action ⊤ → Action ⊤
follow_attempt finished rest = pure tt
follow_attempt retry rest = rest

module _ (env : Env) where
  unfoldable pub create_deployment : Deployment → Action Attempt
  create_deployment d = do
    refused ← call (Call.create_deployment d) (λ l. env.create_deployment l d)
    wrapped "failed to create Deployment" (lift_error refused)
    pure finished

  -- The answer to the update; a conflict is waited for and tried again.
  unfoldable pub after_update : ℕ → Option ApiError → Action Attempt
  after_update retries none = pure finished
  after_update retries (some e) =
      if is_conflict e
      then call (Call.sleep (pos (second * suc retries))) (λ l. retry)
      else raise (wrap "failed to update Deployment" (api_error e))

  unfoldable pub send_update : ℕ → Deployment → Action Attempt
  unfolding after_update
  send_update retries updated =
      call (Call.update_deployment updated) (λ l. env.update_deployment l updated)
      >>= after_update retries

  unfoldable pub update_existing : ℕ → Deployment → Deployment → Action Attempt
  unfolding send_update
  update_existing retries desired existing =
      if needs_update env.deep_equal existing.spec desired.spec
      then send_update retries (updated_deployment env.deep_equal existing desired)
      else pure finished

  unfoldable pub after_get : ℕ → Deployment → Reply Deployment → Action Attempt
  unfolding create_deployment update_existing
  after_get retries desired (reply existing) = update_existing retries desired existing
  after_get retries desired (fail e) =
      if is_not_found e
      then create_deployment desired
      else raise (wrap "failed to get existing Deployment" (api_error e))

  unfoldable pub attempt_deployment : ℕ → Deployment → Action Attempt
  unfolding after_get
  attempt_deployment retries desired =
      let key = key_of desired.meta in
      call (Call.get_deployment key) (λ l. env.get_deployment l key) >>= after_get retries desired

  -- The loop, by the number of rounds left.
  unfoldable pub deployment_loop : ℕ → ℕ → Deployment → Action ⊤
  unfolding attempt_deployment
  deployment_loop zero retries desired =
      raise (fault "failed to update Deployment after retries" [])
  deployment_loop (suc n) retries desired = do
    ended ← attempt_deployment retries desired
    follow_attempt ended (deployment_loop n (suc retries) desired)

  unfoldable pub reconcile_deployment_internal : AzureDevOps → Deployment → Action ⊤
  unfolding add_standard_labels deployment_loop
  reconcile_deployment_internal cr desired = do
    meta ←
        wrapped "failed to set controller reference"
          (lift (env.set_controller_reference cr desired.meta))
    deployment_loop 3 0 (record desired { meta = add_standard_labels meta })
