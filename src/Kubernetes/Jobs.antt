-- ===== src/Kubernetes/Jobs.antt =====
-- reconcile_job.go: `ReconcileJob`.
use azdo_kube_operator.Base.{
  ⊤, Bool, true, false, ◌||◌, ◌&&◌, not, String, Option, none, some, List, [], ◌∷◌, any, str_eq,
  if◌then◌else◌,
}
use azdo_kube_operator.Kube.{
  ApiError, is_not_found, is_conflict, Reply, reply, fail, api_error, wrap, AzureDevOps, Job,
  JobCondition, JobConditionType, job_complete, job_failed, other_condition, PodTemplateSpec,
  ObjectMeta,
}
use azdo_kube_operator.World.{
  Env, DeepEqual, Action, pure, raise, lift, lift_error, wrapped, ◌>>=◌, Call, call,
}
use azdo_kube_operator.Kubernetes.Deployments.{add_standard_labels, key_of, changed}

abbrev pub ends_job : JobConditionType → Bool
ends_job job_complete = true
ends_job job_failed = true
ends_job (other_condition s) = false

unfoldable pub is_job_finished : Job → Bool
is_job_finished job = any (λ c. ends_job c.type && str_eq c.status "True") job.conditions

abbrev pub condition_name : JobConditionType → String
condition_name job_complete = "Complete"
condition_name job_failed = "Failed"
condition_name (other_condition s) = s

first_true : List JobCondition → String
first_true [] = "Running"
first_true (c ∷ cs) = if str_eq c.status "True" then condition_name c.type else first_true cs

unfoldable pub get_job_status : Job → String
unfolding first_true
get_job_status job = first_true job.conditions

module _ (eq : DeepEqual) where
  -- The three comparisons.
  unfoldable pub job_needs_update : Job → Job → Bool
  job_needs_update have want =
      not (eq.containers have.template.spec.containers want.template.spec.containers)
      || not (eq.labels have.meta.labels want.meta.labels)
      || not (eq.labels have.meta.annotations want.meta.annotations)

  updated_job_template : PodTemplateSpec → PodTemplateSpec → PodTemplateSpec
  updated_job_template have want =
      let spec = have.spec in
      record have {
        spec = record spec {
          containers = changed eq.containers spec.containers want.spec.containers;
        };
      }

  updated_job_meta : ObjectMeta → ObjectMeta → ObjectMeta
  updated_job_meta have want = record have {
    labels = changed eq.labels have.labels want.labels;
    annotations = changed eq.labels have.annotations want.annotations;
  }

  unfoldable pub updated_job : Job → Job → Job
  unfolding updated_job_template updated_job_meta
  updated_job have want = record have {
    template = updated_job_template have.template want.template;
    meta = updated_job_meta have.meta want.meta;
  }

module _ (env : Env) where
  unfoldable pub create_job : Job → Action ⊤
  create_job job = do
    refused ← call (Call.create_job job) (λ l. env.create_job l job)
    wrapped "failed to create Job" (lift_error refused)

  -- A conflict is left to the next reconciliation.
  unfoldable pub after_job_update : Option ApiError → Action ⊤
  after_job_update none = pure tt
  after_job_update (some e) =
      if is_conflict e then pure tt else raise (wrap "failed to update Job" (api_error e))

  unfoldable pub send_job_update : Job → Action ⊤
  unfolding after_job_update
  send_job_update updated =
      call (Call.update_job updated) (λ l. env.update_job l updated) >>= after_job_update

  unfoldable pub update_job : Job → Job → Action ⊤
  unfolding is_job_finished job_needs_update updated_job send_job_update
  update_job desired existing =
      if is_job_finished existing
      then pure tt
      else if job_needs_update env.deep_equal existing desired
      then send_job_update (updated_job env.deep_equal existing desired)
      else pure tt

  unfoldable pub after_get_job : Job → Reply Job → Action ⊤
  unfolding create_job update_job
  after_get_job desired (reply existing) = update_job desired existing
  after_get_job desired (fail e) =
      if is_not_found e
      then create_job desired
      else raise (wrap "failed to get existing Job" (api_error e))

  unfoldable pub apply_job : Job → Action ⊤
  unfolding after_get_job
  apply_job desired =
      let key = key_of desired.meta in
      call (Call.get_job key) (λ l. env.get_job l key) >>= after_get_job desired

  unfoldable pub reconcile_job : AzureDevOps → Job → Action ⊤
  unfolding add_standard_labels apply_job
  reconcile_job cr desired = do
    meta ←
        wrapped "failed to set controller reference"
          (lift (env.set_controller_reference cr desired.meta))
    apply_job (record desired { meta = add_standard_labels meta })
