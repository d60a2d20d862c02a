-- ===== src/Kubernetes/Updates.antt =====
-- What an update of a Deployment or a Job writes.
use azdo_kube_operator.Base.{
  Bool, true, false, Bool-cases, ◌≡◌, refl, inl, inr, Option, List, Dict, ℤ, String,
}
use azdo_kube_operator.Kube.{Deployment, PodSpec, Container, Job}
use azdo_kube_operator.World.{DeepEqual}
use azdo_kube_operator.Kubernetes.{
  needs_update, updated_deployment, changed, job_needs_update, updated_job,
}

-- `equality.Semantic.DeepEqual` holds of a value and itself.
pub record IsReflexive (eq : DeepEqual) : Type 0 where
  pub replicas : (x : Option ℤ) → eq.replicas x x ≡ true
  pub pod_spec : (x : PodSpec) → eq.pod_spec x x ≡ true
  pub containers : (x : List Container) → eq.containers x x ≡ true
  pub labels : (x : Dict String) → eq.labels x x ≡ true

module _ {A : Type 0} (eq : A → A → Bool) where
  -- A value that was taken over, or did not differ, is equal to the one wanted.
  changed-equal : (have want : A) → eq want want ≡ true → eq (changed eq have want) want ≡ true
  changed-equal have want h = elim (Bool-cases (eq have want)) [ inl e ↦ rw e e | inr e ↦ rw e h ]

module _ (eq : DeepEqual) (r : IsReflexive eq) where
  -- Where DeepEqual is reflexive, nothing is left to update after an update, and what the
  -- comparison does not name is as it was.
  pub updated_deployment_settles :
      (existing desired : Deployment)
      → let u = updated_deployment eq existing desired in
        (needs_update eq u.spec desired.spec ≡ false)
        × (u.meta ≡ existing.meta)
        × (u.ready_replicas ≡ existing.ready_replicas)
        × (u.rest ≡ existing.rest)
        × (u.spec.rest ≡ existing.spec.rest)
        × (u.spec.template.owner_references ≡ existing.spec.template.owner_references)
        × (u.spec.template.rest ≡ existing.spec.template.rest)
  unfolding needs_update updated_deployment
  updated_deployment_settles existing desired = (
    simp (
      changed-equal eq.replicas existing.spec.replicas desired.spec.replicas (r.replicas _),
      changed-equal eq.pod_spec existing.spec.template.spec desired.spec.template.spec
          (r.pod_spec _),
      changed-equal eq.labels existing.spec.template.labels desired.spec.template.labels
          (r.labels _),
      changed-equal eq.labels existing.spec.template.annotations desired.spec.template.annotations
          (r.labels _),
      changed-equal eq.labels existing.spec.selector desired.spec.selector (r.labels _),
    ),
    refl,
    refl,
    refl,
    refl,
    refl,
    refl,
  )

  -- Where DeepEqual is reflexive, an update of a Job leaves nothing to update, and its conditions,
  -- name, restart policy, volumes and the rest are as they were.
  pub updated_job_settles :
      (existing desired : Job)
      → let u = updated_job eq existing desired in
        (job_needs_update eq u desired ≡ false)
        × (u.conditions ≡ existing.conditions)
        × (u.meta.name ≡ existing.meta.name)
        × (u.template.spec.restart_policy ≡ existing.template.spec.restart_policy)
        × (u.template.spec.volumes ≡ existing.template.spec.volumes)
        × (u.rest ≡ existing.rest)
  unfolding job_needs_update updated_job
  updated_job_settles existing desired = (
    simp (
      changed-equal eq.containers existing.template.spec.containers desired.template.spec.containers
          (r.containers _),
      changed-equal eq.labels existing.meta.labels desired.meta.labels (r.labels _),
      changed-equal eq.labels existing.meta.annotations desired.meta.annotations (r.labels _),
    ),
    refl,
    refl,
    refl,
    refl,
    refl,
  )
