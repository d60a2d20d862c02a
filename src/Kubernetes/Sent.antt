-- ===== src/Kubernetes/Sent.antt =====
-- The calls that bring a workload up to date, described without the code that makes them.
use azdo_kube_operator.Kube.{is_not_found}
use azdo_kube_operator.Base.{◌≡◌, true, false, ℤ}
use azdo_kube_operator.Kube.{AzureDevOps, ObjectMeta, Deployment, Job, reply, fail, ApiError}
use azdo_kube_operator.World.{Env, Call, Log}
use azdo_kube_operator.Kubernetes.{
  key_of, add_standard_labels, desired_deployment, desired_job, needs_update, job_needs_update,
  is_job_finished,
}

module _ (env : Env) (cr : AzureDevOps) (n : ℤ) where
  -- The metadata of what is sent: those of the workload, with its owner and the standard labels.
  abbrev pub Owned : ObjectMeta → ObjectMeta → Type 0
  Owned meta m =
      (o : ObjectMeta) × (env.set_controller_reference cr meta ≡ reply o)
      × (m ≡ add_standard_labels o)

  abbrev pub Wanted : Deployment → Type 0
  Wanted w =
      let d = desired_deployment cr n in
      (m : ObjectMeta) × Owned d.meta m × (w ≡ record d { meta = m })

  abbrev pub WantedJob : Job → Type 0
  WantedJob w =
      let d = desired_job cr in (m : ObjectMeta) × Owned d.meta m × (w ≡ record d { meta = m })

  -- An update: what was read differs from what is wanted, what is sent does not, and it keeps the
  -- identity and whatever is not compared.
  pub record Adjusts (e w u : Deployment) : Type 0 where
    pub differs : needs_update env.deep_equal e.spec w.spec ≡ true
    pub settles : needs_update env.deep_equal u.spec w.spec ≡ false
    pub meta_kept : u.meta ≡ e.meta
    pub rest_kept : (u.rest ≡ e.rest) × (u.spec.rest ≡ e.spec.rest)

  pub record AdjustsJob (e w u : Job) : Type 0 where
    pub runs : is_job_finished e ≡ false
    pub differs : job_needs_update env.deep_equal e w ≡ true
    pub settles : job_needs_update env.deep_equal u w ≡ false
    pub name_kept : u.meta.name ≡ e.meta.name
    pub rest_kept : (u.conditions ≡ e.conditions) × (u.rest ≡ e.rest)

  pub data WorkloadCalls : Call → Type 0 where
    reads :
        {w : Deployment}
        → cr.spec.mode ≡ "Deployment"
        → Wanted w
        → WorkloadCalls (Call.get_deployment (key_of w.meta))
    makes :
        {w : Deployment} {e : ApiError} (l : Log)
        → cr.spec.mode ≡ "Deployment"
        → Wanted w
        → env.get_deployment l (key_of w.meta) ≡ fail e
        → is_not_found e ≡ true
        → WorkloadCalls (Call.create_deployment w)
    updates :
        {w e u : Deployment} (l : Log)
        → cr.spec.mode ≡ "Deployment"
        → Wanted w
        → env.get_deployment l (key_of w.meta) ≡ reply e
        → Adjusts e w u
        → WorkloadCalls (Call.update_deployment u)
    sleeps : {d : ℤ} → cr.spec.mode ≡ "Deployment" → WorkloadCalls (Call.sleep d)
    reads_job :
        {w : Job}
        → cr.spec.mode ≡ "Jobs"
        → WantedJob w
        → WorkloadCalls (Call.get_job (key_of w.meta))
    makes_job :
        {w : Job} {e : ApiError} (l : Log)
        → cr.spec.mode ≡ "Jobs"
        → WantedJob w
        → env.get_job l (key_of w.meta) ≡ fail e
        → is_not_found e ≡ true
        → WorkloadCalls (Call.create_job w)
    updates_job :
        {w e u : Job} (l : Log)
        → cr.spec.mode ≡ "Jobs"
        → WantedJob w
        → env.get_job l (key_of w.meta) ≡ reply e
        → AdjustsJob e w u
        → WorkloadCalls (Call.update_job u)
