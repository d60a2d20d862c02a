-- ===== src/Kubernetes/Modes.antt =====
-- The choice of the workload by the mode of the resource.
use azdo_kube_operator.Base.{◌≡◌, ◌≢◌, true, [], ◌∷◌, ℤ, str_ne}
use azdo_kube_operator.Kube.{AzureDevOps, ObjectMeta, Job, reply, fault, word}
use azdo_kube_operator.World.{Env, State, Call, ok, err}
use azdo_kube_operator.Kubernetes.{
  reconcile_deployment, reconcile_job, apply_job, after_get_job, update_job, is_job_finished,
  key_of, add_standard_labels,
}

-- In any mode but "Jobs" and "Deployment", the empty one included, nothing is asked of the cluster,
-- and the error names the field `docker` in place of the mode.
pub reconcile_deployment_unsupported :
    (env : Env) (cr : AzureDevOps) (n : ℤ) (s : State)
    → cr.spec.mode ≢ "Jobs"
    → cr.spec.mode ≢ "Deployment"
    → reconcile_deployment env cr n s
      ≡ (err (fault "mode non supporté : %s" (word cr.spec.docker ∷ [])), s)
unfolding reconcile_deployment
reconcile_deployment_unsupported env cr n s j d =
    rw (str_ne cr.spec.mode "Jobs" j, str_ne cr.spec.mode "Deployment" d)

-- Where the owner can be set, a Job that has ended is left as it is, whatever the resource asks
-- for: the Job is read, and neither changed nor made anew.
pub reconcile_job_finished :
    (env : Env) (cr : AzureDevOps) (desired existing : Job) (meta : ObjectMeta) (s : State)
    → env.set_controller_reference cr desired.meta ≡ reply meta
    → env.get_job s.log (key_of (add_standard_labels meta)) ≡ reply existing
    → is_job_finished existing ≡ true
    → reconcile_job env cr desired s
      ≡ (ok tt, record s { log = Call.get_job (key_of (add_standard_labels meta)) ∷ s.log })
unfolding reconcile_job apply_job after_get_job update_job
reconcile_job_finished env cr desired existing meta s owned got ended = rw (owned, got, ended)
