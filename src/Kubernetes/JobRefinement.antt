-- ===== src/Kubernetes/JobRefinement.antt =====
-- That the reconciliation of a Job implements one step on the Jobs that are held.
use azdo_kube_operator.Base.{Option, some, ◌∷◌, ◌≡◌}
use azdo_kube_operator.Base.{Bool, ⊤}
use azdo_kube_operator.World.{Result}
use azdo_kube_operator.Kube.{PodTemplateSpec, NamespacedName, Job}
use azdo_kube_operator.World.{Env, State, Call, Log}
use azdo_kube_operator.Kubernetes.{updated_job, update_job, apply_job}
use azdo_kube_operator.Kubernetes.Stores.{Store, put}
use azdo_kube_operator.Kubernetes.JobStore.{
  job_key, jobs, ServesJobs, settled_job, is_refused, Ends,
}

module _ (env : Env) (same_template : PodTemplateSpec → PodTemplateSpec → Bool)
    (initial : Store Job) (serves : ServesJobs env same_template initial) where
  abbrev holds : Log → Store Job
  holds = jobs same_template initial

  -- How a run ends, and what it leaves of the Job under a key.
  abbrev EndsWith : NamespacedName → Log → Bool → Job → Result ⊤ × State → Type 0
  EndsWith k l b d (r, t) = Ends b r × ((j : NamespacedName) → holds t.log j ≡ put k d (holds l) j)

  Settles : Job → Option Job → State → Type 0
  Settles desired o s =
      EndsWith (job_key desired) s.log (is_refused env.deep_equal desired o)
        (settled_job env.deep_equal desired o) (apply_job env desired s)

  module _ (desired e : Job) (s : State) (held : holds s.log (job_key desired) ≡ some e) where
    abbrev u : Job
    u = updated_job env.deep_equal e desired

    abbrev after_read : Log
    after_read = Call.get_job (job_key desired) ∷ s.log

    abbrev Alike : Bool → Type 0
    Alike b =
        env.deep_equal.containers e.template.spec.containers desired.template.spec.containers ≡ b

    -- The log after a read and an update.
    abbrev updated_log : Log
    updated_log = Call.update_job u ∷ after_read
