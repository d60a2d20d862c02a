-- ===== src/Tests/WorkloadTests.antt =====
-- The workload of the sample resource.
use azdo_kube_operator.Base.{◌≡◌, refl, pos, some, [], ◌∷◌, All}
use azdo_kube_operator.Kube.{
  Deployment, Job, job_complete, reply, conflict, secret_key_ref, AzureDevOps, ResourceRequirements,
}
use azdo_kube_operator.World.{Env, Call, Log}
use azdo_kube_operator.Kubernetes.{desired_deployment, desired_job, pod_template, base_env}
use azdo_kube_operator.Controller.{process}
use azdo_kube_operator.Controller.Endings.{Gives, HasError}
use azdo_kube_operator.Controller.Rejected.{process_rejects}
use azdo_kube_operator.Tests.Fixture.{sample_key}
use azdo_kube_operator.Kubernetes.TemplateLaws.{
  MountsResolve, pod_template_mounts, agent_variables, effective, docker_env, or_else,
  pod_template_env_precedence, pod_template_token,
}
use azdo_kube_operator.Tests.Fixture.{sample, sample_env, resource_in}

abbrev wanted : Deployment
unfolding desired_deployment
wanted = desired_deployment sample (pos 3)

abbrev existing : Deployment
unfolding desired_deployment
existing = desired_deployment sample (pos 1)

abbrev wanted_job : Job
unfolding desired_job
wanted_job = desired_job sample

abbrev ended_job : Job
unfolding desired_job
ended_job = record (desired_job (resource_in "Jobs" "" [])) {
  conditions = record { type = job_complete; status = "True" } ∷ [];
}

-- Reads show the old object, and every update is a conflict.
abbrev contended : Env
contended = record sample_env {
  get_deployment = λ l k. reply existing;
  update_deployment = λ l d. some conflict;
}

-- Reads show the last object that was written.
abbrev last_written : Log → Deployment
last_written [] = existing
last_written (Call.update_deployment d ∷ l) = d
last_written (_ ∷ l) = last_written l

abbrev stored : Env
stored = record sample_env { get_deployment = λ l k. reply (last_written l) }

abbrev in_jobs : AzureDevOps
in_jobs = resource_in "Jobs" "" []

abbrev in_no_mode : AzureDevOps
in_no_mode = resource_in "" "dind" []

process_rejects_example : Gives HasError (process sample_env sample_key in_no_mode)
process_rejects_example = process_rejects sample_env in_no_mode (λ e. cc) (λ e. cc) sample_key

abbrev ended_env : Env
ended_env = record sample_env { get_job = λ l k. reply ended_job }

pod_template_mounts_example :
    All (MountsResolve (pod_template sample).spec.volumes) (pod_template sample).spec.containers
pod_template_mounts_example = pod_template_mounts sample

abbrev large : ResourceRequirements
large = record { requests = ("cpu", "2") ∷ []; limits = [] }

pod_template_env_precedence_example :
    effective "DOCKER_HOST" (agent_variables sample)
    ≡ or_else (effective "DOCKER_HOST" (docker_env sample.spec.docker)) (
        or_else
          (effective "DOCKER_HOST" sample.spec.env)
          (effective "DOCKER_HOST" (base_env sample.spec)))
pod_template_env_precedence_example = pod_template_env_precedence sample "DOCKER_HOST"

pod_template_token_example :
    effective "AZP_TOKEN" (agent_variables sample) ≡ some (secret_key_ref "pat" "PAT")
unfolding effective
pod_template_token_example = pod_template_token sample refl
