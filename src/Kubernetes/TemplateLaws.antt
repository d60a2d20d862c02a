-- ===== src/Kubernetes/TemplateLaws.antt =====
-- What the pod template holds, for every resource.
use azdo_kube_operator.Base.{
  sym, ap, ◌∙◌, is_empty, true, Bool-cases, ◌≡◌, refl, inl, inr, String, Option, none, some, List,
  [], ◌∷◌, ◌++◌, All, any, arith, str_eq, if◌then◌else◌,
}
use mathlib.Core.List.{append-nil}
use azdo_kube_operator.Kube.{
  EnvVar, EnvSource, secret_key_ref, Container, Volume, ResourceRequirements, AzureDevOps,
  AzureDevOpsSpec,
}
use azdo_kube_operator.Kubernetes.{pod_template, agent_env, base_env, buildkit_env, dind_env}

abbrev pub MountsResolve : List Volume → Container → Type 0
MountsResolve volumes c = All (λ m. any (λ v. str_eq v.name m.name) volumes ≡ true) c.volume_mounts

-- Every volume that a container mounts is a volume of the pod, in each mode of `docker`.
pub pod_template_mounts :
    (cr : AzureDevOps)
    → All (MountsResolve (pod_template cr).spec.volumes) (pod_template cr).spec.containers
unfolding pod_template
pod_template_mounts cr = elim (Bool-cases (str_eq cr.spec.docker "buildkit")) [
  | inl e ↦ rw e ((refl, tt), (tt, tt))
  | inr e ↦ elim (Bool-cases (str_eq cr.spec.docker "dind")) [
    | inl f ↦ rw (e, f) ((refl, (refl, tt)), ((refl, (refl, tt)), tt))
    | inr f ↦ rw (e, f) ((refl, tt), tt)
  ]
]

-- The resource requirements of the resource do not reach the pod template.
pub pod_template_ignores_resources :
    (cr : AzureDevOps) (r : ResourceRequirements)
    → let spec = cr.spec in
      pod_template (record cr { spec = record spec { resources = r } }) ≡ pod_template cr
unfolding pod_template
pod_template_ignores_resources cr r = refl

-- The variables of the first container.
abbrev pub first_env : List Container → List EnvVar
first_env [] = []
first_env (c ∷ cs) = c.env

abbrev pub or_else : Option EnvSource → Option EnvSource → Option EnvSource
or_else none b = b
or_else (some x) b = some x

-- The source that a name has in a container: of two variables with one name the later counts.
unfoldable pub effective : String → List EnvVar → Option EnvSource
effective name [] = none
effective name (v ∷ vs) =
    or_else (effective name vs) (if str_eq v.name name then some v.source else none)

effective-append :
    (name : String) (xs ys : List EnvVar)
    → effective name (xs ++ ys) ≡ or_else (effective name ys) (effective name xs)
unfolding effective
effective-append name [] ys = ground arith
effective-append name (x ∷ xs) ys = ground (arith, effective-append name xs ys)

-- What a mode of `docker` adds to the variables of the agent.
abbrev pub docker_env : String → List EnvVar
unfolding buildkit_env dind_env
docker_env docker =
    if str_eq docker "buildkit" then buildkit_env else if str_eq docker "dind" then dind_env else []

abbrev pub agent_variables : AzureDevOps → List EnvVar
agent_variables cr = first_env (pod_template cr).spec.containers

first_env-pod_template :
    (cr : AzureDevOps) → agent_variables cr ≡ agent_env cr.spec ++ docker_env cr.spec.docker
unfolding pod_template
first_env-pod_template cr = elim (Bool-cases (str_eq cr.spec.docker "buildkit")) [
  | inl e ↦ rw e refl
  | inr e ↦ elim (Bool-cases (str_eq cr.spec.docker "dind")) [
    | inl f ↦ rw (e, f) refl
    | inr f ↦ rw (e, f) (sym (append-nil _))
  ]
]

user_env :
    (spec : AzureDevOpsSpec) (name : String) (vs : List EnvVar)
    → effective name (if is_empty vs then base_env spec else base_env spec ++ vs)
      ≡ or_else (effective name vs) (effective name (base_env spec))
unfolding effective
user_env spec name [] = refl
user_env spec name (v ∷ vs) = effective-append name (base_env spec) (v ∷ vs)

-- The variables of the mode of `docker` come before those of the resource, and those before the
-- operator's own.
pub pod_template_env_precedence :
    (cr : AzureDevOps) (name : String)
    → effective name (agent_variables cr)
      ≡ or_else
          (effective name (docker_env cr.spec.docker))
          (or_else (effective name cr.spec.env) (effective name (base_env cr.spec)))
unfolding agent_env
pod_template_env_precedence cr name =
    ap (effective name) (first_env-pod_template cr)
    ∙ (effective-append name (agent_env cr.spec) (docker_env cr.spec.docker)
        ∙ ap (or_else (effective name (docker_env cr.spec.docker)))
            (user_env cr.spec name cr.spec.env))

docker_env-token : (docker : String) → effective "AZP_TOKEN" (docker_env docker) ≡ none
unfolding effective docker_env buildkit_env dind_env
docker_env-token docker = elim (Bool-cases (str_eq docker "buildkit")) [
  | inl e ↦ rw e refl
  | inr e ↦ elim (Bool-cases (str_eq docker "dind")) [
    | inl f ↦ rw (e, f) refl
    | inr f ↦ rw (e, f) refl
  ]
]

-- The agent's token is read from the key "PAT" of the resource's secret, in each mode of `docker`,
-- where the resource does not name the variable itself.
pub pod_template_token :
    (cr : AzureDevOps)
    → effective "AZP_TOKEN" cr.spec.env ≡ none
    → effective "AZP_TOKEN" (agent_variables cr)
      ≡ some (secret_key_ref cr.spec.pat_secret_ref "PAT")
unfolding base_env effective
pod_template_token cr h =
    pod_template_env_precedence cr "AZP_TOKEN" ∙ rw (docker_env-token cr.spec.docker, h) refl
