-- ===== src/Kubernetes/Template.antt =====
-- reconcile.go, `ReconcileDeployment` up to the choice of the workload: the pod template. The
-- resource requirements that the source copies into `azdo.Resources` are read by nothing.
use azdo_kube_operator.Base.{
  Bool, true, false, String, none, some, List, [], ◌∷◌, ◌++◌, map, str_eq, is_empty, concat,
  if◌then◌else◌,
}
use azdo_kube_operator.Kube.{
  OwnerReference, EnvVar, value, secret_key_ref, VolumeMount, ResourceRequirements, Container,
  always, empty_dir, PodTemplateSpec, AzureDevOps, AzureDevOpsSpec,
}

abbrev plain : String → String → EnvVar
plain name v = record { name = name; source = value v }

abbrev pub agent_name : String
agent_name = "azdo-agent"

-- `env`, before the variables of the resource.
unfoldable pub base_env : AzureDevOpsSpec → List EnvVar
base_env spec =
    record { name = "AZP_TOKEN"; source = secret_key_ref spec.pat_secret_ref "PAT" }
    ∷ plain "AGENT_DEBUG" "true"
    ∷ plain "AZP_URL" spec.org_url
    ∷ plain "AZP_PROJECT" spec.project
    ∷ plain "AZP_POOL" spec.pool_name
    ∷ []

unfoldable pub agent_env : AzureDevOpsSpec → List EnvVar
unfolding base_env
agent_env spec = if is_empty spec.env then base_env spec else base_env spec ++ spec.env

unfoldable pub image_pull_secrets : AzureDevOpsSpec → List String
image_pull_secrets spec =
    if str_eq spec.image_pull_secret_ref "" then [] else spec.image_pull_secret_ref ∷ []

abbrev minimal_resources : ResourceRequirements
minimal_resources = record { requests = ("cpu", "50m") ∷ ("memory", "64Mi") ∷ []; limits = [] }

abbrev no_resources : ResourceRequirements
no_resources = record { requests = []; limits = [] }

unfoldable pub owner_of : AzureDevOps → OwnerReference
owner_of cr = record {
  api_version = cr.api_version;
  kind = cr.kind;
  name = cr.meta.name;
  uid = cr.meta.uid;
  controller = true;
}

unfoldable pub agent_container : AzureDevOpsSpec → Container
unfolding agent_env
agent_container spec = record {
  name = agent_name;
  image = spec.image;
  command = [];
  args = [];
  env = agent_env spec;
  resources = minimal_resources;
  volume_mounts = [];
  ports = [];
  image_pull_policy = "";
  privileged = none;
  rest = "";
}

-- The literal `podTemplateSpec`.
unfoldable pub base_template : AzureDevOps → PodTemplateSpec
unfolding image_pull_secrets owner_of agent_container
base_template cr = record {
  labels = ("app", "azdo-agent") ∷ [];
  annotations = [];
  owner_references = owner_of cr ∷ [];
  spec = record {
    image_pull_secrets = image_pull_secrets cr.spec;
    tolerations = cr.spec.tolerations;
    affinity = cr.spec.affinity;
    containers = agent_container cr.spec ∷ [];
    restart_policy = always;
    volumes = [];
    rest = "";
  };
  rest = "";
}

unfoldable pub add_volume : String → PodTemplateSpec → PodTemplateSpec
add_volume name t =
    let spec = t.spec in
    record t {
      spec = record spec {
        volumes = spec.volumes ++ record { name = name; source = empty_dir } ∷ [];
      };
    }

abbrev pub start_command : String
start_command = "trap 'touch /usr/share/pod/done' EXIT && ./start.sh"

unfoldable pub agent_command : Bool → String
unfolding concat
agent_command ephemeral = if ephemeral then concat start_command " --once" else start_command

abbrev mount : String → String → Bool → VolumeMount
mount name path read_only = record { name = name; mount_path = path; read_only = read_only }

-- The body of the loop that gives the agent's container its command and its signal volume.
unfoldable pub with_command : Bool → Container → Container
unfolding agent_command
with_command ephemeral c =
    if str_eq c.name agent_name
    then record c {
      command = "/bin/sh" ∷ "-c" ∷ [];
      args = agent_command ephemeral ∷ [];
      volume_mounts = c.volume_mounts ++ mount "signal-volume" "/usr/share/pod" false ∷ [];
    }
    else c

abbrev pub with_containers : (List Container → List Container) → PodTemplateSpec → PodTemplateSpec
with_containers f t =
    let spec = t.spec in record t { spec = record spec { containers = f spec.containers } }

unfoldable pub buildkit_env : List EnvVar
buildkit_env = plain "BUILDKIT_HOST" "tcp://localhost:1234" ∷ plain "DOCKER_BUILDKIT" "1" ∷ []

unfoldable pub buildkit_container : Container
buildkit_container = record {
  name = "buildkit";
  image = "ghcr.io/etiennedeneuve/azdo-buildkit:0.0.3";
  command = "buildkitd" ∷ "--addr" ∷ "tcp://0.0.0.0:1234" ∷ [];
  args = [];
  env = [];
  resources = no_resources;
  volume_mounts = [];
  ports = record { container_port = 1234; name = "buildkit" } ∷ [];
  image_pull_policy = "";
  privileged = none;
  rest = "";
}

unfoldable pub add_buildkit_env : Container → Container
unfolding buildkit_env
add_buildkit_env c =
    if str_eq c.name agent_name then record c { env = c.env ++ buildkit_env } else c

unfoldable pub dind_env : List EnvVar
dind_env =
    plain "DOCKER_BUILDKIT" "1" ∷ plain "DOCKER_HOST" "unix:///run/user/1000/docker.sock" ∷ []

abbrev dind_script : String
dind_script =
    "dockerd-entrypoint.sh &\nwhile ! test -f /usr/share/pod/done; do\n  echo 'Waiting for the agent pod to finish...'\n  sleep 5\ndone\necho 'Agent pod finished, exiting'\nexit 0"

unfoldable pub dind_container : Container
dind_container = record {
  name = "docker-dind-rootless";
  image = "docker:dind-rootless";
  command = "/bin/sh" ∷ "-c" ∷ [];
  args = dind_script ∷ [];
  env =
      plain "DOCKER_TLS_CERTDIR" "/certs"
      ∷ plain "DOCKER_HOST" "unix:///run/user/1000/docker.sock"
      ∷ [];
  resources = no_resources;
  volume_mounts =
      mount "docker-socket" "/run/user/1000" false
      ∷ mount "signal-volume" "/usr/share/pod" true
      ∷ [];
  ports = [];
  image_pull_policy = "IfNotPresent";
  privileged = some true;
  rest = "";
}

-- `Containers[0]`, which is there.
unfoldable pub add_dind : List Container → List Container
unfolding dind_env dind_container
add_dind [] = []
add_dind (c ∷ cs) =
    record c {
      env = c.env ++ dind_env;
      volume_mounts = c.volume_mounts ++ mount "docker-socket" "/run/user/1000" false ∷ [];
    }
    ∷ (cs ++ dind_container ∷ [])

unfoldable pub add_buildkit : List Container → List Container
unfolding add_buildkit_env buildkit_container
add_buildkit cs = map add_buildkit_env cs ++ buildkit_container ∷ []

-- `switch azdo.Docker`
unfoldable pub add_sidecar : String → PodTemplateSpec → PodTemplateSpec
unfolding add_buildkit add_dind
add_sidecar docker t =
    if str_eq docker "buildkit"
    then with_containers add_buildkit t
    else if str_eq docker "dind"
    then with_containers add_dind t
    else t

unfoldable pub pod_template : AzureDevOps → PodTemplateSpec
unfolding base_template add_volume with_command add_sidecar
pod_template cr = add_sidecar cr.spec.docker (
    with_containers (map (with_command cr.spec.ephemeral))
      (add_volume "signal-volume" (add_volume "docker-socket" (base_template cr))))
