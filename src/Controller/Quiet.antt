-- ===== src/Controller/Quiet.antt =====
-- What the parts of a reconciliation leave alone, and that they end in no error of their own.
use azdo_kube_operator.Base.{ℕ, ◌≡◌, refl, Bool, true, false, String, Option, none, some, ℤ}
use azdo_kube_operator.Kube.{
  AzureDevOps, Time, NamespacedName, Message, Reply, reply, fail, Deployment,
}
use azdo_kube_operator.World.{
  Env, Call, Method, http_get, http_patch, http_delete, EventType, normal, warning,
}
use azdo_kube_operator.World.Footprint.{
  Adds, same, Adds-in_case, Adds-pure, Adds-weaken, adds_rules,
}
use azdo_kube_operator.Devops.{AzureDevOpsClient, request_of, get_queue_length}
use azdo_kube_operator.Devops.Effects.{Uses, asks, closes, reads, clocks, draws, limits, waits}
use azdo_kube_operator.Devops.Requests.{Reads, pools, jobs, agents, get_queue_length-Reads}
use azdo_kube_operator.Kubernetes.{validate_secrets, reconcile_deployment}
use azdo_kube_operator.Kubernetes.Effects.{
  ClusterCalls, reads_secret, reads_deployment, reads_job, makes_deployment, updates_deployment,
  makes_job, updates_job, validate_secrets-ClusterCalls, reconcile_deployment-ClusterCalls,
}
use azdo_kube_operator.Usecase.{stamp_scaling, scale, handle}
use azdo_kube_operator.Controller.{
  update_status, get_pat_token, observed, observe, failure_interval,
}
use azdo_kube_operator.Controller.Tokens.{Looks, looks, get_pat_token_reads}
use azdo_kube_operator.Controller.StatusWrites.{StatusCalls, update_status_merges}

abbrev pub is_event : EventType → Call → Bool
is_event normal (Call.record_event normal reason m) = true
is_event warning (Call.record_event warning reason m) = true
is_event _ _ = false

abbrev pub is_removal : Method → Bool
is_removal http_get = false
is_removal http_patch = true
is_removal http_delete = true

-- A removal of an agent, or a write of the resource beside its status.
abbrev pub is_forbidden : Call → Bool
is_forbidden (Call.http r) = is_removal r.method
is_forbidden (Call.update_resource cr) = true
is_forbidden _ = false

-- Neither that nor an event.
pub record Quiet (c : Call) : Type 0 where
  pub allowed : is_forbidden c ≡ false
  pub no_normal : is_event normal c ≡ false
  pub no_warning : is_event warning c ≡ false

abbrev quiet_call :
    (c : Call)
    → is_forbidden c ≡ false
    → is_event normal c ≡ false
    → is_event warning c ≡ false
    → Quiet c
quiet_call c a n w = record { allowed = a; no_normal = n; no_warning = w }

Reads-Quiet : (client : AzureDevOpsClient) (c : Call) → Uses (Reads client) c → Quiet c
unfolding request_of
Reads-Quiet client _ (asks (pools name)) = quiet_call _ refl refl refl
Reads-Quiet client _ (asks (jobs pool)) = quiet_call _ refl refl refl
Reads-Quiet client _ (asks (agents pool)) = quiet_call _ refl refl refl
Reads-Quiet client _ closes = quiet_call _ refl refl refl
Reads-Quiet client _ reads = quiet_call _ refl refl refl
Reads-Quiet client _ clocks = quiet_call _ refl refl refl
Reads-Quiet client _ draws = quiet_call _ refl refl refl
Reads-Quiet client _ limits = quiet_call _ refl refl refl
Reads-Quiet client _ waits = quiet_call _ refl refl refl

Looks-Quiet : (c : Call) → Looks c → Quiet c
Looks-Quiet _ looks = quiet_call _ refl refl refl

ClusterCalls-Quiet : (c : Call) → ClusterCalls c → Quiet c
ClusterCalls-Quiet _ reads_secret = quiet_call _ refl refl refl
ClusterCalls-Quiet _ reads_deployment = quiet_call _ refl refl refl
ClusterCalls-Quiet _ reads_job = quiet_call _ refl refl refl
ClusterCalls-Quiet _ makes_deployment = quiet_call _ refl refl refl
ClusterCalls-Quiet _ updates_deployment = quiet_call _ refl refl refl
ClusterCalls-Quiet _ makes_job = quiet_call _ refl refl refl
ClusterCalls-Quiet _ updates_job = quiet_call _ refl refl refl
ClusterCalls-Quiet _ ClusterCalls.sleeps = quiet_call _ refl refl refl

StatusCalls-Quiet : (env : Env) (cr : AzureDevOps) (c : Call) → StatusCalls env cr c → Quiet c
StatusCalls-Quiet env cr _ StatusCalls.reads = quiet_call _ refl refl refl
StatusCalls-Quiet env cr _ StatusCalls.clocks = quiet_call _ refl refl refl
StatusCalls-Quiet env cr _ StatusCalls.sleeps = quiet_call _ refl refl refl
StatusCalls-Quiet env cr _ (StatusCalls.writes l got m) = quiet_call _ refl refl refl

pub clock-Quiet : Quiet Call.clock
clock-Quiet = quiet_call _ refl refl refl

pub get_deployment-Quiet : (k : NamespacedName) → Quiet (Call.get_deployment k)
get_deployment-Quiet k = quiet_call _ refl refl refl

module _ (env : Env) where
  pub update_status-Quiet :
      (cr : AzureDevOps) (phase : String) (message : Message)
      → Adds Quiet (update_status env cr phase message)
  update_status-Quiet cr phase message =
      Adds-weaken (StatusCalls-Quiet env cr) _ (update_status_merges env cr phase message)

  pub get_pat_token-Quiet :
      (name namespace : String) → Adds Quiet (get_pat_token env name namespace)
  get_pat_token-Quiet name namespace =
      Adds-weaken Looks-Quiet _ (get_pat_token_reads env name namespace)

  pub get_queue_length-Quiet :
      (client : AzureDevOpsClient) (name : String) → Adds Quiet (get_queue_length env client name)
  get_queue_length-Quiet client name =
      Adds-weaken (Reads-Quiet client) _ (get_queue_length-Reads env client name)

  pub stamp_scaling-Quiet : (b : Bool) (cr : AzureDevOps) → Adds Quiet (stamp_scaling env b cr)
  unfolding stamp_scaling
  stamp_scaling-Quiet true cr = search (adds_rules, clock-Quiet)
  stamp_scaling-Quiet false cr = search adds_rules

  reconcile_deployment-Quiet :
      (cr : AzureDevOps) (n : ℤ) → Adds Quiet (reconcile_deployment env cr n)
  reconcile_deployment-Quiet cr n =
      Adds-weaken ClusterCalls-Quiet _ (reconcile_deployment-ClusterCalls env cr n)

  validate_secrets-Quiet :
      (namespace pat pull : String) → Adds Quiet (validate_secrets env namespace pat pull)
  validate_secrets-Quiet namespace pat pull =
      Adds-weaken ClusterCalls-Quiet _ (validate_secrets-ClusterCalls env namespace pat pull)

  scale-Quiet : (cr : AzureDevOps) (n : ℕ) → Adds Quiet (scale env cr n)
  unfolding scale
  scale-Quiet cr n = search (adds_rules, stamp_scaling-Quiet, reconcile_deployment-Quiet)

  pub handle-Quiet :
      (client : AzureDevOpsClient) (cr : AzureDevOps) → Adds Quiet (handle env client cr)
  unfolding handle
  handle-Quiet client cr =
      search (adds_rules, validate_secrets-Quiet, get_queue_length-Quiet, scale-Quiet)

  pub observe-Quiet : (cr : AzureDevOps) (r : Reply Deployment) → Adds Quiet (observe env cr r)
  unfolding observe observed
  observe-Quiet cr (fail e) = Adds-pure cr
  observe-Quiet cr (reply d) =
      Adds-in_case d.spec.replicas _ _ (record { at = λ s. same }) (λ n. stamp_scaling-Quiet _ _)

  pub failure_interval-Quiet : (o : Option Time) → Adds Quiet (failure_interval env o)
  unfolding failure_interval
  failure_interval-Quiet none = search adds_rules
  failure_interval-Quiet (some t) = search (adds_rules, clock-Quiet)
