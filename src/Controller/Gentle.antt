-- ===== src/Controller/Gentle.antt =====
-- What the reconciliation of a resource that stays never does.
use azdo_kube_operator.Base.{ℕ, ◌≡◌, refl, false, String, Option}
use azdo_kube_operator.Kube.{AzureDevOps, Time, NamespacedName, Message, Error, Reply, Deployment}
use azdo_kube_operator.World.{Env, Call, Action, EventType}
use azdo_kube_operator.World.Footprint.{Adds, Adds-call, Adds-weaken, adds_rules}
use azdo_kube_operator.Devops.{AzureDevOpsClient, new_client, get_queue_length}
use azdo_kube_operator.Usecase.{CtrlResult, handle}
use azdo_kube_operator.Controller.{
  update_status, get_pat_token, event, report, observe, conclude, with_queue, queue_failed,
  with_token, process, failure_interval,
}
use azdo_kube_operator.Controller.Quiet.{
  Quiet, is_forbidden, update_status-Quiet, get_pat_token-Quiet, get_queue_length-Quiet,
  handle-Quiet, observe-Quiet, failure_interval-Quiet,
}

abbrev pub Allowed : Call → Type 0
Allowed c = is_forbidden c ≡ false

allow : {A : Type 0} {m : Action A} → Adds Quiet m → Adds Allowed m
allow q = Adds-weaken (λ c k. k.allowed) _ q

module _ (env : Env) where
  status-Allowed :
      (cr : AzureDevOps) (phase : String) (message : Message)
      → Adds Allowed (update_status env cr phase message)
  status-Allowed cr phase message = allow (update_status-Quiet env cr phase message)

  event-Allowed :
      (t : EventType) (reason : String) (m : Message)
      → Adds Allowed (event env (Call.record_event t reason m))
  unfolding event
  event-Allowed t reason m = Adds-call _ _ refl

  report-Allowed :
      (cr : AzureDevOps) (reason : String) (a b : Message) → Adds Allowed (report env cr reason a b)
  unfolding report
  report-Allowed cr reason a b = search (adds_rules, event-Allowed, status-Allowed)

  observe-Allowed : (cr : AzureDevOps) (r : Reply Deployment) → Adds Allowed (observe env cr r)
  observe-Allowed cr r = allow (observe-Quiet env cr r)

  conclude-Allowed :
      (copy : AzureDevOps) (p : CtrlResult × AzureDevOps) → Adds Allowed (conclude env copy p)
  unfolding conclude
  conclude-Allowed copy (result, cr) =
      search (adds_rules, observe-Allowed, status-Allowed, event-Allowed) depth 12

  handle-Allowed :
      (client : AzureDevOpsClient) (cr : AzureDevOps) → Adds Allowed (handle env client cr)
  handle-Allowed client cr = allow (handle-Quiet env client cr)

  with_queue-Allowed :
      (cr : AzureDevOps) (client : AzureDevOpsClient) (n : ℕ)
      → Adds Allowed (with_queue env cr client n)
  unfolding with_queue
  with_queue-Allowed cr client n =
      search (adds_rules, handle-Allowed, conclude-Allowed, report-Allowed)

  failure_interval-Allowed : (o : Option Time) → Adds Allowed (failure_interval env o)
  failure_interval-Allowed o = allow (failure_interval-Quiet env o)

  queue_failed-Allowed : (cr : AzureDevOps) (e : Error) → Adds Allowed (queue_failed env cr e)
  unfolding queue_failed
  queue_failed-Allowed cr e = search (adds_rules, report-Allowed, failure_interval-Allowed) depth 8

  get_queue_length-Allowed :
      (client : AzureDevOpsClient) (name : String) → Adds Allowed (get_queue_length env client name)
  get_queue_length-Allowed client name = allow (get_queue_length-Quiet env client name)

  with_token-Allowed : (cr : AzureDevOps) (pat : String) → Adds Allowed (with_token env cr pat)
  unfolding with_token new_client
  with_token-Allowed cr pat =
      search (adds_rules, get_queue_length-Allowed, with_queue-Allowed, queue_failed-Allowed)

  get_pat_token-Allowed :
      (name namespace : String) → Adds Allowed (get_pat_token env name namespace)
  get_pat_token-Allowed name namespace = allow (get_pat_token-Quiet env name namespace)

  -- Processing a resource disables and deletes no agent and writes nothing of the resource but its
  -- status, on each of its paths.
  pub process-Allowed :
      (key : NamespacedName) (cr : AzureDevOps) → Adds Allowed (process env key cr)
  unfolding process
  process-Allowed key cr =
      search (adds_rules, status-Allowed, get_pat_token-Allowed, with_token-Allowed, report-Allowed)
