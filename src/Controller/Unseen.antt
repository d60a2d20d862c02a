-- ===== src/Controller/Unseen.antt =====
-- The parts of a reconciliation that do not write Deployments.
use azdo_kube_operator.Base.{◌≡◌, refl, Bool, true, false, String, Option, none, some}
use azdo_kube_operator.Kube.{
  AzureDevOps, Deployment, NamespacedName, Message, Time, Error, Reply, reply, fail, Pod,
}
use azdo_kube_operator.World.{Env, Action, ◌>>=◌, Call, Log, Request, EventType}
use azdo_kube_operator.World.Footprint.{Adds-weaken}
use azdo_kube_operator.World.Views.{
  Leaves, Unseen, Leaves-Adds, Leaves-pure, Leaves-in_case, leaves_rules,
}
use azdo_kube_operator.Devops.{AzureDevOpsClient, new_client, get_queue_length}
use azdo_kube_operator.Devops.Effects.{Uses, asks, closes, reads, clocks, draws, limits, waits}
use azdo_kube_operator.Devops.Requests.{get_queue_length-Reads}
use azdo_kube_operator.Kubernetes.Stores.{Store}
use azdo_kube_operator.Kubernetes.Cluster.{deployments}
use azdo_kube_operator.Kubernetes.Frames.{held}
use azdo_kube_operator.Usecase.{CtrlResult, stamp_scaling}
use azdo_kube_operator.Controller.{
  update_status, get_pat_token, event, report, observed, observe, conclude, queue_failed,
  failure_interval, update_resource, remove_finalizer, clean_up, finalize, add_finalizer,
  delete_external_resources, handle_pod_event,
}
use azdo_kube_operator.Controller.Tokens.{Looks, looks, get_pat_token_reads}
use azdo_kube_operator.Controller.StatusWrites.{StatusCalls, update_status_merges}
use azdo_kube_operator.Controller.Finalizers.{delete_external_resources-Adds}
use azdo_kube_operator.Controller.Writes.{handle_pod_event-Adds}

module _ (env : Env) (initial : Store Deployment) (k : NamespacedName) where
  abbrev pub view : Log → Option Deployment
  view = held env initial k

  Uses-Unseen : (Q : Request → Type 0) (c : Call) → Uses Q c → Unseen view c
  unfolding deployments
  Uses-Unseen Q _ (asks q) l = refl
  Uses-Unseen Q _ closes l = refl
  Uses-Unseen Q _ reads l = refl
  Uses-Unseen Q _ clocks l = refl
  Uses-Unseen Q _ draws l = refl
  Uses-Unseen Q _ limits l = refl
  Uses-Unseen Q _ waits l = refl

  Looks-Unseen : (c : Call) → Looks c → Unseen view c
  unfolding deployments
  Looks-Unseen _ looks l = refl

  StatusCalls-Unseen : (cr : AzureDevOps) (c : Call) → StatusCalls env cr c → Unseen view c
  unfolding deployments
  StatusCalls-Unseen cr _ StatusCalls.reads l = refl
  StatusCalls-Unseen cr _ StatusCalls.clocks l = refl
  StatusCalls-Unseen cr _ StatusCalls.sleeps l = refl
  StatusCalls-Unseen cr _ (StatusCalls.writes m got e) l = refl

  pub update_status-Leaves :
      (cr : AzureDevOps) (phase : String) (message : Message)
      → Leaves view (update_status env cr phase message)
  update_status-Leaves cr phase message =
      Leaves-Adds view _
        (Adds-weaken (StatusCalls-Unseen cr) _ (update_status_merges env cr phase message))

  pub get_pat_token-Leaves :
      (name namespace : String) → Leaves view (get_pat_token env name namespace)
  get_pat_token-Leaves name namespace =
      Leaves-Adds view _ (Adds-weaken Looks-Unseen _ (get_pat_token_reads env name namespace))

  pub get_queue_length-Leaves :
      (client : AzureDevOpsClient) (name : String) → Leaves view (get_queue_length env client name)
  get_queue_length-Leaves client name =
      Leaves-Adds view _ (Adds-weaken (Uses-Unseen _) _ (get_queue_length-Reads env client name))

  pub delete_external_resources-Leaves :
      (client : AzureDevOpsClient) (cr : AzureDevOps)
      → Leaves view (delete_external_resources env client cr)
  delete_external_resources-Leaves client cr =
      Leaves-Adds view _ (delete_external_resources-Adds env client Uses-Unseen cr)

  pub handle_pod_event-Leaves : (pod : Pod) → Leaves view (handle_pod_event env pod)
  unfolding deployments
  handle_pod_event-Leaves pod =
      Leaves-Adds view _ (handle_pod_event-Adds env Uses-Unseen Looks-Unseen (λ j l. refl) pod)

  pub new_client-Leaves : (pat url project : String) → Leaves view (new_client pat url project)
  unfolding new_client
  new_client-Leaves pat url project = record { at = λ s. refl }

  pub stamp_scaling-Leaves : (b : Bool) (cr : AzureDevOps) → Leaves view (stamp_scaling env b cr)
  unfolding stamp_scaling deployments
  stamp_scaling-Leaves true cr = record { at = λ s. refl }
  stamp_scaling-Leaves false cr = Leaves-pure cr

  pub event-Leaves :
      (t : EventType) (reason : String) (m : Message)
      → Leaves view (event env (Call.record_event t reason m))
  unfolding event deployments
  event-Leaves t reason m = record { at = λ s. refl }

  pub report-Leaves :
      (cr : AzureDevOps) (reason : String) (a b : Message) → Leaves view (report env cr reason a b)
  unfolding report
  report-Leaves cr reason a b = search (leaves_rules, event-Leaves, update_status-Leaves)

  pub observe-Leaves : (cr : AzureDevOps) (r : Reply Deployment) → Leaves view (observe env cr r)
  unfolding observe observed
  observe-Leaves cr (fail e) = Leaves-pure cr
  observe-Leaves cr (reply d) =
      Leaves-in_case d.spec.replicas _ _ (record { at = λ s. refl }) (λ n. stamp_scaling-Leaves _ _)

  pub conclude-Leaves :
      (copy : AzureDevOps) (p : CtrlResult × AzureDevOps) → Leaves view (conclude env copy p)
  unfolding conclude deployments
  conclude-Leaves copy (result, cr) =
      search (leaves_rules, observe-Leaves, update_status-Leaves, event-Leaves) depth 12

  pub failure_interval-Leaves : (o : Option Time) → Leaves view (failure_interval env o)
  unfolding failure_interval deployments
  failure_interval-Leaves none = search leaves_rules
  failure_interval-Leaves (some t) = search leaves_rules

  pub queue_failed-Leaves : (cr : AzureDevOps) (e : Error) → Leaves view (queue_failed env cr e)
  unfolding queue_failed deployments
  queue_failed-Leaves cr e = search (leaves_rules, report-Leaves, failure_interval-Leaves) depth 8

  pub update_resource-Leaves : (cr : AzureDevOps) → Leaves view (update_resource env cr)
  unfolding update_resource deployments
  update_resource-Leaves cr = search leaves_rules

  pub add_finalizer-Leaves : (cr : AzureDevOps) → Leaves view (add_finalizer env cr)
  unfolding add_finalizer
  add_finalizer-Leaves cr = search (leaves_rules, update_resource-Leaves)

  pub remove_finalizer-Leaves : (cr : AzureDevOps) → Leaves view (remove_finalizer env cr)
  unfolding remove_finalizer
  remove_finalizer-Leaves cr = search (leaves_rules, update_resource-Leaves)

  pub clean_up-Leaves : (cr : AzureDevOps) (pat : String) → Leaves view (clean_up env cr pat)
  unfolding clean_up
  clean_up-Leaves cr pat =
      search
        (leaves_rules, new_client-Leaves, delete_external_resources-Leaves, remove_finalizer-Leaves)

  pub finalize-Leaves :
      (key : NamespacedName) (cr : AzureDevOps) → Leaves view (finalize env key cr)
  unfolding finalize
  finalize-Leaves key cr = search (leaves_rules, get_pat_token-Leaves, clean_up-Leaves)

  -- What follows the stamp may use that the metadata are the same.
  pub stamped-Leaves :
      {B : Type 0} (b : Bool) (x : AzureDevOps) (f : AzureDevOps → Action B)
      → ((y : AzureDevOps) → y.meta ≡ x.meta → Leaves view (f y))
      → Leaves view (stamp_scaling env b x >>= f)
  unfolding stamp_scaling deployments
  stamped-Leaves true x f h = record { at = λ s. (h _ refl).at _ }
  stamped-Leaves false x f h = record { at = λ s. (h x refl).at s }
