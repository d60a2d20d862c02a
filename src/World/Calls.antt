-- ===== src/World/Calls.antt =====
-- The calls that leave the program. A log of them, the newest first, is the history on which the
-- surroundings' answers may depend.
use azdo_kube_operator.Base.{ℕ, String, List, ℤ}
use azdo_kube_operator.Kube.{NamespacedName, AzureDevOps, Deployment, Job, Message}
use azdo_kube_operator.World.Http.{Request}

-- `corev1.EventTypeNormal`, `corev1.EventTypeWarning`
pub data EventType : Type 0 where
  normal warning : EventType

pub data Call : Type 0 where
  get_pod : NamespacedName → Call
  get_resource : NamespacedName → Call
  get_secret : NamespacedName → Call
  get_deployment : NamespacedName → Call
  get_job : NamespacedName → Call
  create_deployment : Deployment → Call
  update_deployment : Deployment → Call
  create_job : Job → Call
  update_job : Job → Call
  update_resource : AzureDevOps → Call
  update_status : AzureDevOps → Call
  record_event : EventType → String → Message → Call
  http : Request → Call
  close_body : ℕ → Call
  read_body : ℕ → Call
  clock : Call
  random : ℕ → Call
  limiter : Call
  wait : ℤ → Call
  sleep : ℤ → Call

abbrev pub Log : Type 0
Log = List Call
