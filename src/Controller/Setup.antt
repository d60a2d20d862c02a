-- ===== src/Controller/Setup.antt =====
-- `AzureDevOpsReconciler`, `NewReconcile`, `NewKubernetesClient` and `SetupWithManager`: what the
-- controller is given before it runs. The manager's client and scheme stand for themselves.
use azdo_kube_operator.Base.{
  ◌*◌, String, Option, none, some, List, [], ◌∷◌, ℤ, pos, eqb_ℤ, if◌then◌else◌,
}
use azdo_kube_operator.Devops.{AzureDevOpsClient, second}

abbrev pub default_reconcile_timeout : ℤ
default_reconcile_timeout = pos (30 * second)

-- `mgr.GetClient()`
pub data ManagerClient : Type 0 where
  manager_client : ManagerClient

pub record KubernetesClient : Type 0 where
  pub client : ManagerClient

unfoldable pub new_kubernetes_client : ManagerClient → KubernetesClient
new_kubernetes_client c = record { client = c }

-- `usecases.Reconcile`: the client of Azure DevOps is made anew by each reconciliation.
pub record Reconcile : Type 0 where
  pub kubernetes_client : KubernetesClient
  pub azure_client : Option AzureDevOpsClient

unfoldable pub new_reconcile : KubernetesClient → Option AzureDevOpsClient → Reconcile
new_reconcile kubernetes_client azure_client = record {
  kubernetes_client = kubernetes_client;
  azure_client = azure_client;
}

pub record AzureDevOpsReconciler : Type 0 where
  pub client : ManagerClient
  pub usecase : Option Reconcile
  pub recorder : Option String
  pub reconcile_timeout : ℤ

-- The kinds whose events lead to a reconciliation.
pub data Watch : Type 0 where
  for_kind owns : String → Watch

unfoldable pub watches : List Watch
watches = for_kind "AzureDevOps" ∷ owns "Deployment" ∷ owns "Pod" ∷ []

-- A timeout of 0 is the default one.
unfoldable pub prepared : AzureDevOpsReconciler → AzureDevOpsReconciler
unfolding new_kubernetes_client new_reconcile
prepared r = record r {
  recorder = some "azuredevops-controller";
  reconcile_timeout =
      if eqb_ℤ r.reconcile_timeout (pos 0) then default_reconcile_timeout else r.reconcile_timeout;
  usecase = some (new_reconcile (new_kubernetes_client manager_client) none);
}
