-- ===== src/Kubernetes/Cluster.antt =====
-- The Deployments that the API server holds: a history of calls, replayed on what it held before.
-- It describes how the API server is documented to answer; the operator's code is not in it.
use azdo_kube_operator.Base.{none, some, [], ◌∷◌, ◌≡◌}
use azdo_kube_operator.Kube.{NamespacedName, Deployment, AzureDevOps, ObjectMeta, reply}
use azdo_kube_operator.Kubernetes.Stores.{Store, found, create_in, update_in, IsKeyed}
use azdo_kube_operator.World.{Env, Call, Log}
use azdo_kube_operator.Kubernetes.Deployments.{key_of}

abbrev pub apply_call : Call → Store Deployment → Store Deployment
apply_call (Call.create_deployment d) store =
    create_in (key_of d.meta) d (store (key_of d.meta)) store
apply_call (Call.update_deployment d) store =
    update_in (key_of d.meta) d (store (key_of d.meta)) store
apply_call _ store = store

module _ (initial : Store Deployment) where
  unfoldable pub deployments : Log → Store Deployment
  deployments [] = initial
  deployments (c ∷ l) = apply_call c (deployments l)

-- The API server answers by what it holds, and nobody else writes Deployments.
pub record Serves (env : Env) (initial : Store Deployment) : Type 0 where
  pub keyed : IsKeyed (λ (d : Deployment). key_of d.meta) initial
  pub reads :
      (l : Log) (k : NamespacedName) → env.get_deployment l k ≡ found (deployments initial l k)
  pub creates :
      (l : Log) (d : Deployment)
      → deployments initial l (key_of d.meta) ≡ none
      → env.create_deployment l d ≡ none
  pub updates :
      (l : Log) (d e : Deployment)
      → deployments initial l (key_of d.meta) ≡ some e
      → env.update_deployment l d ≡ none

-- The owner of an object can be set, which changes neither its name nor its namespace.
pub record Owns (env : Env) : Type 0 where
  pub owned : AzureDevOps → ObjectMeta → ObjectMeta
  pub sets :
      (cr : AzureDevOps) (m : ObjectMeta) → env.set_controller_reference cr m ≡ reply (owned cr m)
  pub keeps : (cr : AzureDevOps) (m : ObjectMeta) → key_of (owned cr m) ≡ key_of m
