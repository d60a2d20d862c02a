-- ===== src/Controller/Names.antt =====
-- The names by which the controller finds the workload and the agents again.
use azdo_kube_operator.Base.{
  ℤ, ◌≡◌, ◌≢◌, refl, ap, ◌∙◌, String, true, false, concat, concat-ne, has_dash, has_prefix,
  has_prefix-concat, before_last_dash-concat, str_ne, some,
}
use azdo_kube_operator.Kube.{AzureDevOps}
use azdo_kube_operator.Kubernetes.{desired_deployment, workload_meta, key_of}
use azdo_kube_operator.Controller.{
  deployment_key, pod_name_without_hash, strip_segment, unless_empty, or_whole, strip_again,
}

-- The deployment whose counts the status shows is never the one that the operator writes.
pub deployment_key_misses :
    (cr : AzureDevOps) (replicas : ℤ)
    → deployment_key cr ≢ key_of (desired_deployment cr replicas).meta
unfolding deployment_key desired_deployment workload_meta concat
deployment_key_misses cr replicas e = concat-ne cr.meta.name _ _ (ap (λ k. k.name) e)

concat-ne_empty : (s t : String) → s ≢ "" → concat s t ≢ ""
unfolding concat
concat-ne_empty String.[] t h = absurd (h refl)
concat-ne_empty (String.◌∷◌ c s) t h = cc

strip_segment-concat :
    (s t : String) → s ≢ "" → has_dash t ≡ false → strip_segment (concat s (concat "-" t)) ≡ some s
unfolding strip_segment
strip_segment-concat s t h k =
    ap unless_empty (before_last_dash-concat s t k) ∙ rw (str_ne s "" h) refl

-- Of a pod's name, a workload's name that is not empty with two segments behind it that hold no
-- dash, the workload's name is left.
pub pod_name_without_hash-concat :
    (s hash suffix : String)
    → s ≢ ""
    → has_dash hash ≡ false
    → has_dash suffix ≡ false
    → pod_name_without_hash (concat (concat s (concat "-" hash)) (concat "-" suffix)) ≡ s
unfolding pod_name_without_hash
pod_name_without_hash-concat s hash suffix h k l =
    let name = concat (concat s (concat "-" hash)) (concat "-" suffix) in
    ap (λ o. strip_again o name)
      (strip_segment-concat (concat s (concat "-" hash)) suffix (concat-ne_empty s _ h) l)
    ∙ ap (λ o. or_whole o (concat s (concat "-" hash))) (strip_segment-concat s hash h k)

-- So a pod that ends has every agent removed whose name starts with the name of the workload.
pub has_prefix-pod_name :
    (s hash suffix agent : String)
    → s ≢ ""
    → has_dash hash ≡ false
    → has_dash suffix ≡ false
    → has_prefix
        (concat s agent)
        (pod_name_without_hash (concat (concat s (concat "-" hash)) (concat "-" suffix)))
      ≡ true
has_prefix-pod_name s hash suffix agent h k l =
    rw (pod_name_without_hash-concat s hash suffix h k l) (has_prefix-concat s agent)
