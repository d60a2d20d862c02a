-- ===== src/Kubernetes/Refinement.antt =====
-- That the reconciliation of a Deployment implements one step on the Deployments that are held.
use azdo_kube_operator.Base.{
  ℕ, false, Option, none, some, [], ◌∷◌, if◌then◌else◌, ◌≡◌, refl, ap, ◌∙◌, inl, inr, Bool-cases,
}
use azdo_kube_operator.Kube.{NamespacedName, ObjectMeta, AzureDevOps, Deployment, reply}
use azdo_kube_operator.World.{Env, DeepEqual, State, Call, Log, ok}
use azdo_kube_operator.Kubernetes.{
  needs_update, updated_deployment, add_standard_labels, key_of, attempt_deployment, after_get,
  update_existing, send_update, after_update, create_deployment, finished, deployment_loop,
  reconcile_deployment_internal,
}
use azdo_kube_operator.Kubernetes.Updates.{IsReflexive, updated_deployment_settles}
use azdo_kube_operator.Kubernetes.Stores.{
  Store, put, create_in, update_in, IsKeyed, create_in-IsKeyed, update_in-IsKeyed, put_held,
}
use azdo_kube_operator.Kubernetes.Cluster.{apply_call, deployments, Serves}

-- What is wanted of the object under a key, by what is held.
unfoldable pub settled : DeepEqual → Deployment → Option Deployment → Deployment
settled eq desired none = desired
settled eq desired (some e) =
    if needs_update eq e.spec desired.spec then updated_deployment eq e desired else e

abbrev deployment_key : Deployment → NamespacedName
deployment_key d = key_of d.meta

apply_call-IsKeyed :
    (c : Call) (store : Store Deployment)
    → IsKeyed deployment_key store
    → IsKeyed deployment_key (apply_call c store)
apply_call-IsKeyed (Call.create_deployment d) store h = create_in-IsKeyed deployment_key d _ store h
apply_call-IsKeyed (Call.update_deployment d) store h = update_in-IsKeyed deployment_key d _ store h
apply_call-IsKeyed _ store h = h

module _ (eq : DeepEqual) (r : IsReflexive eq) where
  pub settled_equal :
      (desired : Deployment) (o : Option Deployment)
      → needs_update eq (settled eq desired o).spec desired.spec ≡ false
  unfolding settled needs_update
  settled_equal desired none =
      rw
        (
          r.replicas desired.spec.replicas,
          r.pod_spec desired.spec.template.spec,
          r.labels desired.spec.template.labels,
          r.labels desired.spec.template.annotations,
          r.labels desired.spec.selector,
        )
        refl
  settled_equal desired (some e) = elim (Bool-cases (needs_update eq e.spec desired.spec)) [
    | inl differs ↦ rw differs (updated_deployment_settles eq r e desired).0
    | inr same ↦ rw same same
  ]

module _ (env : Env) (initial : Store Deployment) (serves : Serves env initial) where
  deployments-IsKeyed : (l : Log) → IsKeyed deployment_key (deployments initial l)
  unfolding deployments
  deployments-IsKeyed [] = serves.keyed
  deployments-IsKeyed (c ∷ l) = apply_call-IsKeyed c _ (deployments-IsKeyed l)

  -- The log of one round, by what is held under the key.
  round_log : Deployment → Option Deployment → Log → Log
  round_log desired none l =
      Call.create_deployment desired ∷ Call.get_deployment (key_of desired.meta) ∷ l
  round_log desired (some e) l =
      if needs_update env.deep_equal e.spec desired.spec
      then Call.update_deployment (updated_deployment env.deep_equal e desired)
        ∷ Call.get_deployment (key_of desired.meta)
        ∷ l
      else Call.get_deployment (key_of desired.meta) ∷ l

  updated_key :
      (l : Log) (desired e : Deployment)
      → deployments initial l (key_of desired.meta) ≡ some e
      → key_of (updated_deployment env.deep_equal e desired).meta ≡ key_of desired.meta
  unfolding updated_deployment
  updated_key l desired e held = deployments-IsKeyed l (key_of desired.meta) e held

  round_of :
      (desired : Deployment) (n : ℕ) (s : State) (o : Option Deployment)
      → deployments initial s.log (key_of desired.meta) ≡ o
      → attempt_deployment env n desired s
        ≡ (ok finished, record s { log = round_log desired o s.log })
  unfolding attempt_deployment after_get update_existing send_update after_update create_deployment
      round_log deployments
  round_of desired n s none held =
      rw
        (
          serves.reads s.log (key_of desired.meta),
          held,
          serves.creates (Call.get_deployment (key_of desired.meta) ∷ s.log) desired held,
        )
        refl
  round_of desired n s (some e) held =
      elim (Bool-cases (needs_update env.deep_equal e.spec desired.spec)) [
        | inl differs ↦
            let u = updated_deployment env.deep_equal e desired in
            let accepted =
              serves.updates (Call.get_deployment (key_of desired.meta) ∷ s.log) u e
                (ap (deployments initial s.log) (updated_key s.log desired e held) ∙ held) in
            rw (serves.reads s.log (key_of desired.meta), held, differs, accepted) refl
        | inr same ↦ rw (serves.reads s.log (key_of desired.meta), held, same) refl
      ]

  -- What a round leaves is what is wanted under the key, and what was held under the others.
  round_stores :
      (desired : Deployment) (l : Log) (o : Option Deployment) (j : NamespacedName)
      → deployments initial l (key_of desired.meta) ≡ o
      → deployments initial (round_log desired o l) j
        ≡ put (key_of desired.meta) (settled env.deep_equal desired o) (deployments initial l) j
  unfolding round_log deployments settled create_in update_in
  round_stores desired l none j held = rw held refl
  round_stores desired l (some e) j held =
      elim (Bool-cases (needs_update env.deep_equal e.spec desired.spec)) [
        | inl differs ↦ rw differs (rw (updated_key l desired e held, held) refl)
        | inr same ↦ rw same (put_held (key_of desired.meta) e (deployments initial l) j held)
      ]

  runs :
      (cr : AzureDevOps) (desired : Deployment) (meta : ObjectMeta) (s : State)
      → env.set_controller_reference cr desired.meta ≡ reply meta
      → let wanted = record desired { meta = add_standard_labels meta } in
        reconcile_deployment_internal env cr desired s ≡ (
          ok tt,
          record s { log = round_log wanted (deployments initial s.log (key_of meta)) s.log },
        )
  unfolding reconcile_deployment_internal add_standard_labels deployment_loop round_log
  runs cr desired meta s owned =
      let wanted = record desired { meta = add_standard_labels meta } in
      rw (owned, round_of wanted 0 s _ refl) refl

  -- Where the API server answers by what it holds and nobody else writes Deployments, the
  -- reconciliation of a Deployment whose owner can be set succeeds, leaves under its key what is
  -- wanted, by what was held there, and leaves what is held under each other key.
  pub reconcile_deployment_internal_refines :
      (cr : AzureDevOps) (desired : Deployment) (meta : ObjectMeta) (s : State)
      → env.set_controller_reference cr desired.meta ≡ reply meta
      → let wanted = record desired { meta = add_standard_labels meta } in
        let held = deployments initial s.log in
        let (r, s') = reconcile_deployment_internal env cr desired s in
        (r ≡ ok tt)
        × ((j : NamespacedName)
            → deployments initial s'.log j
              ≡ put (key_of meta) (settled env.deep_equal wanted (held (key_of meta))) held j)
  unfolding add_standard_labels
  reconcile_deployment_internal_refines cr desired meta s owned =
      let wanted = record desired { meta = add_standard_labels meta } in
      rw (runs cr desired meta s owned) (refl, λ j. round_stores wanted s.log _ j refl)
