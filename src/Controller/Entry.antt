-- ===== src/Controller/Entry.antt =====
-- The first steps of `Reconcile`.
use azdo_kube_operator.Base.{◌≡◌, refl, ap, ◌∙◌, if◌then◌else◌, none, true, false, ◌∷◌}
use azdo_kube_operator.Kube.{AzureDevOps, NamespacedName, Pod, reply, fail, not_found}
use azdo_kube_operator.World.{Env, State, Call, ok, in_case}
use azdo_kube_operator.Devops.{finalizer_name}
use azdo_kube_operator.Usecase.{after}
use azdo_kube_operator.Controller.{
  reconcile, after_get_pod, after_get_resource, reconcile_resource, process, finalize,
  add_finalizer, update_resource, handle_pod_event, is_ending, ten_seconds, no_delay,
}

module _ (env : Env) (cr : AzureDevOps) where
  unmarked_resource :
      (key : NamespacedName) (s : State)
      → cr.meta.deletion_timestamp ≡ none
      → env.contains_finalizer cr.meta finalizer_name ≡ false
      → reconcile_resource env key cr s ≡ add_finalizer env cr s
  unfolding reconcile_resource
  unmarked_resource key s stays unmarked =
      ap
        (λ o.
          in_case o
            (if env.contains_finalizer cr.meta finalizer_name
              then process env key cr
              else add_finalizer env cr)
            (λ t. finalize env key cr) s)
        stays
      ∙ ap (λ b. (if b then process env key cr else add_finalizer env cr) s) unmarked

  added :
      (once twice : AzureDevOps) (s : State)
      → let marked = record cr { meta = env.add_finalizer cr.meta finalizer_name } in
        env.update_resource s.log marked ≡ reply once
        → env.update_resource (Call.update_resource marked ∷ s.log) once ≡ reply twice
        → add_finalizer env cr s ≡ (
          ok (record {
            result = record { requeue = true; requeue_after = no_delay };
            error = none;
          }),
          record s { log = Call.update_resource once ∷ Call.update_resource marked ∷ s.log },
        )
  unfolding add_finalizer update_resource
  added once twice s first second' = rw (first, second') refl

module _ (env : Env) (key : NamespacedName) (s : State) where
  -- Where a pod has the name of the request and is not ending, nothing else is done: a resource with the
  -- name of a pod is not reconciled.
  pub reconcile_pod_first :
      (pod : Pod)
      → env.get_pod s.log key ≡ reply pod
      → is_ending env pod ≡ false
      → reconcile env key s ≡ (
        ok (record { result = after ten_seconds; error = none }),
        record s { log = Call.get_pod key ∷ s.log },
      )
  unfolding reconcile after_get_pod handle_pod_event
  reconcile_pod_first pod got going = rw (got, going) refl

  module _ (no_pod : env.get_pod s.log key ≡ fail not_found) where
    -- Where neither a pod nor a resource has the name of the request, two reads are all that is done.
    pub reconcile_gone :
        env.get_resource (Call.get_pod key ∷ s.log) key ≡ fail not_found
        → reconcile env key s ≡ (
          ok (record { result = after ten_seconds; error = none }),
          record s { log = Call.get_resource key ∷ Call.get_pod key ∷ s.log },
        )
    unfolding reconcile after_get_pod after_get_resource
    reconcile_gone gone = rw (no_pod, gone) refl

    -- Where no pod has the name of the request, a resource that is not being deleted and has no
    -- finalizer is written twice, first with the finalizer and then as the API server returned it,
    -- if both writes are accepted; it is asked for again at once, and nothing else is done.
    pub reconcile_adds_finalizer :
        (cr once twice : AzureDevOps)
        → let marked = record cr { meta = env.add_finalizer cr.meta finalizer_name } in
          let l = Call.get_resource key ∷ Call.get_pod key ∷ s.log in
          env.get_resource (Call.get_pod key ∷ s.log) key ≡ reply cr
          → cr.meta.deletion_timestamp ≡ none
          → env.contains_finalizer cr.meta finalizer_name ≡ false
          → env.update_resource l marked ≡ reply once
          → env.update_resource (Call.update_resource marked ∷ l) once ≡ reply twice
          → reconcile env key s ≡ (
            ok (record {
              result = record { requeue = true; requeue_after = no_delay };
              error = none;
            }),
            record s { log = Call.update_resource once ∷ Call.update_resource marked ∷ l },
          )
    unfolding reconcile after_get_pod after_get_resource
    reconcile_adds_finalizer cr once twice got stays unmarked first second' =
        let s' = record s { log = Call.get_resource key ∷ Call.get_pod key ∷ s.log } in
        rw (no_pod, got)
          (unmarked_resource env cr key s' stays unmarked
            ∙ added env cr once twice s' first second')
