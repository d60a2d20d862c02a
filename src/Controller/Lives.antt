-- ===== src/Controller/Lives.antt =====
-- That `Reconcile` moves a resource only along the steps of its life.
use azdo_kube_operator.Base.{
  ◌≡◌, refl, subst, if◌then◌else◌, sym, Bool-cases, Option, Option-cases, none, some, inl, inr, ◌∷◌,
}
use azdo_kube_operator.Kube.{
  is_not_found, Pod, Time, AzureDevOps, NamespacedName, Reply, reply, fail,
}
use azdo_kube_operator.World.{Env, Call, Log, State, in_case}
use azdo_kube_operator.Devops.{finalizer_name}
use azdo_kube_operator.Kubernetes.{key_of}
use azdo_kube_operator.Controller.{
  add_finalizer, finalize, returned, one_minute, ten_seconds, process, reconcile_resource,
  after_get_resource, after_get_pod, reconcile, handle_pod_event,
}
use azdo_kube_operator.Usecase.{after}
use azdo_kube_operator.Controller.Writes.{process-Unwritten, handle_pod_event-Unwritten}
use azdo_kube_operator.Controller.Life.{Cleaned, Phase, Step, stays, held, phase, Keeps}
use azdo_kube_operator.Controller.Stages.{stage}
use azdo_kube_operator.Controller.Marks.{stage_now, add_finalizer-Step}
use azdo_kube_operator.Controller.Releases.{branch-Step, quiet-Step, finalize-Step}

module _ (env : Env) (key : NamespacedName) (initial : Option AzureDevOps)
    (keeps : Keeps env key initial) where
  abbrev at : Log → Phase
  at = stage env key initial

  -- From a state on, the resource stays where it was or makes one step.
  abbrev Moves : State → Phase → Type 0
  Moves s q = Step (Cleaned env (held env key initial s.log)) (at s.log) q

  reconcile_resource-Step :
      (cr : AzureDevOps) (s : State)
      → key_of cr.meta ≡ key
      → held env key initial s.log ≡ some cr
      → Step
          (Cleaned env (held env key initial s.log))
          (at s.log)
          (at (reconcile_resource env key cr s).1.log)
  unfolding reconcile_resource
  reconcile_resource-Step cr s own now =
      let staying =
        if env.contains_finalizer cr.meta finalizer_name
        then process env key cr
        else add_finalizer env cr in
      let choose = λ (o : Option Time). in_case o staying (λ t. finalize env key cr) in
      let along =
        λ (o : Option Time) (e : cr.meta.deletion_timestamp ≡ o)
            (k : Moves s (at (choose o s).1.log)).
          subst (λ o. Moves s (at (choose o s).1.log)) (sym e) k in
      elim (Option-cases cr.meta.deletion_timestamp) [
        | inr (t, ends) ↦ along (some t) ends (
            finalize-Step env key initial keeps cr own t ends (held env key initial s.log) now s
              (stage_now env key initial keeps cr s own now))
        | inl stays_on ↦
            along none stays_on (elim (Bool-cases (env.contains_finalizer cr.meta finalizer_name)) [
              | inl e ↦ rw e (
                  quiet-Step env key initial keeps (Cleaned env (held env key initial s.log))
                    (at s.log) (process env key cr) s refl (process-Unwritten env key cr))
              | inr e ↦ rw e (add_finalizer-Step env key initial keeps cr s own now stays_on e)
            ])
      ]

  after_get_resource-Step :
      (r : Reply AzureDevOps) (s : State)
      → ((cr : AzureDevOps)
          → r ≡ reply cr
          → (held env key initial s.log ≡ some cr) × (key_of cr.meta ≡ key))
      → Step
          (Cleaned env (held env key initial s.log))
          (at s.log)
          (at (after_get_resource env key r s).1.log)
  unfolding after_get_resource
  after_get_resource-Step (reply cr) s read =
      let (now, own) = read cr refl in reconcile_resource-Step cr s own now
  after_get_resource-Step (fail e) s read = elim (Bool-cases (is_not_found e)) [
    | inl h ↦ rw h stays
    | inr h ↦ rw h stays
  ]

  after_get_pod-Step :
      (r : Reply Pod) (s : State)
      → Step
          (Cleaned env (held env key initial s.log))
          (at s.log)
          (at (after_get_pod env key r s).1.log)
  unfolding after_get_pod held
  after_get_pod-Step (reply pod) s =
      branch-Step env key initial keeps (Cleaned env (held env key initial s.log)) (at s.log)
        (handle_pod_event env pod) (λ done. returned (after ten_seconds) none)
        (λ e. returned (after one_minute) (some e)) s refl (handle_pod_event-Unwritten env pod)
        (λ u t done h. subst (Moves s) (sym h) stays) (λ e t h. subst (Moves s) (sym h) stays)
  after_get_pod-Step (fail e) s = elim (Bool-cases (is_not_found e)) [
    | inl h ↦ rw h (
        after_get_resource-Step (env.get_resource s.log key)
          (record s { log = Call.get_resource key ∷ s.log }) (λ cr r. keeps.reads s.log cr r))
    | inr h ↦ rw h stays
  ]

  -- Where the API server answers by what it holds, keeps what is sent or refuses, the library adds
  -- and removes finalizers, and nobody else writes the resource meanwhile, a reconciliation moves
  -- it along one step of its life at most: it gets the finalizer, or it loses it and may go, but
  -- only while it is being deleted and after its cleanup succeeded; it is never made.
  pub reconcile_refines :
      (s : State)
      → let now = held env key initial s.log in
        Step
          (Cleaned env now)
          (phase env key now)
          (phase env key (held env key initial (reconcile env key s).1.log))
  unfolding reconcile held
  reconcile_refines s =
      after_get_pod-Step (env.get_pod s.log key) (record s { log = Call.get_pod key ∷ s.log })
