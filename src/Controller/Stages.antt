-- ===== src/Controller/Stages.antt =====
-- How a call of the API server moves the resource that is held.
use azdo_kube_operator.Base.{
  ◌≡◌, ◌≢◌, refl, subst, is_empty, if◌then◌else◌, ap, sym, ◌∙◌, Bool, true, false, Bool-cases,
  Option, none, some, inl, inr, ◌∷◌,
}
use text.Mathlib.TextPositions.{eq_refl}
use azdo_kube_operator.Kube.{Time, AzureDevOps, NamespacedName, reply, fail, ApiError}
use azdo_kube_operator.World.{Env, Call, Log}
use azdo_kube_operator.World.Footprint.{Extends, same, more}
use azdo_kube_operator.Devops.{finalizer_name}
use azdo_kube_operator.Kubernetes.{key_of}
use azdo_kube_operator.Kubernetes.Stores.{same_key}
use azdo_kube_operator.Controller.Finalizers.{Unwritten}
use azdo_kube_operator.Controller.Life.{
  Phase, absent, marked, deleting, phase_of, Step, releases, unhooks, after_update, after_status,
  is_gone, moved, held, phase,
}

same_key_refl : (k : NamespacedName) → same_key k k ≡ true
same_key_refl k = rw (eq_refl k.name, eq_refl k.namespace) refl

module _ (env : Env) (key : NamespacedName) (initial : Option AzureDevOps) where
  abbrev pub stage : Log → Phase
  stage l = phase env key (held env key initial l)

  -- A write of the status does not move the resource.
  status_stage :
      (answer : Option ApiError) (cr : AzureDevOps) (old : Option AzureDevOps)
      → phase env key (after_status answer cr old) ≡ phase env key old
  unfolding after_status phase
  status_stage (some e) cr old = refl
  status_stage none cr none = refl
  status_stage none cr (some old) = refl

  moved_stage :
      (l : Log) (c : Call) (old : Option AzureDevOps)
      → Unwritten c
      → phase env key (moved env key l c old) ≡ phase env key old
  moved_stage l (Call.update_resource cr) old u = cc
  moved_stage l (Call.update_status cr) old u = elim (Bool-cases (same_key (key_of cr.meta) key)) [
    | inl e ↦ rw e (status_stage (env.update_status l cr) cr old)
    | inr e ↦ rw e refl
  ]
  moved_stage l (Call.get_pod k) old u = refl
  moved_stage l _ old u = refl

  pub quiet_stage : {a b : Log} → Extends Unwritten a b → stage b ≡ stage a
  unfolding held
  quiet_stage same = refl
  quiet_stage (more {c = c} {m = m} u h) = moved_stage m c _ u ∙ quiet_stage h

  module _ (l : Log) (cr : AzureDevOps) (own : key_of cr.meta ≡ key) where
    own_key : same_key (key_of cr.meta) key ≡ true
    own_key = ap (λ k. same_key k key) own ∙ same_key_refl key

    pub refused :
        (e : ApiError)
        → env.update_resource l cr ≡ fail e
        → stage (Call.update_resource cr ∷ l) ≡ stage l
    unfolding held after_update
    refused e h = rw own_key (rw h refl)

    pub accepted :
        (u : AzureDevOps)
        → env.update_resource l cr ≡ reply u
        → stage (Call.update_resource cr ∷ l)
          ≡ phase env key (after_update (reply u) (held env key initial l))
    unfolding held
    accepted u h = rw own_key (rw h refl)

  -- An accepted update with the finalizer of a resource that stays.
  pub becomes_marked :
      (u : AzureDevOps) (old : Option AzureDevOps)
      → u.meta.deletion_timestamp ≡ none
      → env.contains_finalizer u.meta finalizer_name ≡ true
      → phase env key old ≢ absent
      → phase env key (after_update (reply u) old) ≡ marked
  unfolding after_update phase phase_of
  becomes_marked u none t c p = absurd (p refl)
  becomes_marked u (some old) t c p =
      ap (λ x. phase env key (if is_gone x (is_empty u.meta.finalizers) then none else some u)) t
      ∙ ap (λ x. phase_of x (env.contains_finalizer u.meta finalizer_name)) t
      ∙ ap (phase_of none) c

  released :
      {C : Type 0}
      → C
      → (b : Bool) (u : AzureDevOps) (t : Time) → u.meta.deletion_timestamp ≡ some t
      → env.contains_finalizer u.meta finalizer_name ≡ false
      → Step C deleting (phase env key (if b then none else some u))
  unfolding phase phase_of
  released {C = C} proof true u t ts c = releases proof
  released {C = C} proof false u t ts c =
      subst (Step C deleting)
        (sym (
          ap (λ x. phase_of x (env.contains_finalizer u.meta finalizer_name)) ts
          ∙ ap (phase_of (some t)) c))
        (unhooks proof)

  -- An accepted update without the finalizer of a resource that is being deleted.
  pub becomes_released :
      {C : Type 0}
      → C
      → (u : AzureDevOps) (old : Option AzureDevOps) (t : Time) → u.meta.deletion_timestamp ≡ some t
      → env.contains_finalizer u.meta finalizer_name ≡ false
      → phase env key old ≡ deleting
      → Step C deleting (phase env key (after_update (reply u) old))
  unfolding after_update phase
  becomes_released proof u none t ts c p = cc
  becomes_released {C = C} proof u (some old) t ts c p =
      subst (Step C deleting)
        (sym (
          ap (λ x. phase env key (if is_gone x (is_empty u.meta.finalizers) then none else some u))
            ts))
        (released proof (is_empty u.meta.finalizers) u t ts c)
