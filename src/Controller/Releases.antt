-- ===== src/Controller/Releases.antt =====
-- That a resource that is being deleted is released only after its cleanup succeeded.
use azdo_kube_operator.World.Inversion.{Reply-cases}
use azdo_kube_operator.Base.{
  ◌≡◌, refl, subst, ap, sym, ◌∙◌, String, Bool-cases, Option, some, [], inl, inr,
}
use azdo_kube_operator.Kube.{Time, AzureDevOps, NamespacedName, Error}
use azdo_kube_operator.World.{Env, Log, State, Action, Result, ok, err, panic, resume, branch}
use azdo_kube_operator.World.Footprint.{Adds, Adds-weaken}
use azdo_kube_operator.Devops.{finalizer_name, new_client, client_of}
use azdo_kube_operator.Kubernetes.{key_of}
use azdo_kube_operator.Controller.{
  update_resource, remove_finalizer, clean_up, finalize, delete_external_resources, returned,
  one_minute, get_pat_token,
}
use azdo_kube_operator.Usecase.{after}
use azdo_kube_operator.Controller.Finalizers.{
  Unwritten, Looks-Unwritten, delete_external_resources-Unwritten,
}
use azdo_kube_operator.Controller.Tokens.{get_pat_token_reads}
use azdo_kube_operator.Controller.Life.{
  Cleaned, Phase, deleting, phase_of, Step, stays, held, Keeps,
}
use azdo_kube_operator.Controller.Stages.{stage, quiet_stage, refused, accepted, becomes_released}

module _ (env : Env) (key : NamespacedName) (initial : Option AzureDevOps)
    (keeps : Keeps env key initial) where
  abbrev at : Log → Phase
  at = stage env key initial

  module _ {A B : Type 0} (C : Type 0) where
    resume-Step :
        (p : Phase) (x : Result A) (f : A → Action B) (g : Error → Action B) (s : State)
        → at s.log ≡ p
        → ((a : A) (t : State) → x ≡ ok a → at t.log ≡ p → Step C p (at (f a t).1.log))
        → ((e : Error) (t : State) → at t.log ≡ p → Step C p (at (g e t).1.log))
        → Step C p (at (resume x f g s).1.log)
    resume-Step p (ok a) f g s h kf kg = kf a s refl h
    resume-Step p (err e) f g s h kf kg = kg e s h
    resume-Step p panic f g s h kf kg = subst (Step C p) (sym h) stays

    -- What writes the status at most, and then one of two steps.
    pub branch-Step :
        (p : Phase) (m : Action A) (f : A → Action B) (g : Error → Action B) (s : State)
        → at s.log ≡ p
        → Adds Unwritten m
        → ((a : A) (t : State) → (m s).0 ≡ ok a → at t.log ≡ p → Step C p (at (f a t).1.log))
        → ((e : Error) (t : State) → at t.log ≡ p → Step C p (at (g e t).1.log))
        → Step C p (at (branch m f g s).1.log)
    branch-Step p m f g s h km kf kg =
        resume-Step p (m s).0 f g (m s).1 (quiet_stage env key initial (km.at s) ∙ h) kf kg

  module _ {A : Type 0} (C : Type 0) where
    pub quiet-Step :
        (p : Phase) (m : Action A) (s : State)
        → at s.log ≡ p
        → Adds Unwritten m
        → Step C p (at (m s).1.log)
    quiet-Step p m s h km = subst (Step C p) (sym (quiet_stage env key initial (km.at s) ∙ h)) stays

  module _ (cr : AzureDevOps) (own : key_of cr.meta ≡ key) (t : Time)
      (ends : cr.meta.deletion_timestamp ≡ some t) (o : Option AzureDevOps)
      (now : o ≡ some cr) where
    abbrev C : Type 0
    C = Cleaned env o

    remove_finalizer-Step :
        (s : State)
        → C
        → at s.log ≡ deleting
        → Step C deleting (at (remove_finalizer env cr s).1.log)
    unfolding remove_finalizer update_resource
    remove_finalizer-Step s proof h =
        let m = record cr { meta = env.remove_finalizer cr.meta finalizer_name } in
        let (k, ts, c) = keeps.removes cr.meta in
        elim (Reply-cases (env.update_resource s.log m)) [
          | inr (e, r) ↦ rw r (
              subst (Step C deleting) (sym (refused env key initial s.log m (k ∙ own) e r ∙ h))
                stays)
          | inl (u, r) ↦
              let (k', ts', fs', c') = keeps.answers s.log m u r in
              rw r (
                subst (Step C deleting) (sym (accepted env key initial s.log m (k ∙ own) u r)) (
                  becomes_released env key initial proof u (held env key initial s.log) t
                    (ts' ∙ ts ∙ ends) (c' ∙ c) h))
        ]

    clean_up-Step :
        (pat : String) (s : State)
        → at s.log ≡ deleting
        → Step C deleting (at (clean_up env cr pat s).1.log)
    unfolding clean_up new_client
    clean_up-Step pat s h =
        let client = client_of pat cr.spec.org_url cr.spec.project in
        branch-Step C deleting (delete_external_resources env client cr)
          (λ u. remove_finalizer env cr) (λ e. returned (after one_minute) (some e))
          (record s { pool_id_cache = [] }) h (delete_external_resources-Unwritten env client cr)
          (λ u t' done h'.
            remove_finalizer-Step t' (cr, now, pat, record s { pool_id_cache = [] }, done) h')
          (λ e t h'. subst (Step C deleting) (sym h') stays)

    pub finalize-Step :
        (s : State)
        → at s.log
          ≡ phase_of cr.meta.deletion_timestamp (env.contains_finalizer cr.meta finalizer_name)
        → Step C (at s.log) (at (finalize env key cr s).1.log)
    unfolding finalize phase_of
    finalize-Step s stage_is = elim (Bool-cases (env.contains_finalizer cr.meta finalizer_name)) [
      | inr e ↦ rw e stays
      | inl e ↦
          let h =
            stage_is
            ∙ ap (λ x. phase_of x (env.contains_finalizer cr.meta finalizer_name)) ends
            ∙ ap (phase_of (some t)) e in
          rw (e, h)
            (branch-Step C deleting (get_pat_token env cr.spec.pat_secret_ref key.namespace)
              (clean_up env cr) (λ e. returned (after one_minute) (some e)) s h
              (Adds-weaken Looks-Unwritten _
                (get_pat_token_reads env cr.spec.pat_secret_ref key.namespace))
              (λ pat t' e' h'. clean_up-Step pat t' h')
              (λ e t h'. subst (Step C deleting) (sym h') stays))
    ]
