-- ===== src/Controller/Marks.antt =====
-- That a resource gets the finalizer by one step of its life.
use azdo_kube_operator.World.Inversion.{Reply-cases}
use azdo_kube_operator.Base.{
  ◌≡◌, ◌≢◌, subst, ap, sym, ◌∙◌, true, false, Option, none, some, inl, inr, ◌∷◌,
}
use azdo_kube_operator.Kube.{AzureDevOps, NamespacedName, reply}
use azdo_kube_operator.World.{Env, Call, Log, State}
use azdo_kube_operator.Devops.{finalizer_name}
use azdo_kube_operator.Kubernetes.{key_of}
use azdo_kube_operator.Controller.{update_resource, add_finalizer}
use azdo_kube_operator.Controller.Life.{
  Phase, absent, unmarked, marked, phase_of, Step, stays, marks, held, phase, Keeps,
}
use azdo_kube_operator.Controller.Stages.{stage, refused, accepted, becomes_marked}

marks_between : {C : Type 0} {p q : Phase} → p ≡ unmarked → q ≡ marked → Step C p q
marks_between hp hq = rw (hp, hq) marks

module _ (env : Env) (key : NamespacedName) (initial : Option AzureDevOps)
    (keeps : Keeps env key initial) where
  abbrev at : Log → Phase
  at = stage env key initial

  -- An accepted update of a resource that stays and has the finalizer.
  marked_by :
      (l : Log) (m u : AzureDevOps)
      → key_of m.meta ≡ key
      → m.meta.deletion_timestamp ≡ none
      → env.contains_finalizer m.meta finalizer_name ≡ true
      → at l ≢ absent
      → env.update_resource l m ≡ reply u
      → at (Call.update_resource m ∷ l) ≡ marked
  marked_by l m u own t c p r =
      let (k, ts, fs, cs) = keeps.answers l m u r in
      accepted env key initial l m own u r
      ∙ becomes_marked env key initial u (held env key initial l) (ts ∙ t) (cs ∙ c) p

  module _ (cr : AzureDevOps) (s : State) (own : key_of cr.meta ≡ key)
      (now : held env key initial s.log ≡ some cr) where
    pub stage_now :
        at s.log
        ≡ phase_of cr.meta.deletion_timestamp (env.contains_finalizer cr.meta finalizer_name)
    unfolding phase
    stage_now = ap (phase env key) now

    pub add_finalizer-Step :
        {C : Type 0}
        → cr.meta.deletion_timestamp ≡ none
        → env.contains_finalizer cr.meta finalizer_name ≡ false
        → Step C (at s.log) (at (add_finalizer env cr s).1.log)
    unfolding add_finalizer update_resource phase_of
    add_finalizer-Step {C = C} stays_on without =
        let m = record cr { meta = env.add_finalizer cr.meta finalizer_name } in
        let (k, ts, c) = keeps.adds cr.meta in
        let before =
          stage_now
          ∙ ap (λ x. phase_of x (env.contains_finalizer cr.meta finalizer_name)) stays_on
          ∙ ap (phase_of none) without in
        elim (Reply-cases (env.update_resource s.log m)) [
          | inr (e, r) ↦ rw r (
              subst (Step C (at s.log)) (sym (refused env key initial s.log m (k ∙ own) e r)) stays)
          | inl (once, r) ↦
              let l = Call.update_resource m ∷ s.log in
              let first =
                marked_by s.log m once (k ∙ own) (ts ∙ stays_on) c
                  (λ x. let y = sym before ∙ x in cc) r in
              let (k', ts', fs', c') = keeps.answers s.log m once r in
              elim (Reply-cases (env.update_resource l once)) [
                | inr (e, r2) ↦
                    rw (r, r2)
                      (marks_between before
                        (refused env key initial l once (k' ∙ k ∙ own) e r2 ∙ first))
                | inl (twice, r2) ↦
                    rw (r, r2)
                      (marks_between before (
                        marked_by l once twice (k' ∙ k ∙ own) (ts' ∙ ts ∙ stays_on) (c' ∙ c)
                          (λ x. let y = sym first ∙ x in cc) r2))
              ]
        ]
