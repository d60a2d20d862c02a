-- ===== src/Controller/Lifetimes.antt =====
-- What many reconciliations, one after another, can make of a resource.
use azdo_kube_operator.Base.{◌⊎◌, inl, inr, ℕ, zero, suc, ◌≡◌, Option}
use azdo_kube_operator.Kube.{NamespacedName, AzureDevOps}
use azdo_kube_operator.World.{Env, State}
use azdo_kube_operator.Controller.{reconcile}
use azdo_kube_operator.Controller.Life.{
  Cleaned, deleting, Phase, absent, marked, Step, stays, Steps, done, then, held, phase, Keeps,
}
use azdo_kube_operator.Controller.Lives.{reconcile_refines}

-- `n` reconciliations of one key.
unfoldable pub reconciled : Env → NamespacedName → ℕ → State → State
reconciled env key zero s = s
reconciled env key (suc n) s = reconciled env key n (reconcile env key s).1

Steps-absent : {p q : Phase} → Steps p q → p ≡ absent → q ≡ absent
Steps-absent done e = e
Steps-absent (then stays h) e = Steps-absent h e
Steps-absent (then Step.marks h) e = cc
Steps-absent (then (Step.releases c) h) e = cc
Steps-absent (then (Step.unhooks c) h) e = cc

Steps-marked : {p q : Phase} → Steps p q → p ≡ marked → q ≡ marked
Steps-marked done e = e
Steps-marked (then stays h) e = Steps-marked h e
Steps-marked (then Step.marks h) e = cc
Steps-marked (then (Step.releases c) h) e = cc
Steps-marked (then (Step.unhooks c) h) e = cc

Step-deleting : {C : Type 0} {p q : Phase} → Step C p q → p ≡ deleting → (q ≡ deleting) ⊎ C
Step-deleting stays e = inl e
Step-deleting Step.marks e = cc
Step-deleting (Step.releases c) e = inr c
Step-deleting (Step.unhooks c) e = inr c

module _ (env : Env) (key : NamespacedName) (initial : Option AzureDevOps)
    (keeps : Keeps env key initial) where
  reconciled-Steps :
      (n : ℕ) (s : State)
      → Steps
          (phase env key (held env key initial s.log))
          (phase env key (held env key initial (reconciled env key n s).log))
  unfolding reconciled
  reconciled-Steps zero s = done
  reconciled-Steps (suc n) s =
      then (reconcile_refines env key initial keeps s) (reconciled-Steps n (reconcile env key s).1)

  -- Where the API server answers by what it holds, keeps what is sent or refuses, the library adds
  -- and removes finalizers, and nobody else writes the resource, then however often the controller
  -- reconciles, a resource that is not there is not made, and one that is not being deleted and has
  -- the finalizer stays and keeps it.
  pub reconciled_keeps :
      (n : ℕ) (s : State)
      → let p = phase env key (held env key initial s.log) in
        let q = phase env key (held env key initial (reconciled env key n s).log) in
        (p ≡ absent → q ≡ absent) × (p ≡ marked → q ≡ marked)
  reconciled_keeps n s = (Steps-absent (reconciled-Steps n s), Steps-marked (reconciled-Steps n s))

  -- Where the API server answers by what it holds, keeps what is sent or refuses, the library adds
  -- and removes finalizers, and nobody else writes the resource, then however often the controller
  -- reconciles a resource that is being deleted, it keeps the finalizer, or the cleanup of the
  -- resource that one of the reconciliations found succeeded.
  pub reconciled_releases :
      (n : ℕ) (s : State)
      → phase env key (held env key initial s.log) ≡ deleting
      → (phase env key (held env key initial (reconciled env key n s).log) ≡ deleting)
        ⊎ ((k : ℕ) × Cleaned env (held env key initial (reconciled env key k s).log))
  unfolding reconciled
  reconciled_releases zero s e = inl e
  reconciled_releases (suc n) s e =
      elim (Step-deleting (reconcile_refines env key initial keeps s) e) [
        | inr c ↦ inr (0, c)
        | inl e' ↦ elim (reconciled_releases n (reconcile env key s).1 e') [
          | inl f ↦ inl f
          | inr (k, c) ↦ inr (suc k, c)
        ]
      ]
