-- ===== src/Controller/Histories.antt =====
-- Reconciliations of a resource between changes that its users make.
use azdo_kube_operator.Base.{
  ◌≡◌, refl, ap, sym, ◌⊎◌, inl, inr, Bool, true, false, Option, some, none, subst,
}
use azdo_kube_operator.Kube.{NamespacedName, AzureDevOps, Time}
use azdo_kube_operator.World.{Env, State}
use azdo_kube_operator.Devops.{finalizer_name}
use azdo_kube_operator.Controller.{reconcile}
use azdo_kube_operator.Controller.Life.{
  Phase, absent, unmarked, marked, deleting, ending, phase_of, Step, stays, Cleaned, held, phase,
  Keeps,
}
use azdo_kube_operator.Controller.Lives.{reconcile_refines}

-- A user may make a resource, edit it, and ask for its deletion; the operator's finalizer is left
-- alone, and a resource goes at once only without it.
pub data Change (env : Env) : Option AzureDevOps → Option AzureDevOps → Type 0 where
  creates : {cr : AzureDevOps} → cr.meta.deletion_timestamp ≡ none → Change env none (some cr)
  edits :
      {old new : AzureDevOps}
      → new.meta.deletion_timestamp ≡ old.meta.deletion_timestamp
      → env.contains_finalizer new.meta finalizer_name
        ≡ env.contains_finalizer old.meta finalizer_name
      → Change env (some old) (some new)
  deletes :
      {old new : AzureDevOps} {t : Time}
      → old.meta.deletion_timestamp ≡ none
      → new.meta.deletion_timestamp ≡ some t
      → env.contains_finalizer new.meta finalizer_name
        ≡ env.contains_finalizer old.meta finalizer_name
      → Change env (some old) (some new)
  drops :
      {old : AzureDevOps}
      → env.contains_finalizer old.meta finalizer_name ≡ false
      → Change env (some old) none

-- What became of a resource: reconciliations, each in surroundings that hold the resource as it was
-- left, and changes by users, in any order. The library's test for a finalizer stays the same.
pub data History (base : Env) (key : NamespacedName)
    : Option AzureDevOps → Option AzureDevOps → Type 0 where
  over : {o : Option AzureDevOps} → History base key o o
  changed :
      {o p q : Option AzureDevOps} → Change base o p → History base key p q → History base key o q
  reconciled :
      (env : Env) (initial : Option AzureDevOps) (keeps : Keeps env key initial) (s : State)
      {q : Option AzureDevOps}
      → env.contains_finalizer ≡ base.contains_finalizer
      → History base key (held env key initial (reconcile env key s).1.log) q
      → History base key (held env key initial s.log) q

-- The operator's finalizer is on the resource.
abbrev pub IsGuarded : Phase → Type 0
IsGuarded absent = ⊥
IsGuarded unmarked = ⊥
IsGuarded marked = Unit
IsGuarded deleting = Unit
IsGuarded ending = ⊥

-- One reconciliation took the finalizer away: it found the resource being deleted, and the cleanup of
-- the resource that it found succeeded in its surroundings.
record Releases (env : Env) (key : NamespacedName) (found left : Option AzureDevOps) : Type 0 where
  ending : phase env key found ≡ deleting
  cleaned : Cleaned env found
  gone : IsGuarded (phase env key left) → ⊥

Step-IsGuarded :
    {C : Type 0} {p q : Phase}
    → Step C p q
    → IsGuarded p
    → IsGuarded q ⊎ ((p ≡ deleting) × C × (IsGuarded q → ⊥))
Step-IsGuarded stays g = inl g
Step-IsGuarded Step.marks g = inl tt
Step-IsGuarded (Step.releases c) g = inr (refl, c, λ x. x)
Step-IsGuarded (Step.unhooks c) g = inr (refl, c, λ x. x)

-- One of the reconciliations of the history took the finalizer away.
pub Released :
    {base : Env} {key : NamespacedName} {o p : Option AzureDevOps} → History base key o p → Type 0
Released over = ⊥
Released (changed c h) = Released h
Released {key = key} (reconciled env initial keeps s same h) =
    Releases env key (held env key initial s.log) (held env key initial (reconcile env key s).1.log)
    ⊎ Released h

still-IsGuarded :
    (t : Time) (b : Bool) → IsGuarded (phase_of none b) → IsGuarded (phase_of (some t) b)
unfolding phase_of
still-IsGuarded t true g = tt
still-IsGuarded t false g = g

bare-IsGuarded : (o : Option Time) → IsGuarded (phase_of o false) → ⊥
unfolding phase_of
bare-IsGuarded none g = g
bare-IsGuarded (some t) g = g

same_phase :
    (a b : Env) (key : NamespacedName)
    → a.contains_finalizer ≡ b.contains_finalizer
    → (o : Option AzureDevOps) → phase a key o ≡ phase b key o
unfolding phase
same_phase a b key same none = refl
same_phase a b key same (some cr) =
    ap (λ f. phase_of cr.meta.deletion_timestamp (f cr.meta finalizer_name)) same

module _ (env : Env) (key : NamespacedName) where
  Change-IsGuarded :
      {o p : Option AzureDevOps}
      → Change env o p
      → IsGuarded (phase env key o)
      → IsGuarded (phase env key p)
  unfolding phase phase_of
  Change-IsGuarded (creates t) g = absurd g
  Change-IsGuarded (edits t c) g = subst IsGuarded (λ i. phase_of (sym t i) (sym c i)) g
  Change-IsGuarded (deletes {old = old} {t = t} stayed ends c) g =
      subst IsGuarded (λ i. phase_of (sym ends i) (sym c i))
        (still-IsGuarded t (env.contains_finalizer old.meta finalizer_name) (
          subst (λ x. IsGuarded (phase_of x (env.contains_finalizer old.meta finalizer_name)))
            stayed g))
  Change-IsGuarded (drops {old = old} c) g = absurd (
      bare-IsGuarded old.meta.deletion_timestamp
        (subst (λ b. IsGuarded (phase_of old.meta.deletion_timestamp b)) c g))

  -- Where the API server answers by what it holds, keeps what is sent or refuses, the library adds
  -- and removes finalizers, and the resource changes only by reconciliations and, between them, by
  -- users who leave the operator's finalizer alone, then in whatever order these come, a resource
  -- with the finalizer keeps it and is there, unless one of these very reconciliations found it being
  -- deleted and took the finalizer away, and the cleanup of the resource that it found succeeded.
  pub finalizer_protects :
      {o p : Option AzureDevOps} (h : History env key o p)
      → IsGuarded (phase env key o)
      → IsGuarded (phase env key p) ⊎ Released h
  unfolding Released
  finalizer_protects over g = inl g
  finalizer_protects (changed c h) g = finalizer_protects h (Change-IsGuarded c g)
  finalizer_protects (reconciled at initial keeps s same h) g =
      let found = held at key initial s.log in
      let left = held at key initial (reconcile at key s).1.log in
      elim (Step-IsGuarded (reconcile_refines at key initial keeps s)
        (subst IsGuarded (sym (same_phase at env key same found)) g)) [
          | inl g' ↦
              elim (finalizer_protects h (subst IsGuarded (same_phase at env key same left) g')) [
                | inl kept ↦ inl kept
                | inr later ↦ inr (inr later)
              ]
          | inr (ends, c, lost) ↦ inr (inl (record { ending = ends; cleaned = c; gone = lost }))
        ]
