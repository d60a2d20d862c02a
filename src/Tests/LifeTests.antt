-- ===== src/Tests/LifeTests.antt =====
-- The life of the sample resource with an API server that holds it.
use azdo_kube_operator.Base.{
  ◌≡◌, refl, ap, sym, ◌∙◌, is_empty, Option, some, none, [], ◌∷◌, Bool-cases, inl, inr, any, str_eq,
}
use azdo_kube_operator.Kube.{AzureDevOps, reply}
use azdo_kube_operator.World.{Env, Call, Log}
use azdo_kube_operator.Devops.{finalizer_name}
use azdo_kube_operator.Kubernetes.{key_of}
use azdo_kube_operator.Kubernetes.Stores.{same_key, same_key-eq, found}
use azdo_kube_operator.Controller.{reconcile}
use azdo_kube_operator.Controller.Life.{
  Cleaned, absent, unmarked, marked, Step, held, moved, phase, Keeps, after_update, after_status,
  is_gone,
}
use azdo_kube_operator.Controller.Lives.{reconcile_refines}
use azdo_kube_operator.Controller.Lifetimes.{reconciled, reconciled_keeps}
use azdo_kube_operator.Tests.Fixture.{resource_in, sample_env, sample_key, start, sample}

abbrev new_resource : AzureDevOps
new_resource = resource_in "Deployment" "dind" []

abbrev pub accepting : Env
accepting = record sample_env {
  add_finalizer = λ meta name. record meta { finalizers = name ∷ meta.finalizers };
}

module _ (initial : AzureDevOps) where
  -- Reads give what is held.
  abbrev pub answering : Env
  answering = record accepting {
    get_resource = λ l k. found (held accepting sample_key (some initial) l);
  }

-- What is held under a key has that key.
IsOwn : Option AzureDevOps → Type 0
IsOwn o = (cr : AzureDevOps) → o ≡ some cr → key_of cr.meta ≡ sample_key

after_update-IsOwn :
    (u : AzureDevOps) (old : Option AzureDevOps)
    → key_of u.meta ≡ sample_key
    → IsOwn old
    → IsOwn (after_update (reply u) old)
unfolding IsOwn after_update
after_update-IsOwn u none own h cr e = cc
after_update-IsOwn u (some old) own h cr e =
    elim (Bool-cases (is_gone u.meta.deletion_timestamp (is_empty u.meta.finalizers))) [
      | inl g ↦ let e' = rw g at e in cc
      | inr g ↦
          let e' = rw g at e in let same : u ≡ cr = cc in ap (λ x. key_of x.meta) (sym same) ∙ own
    ]

after_status-IsOwn :
    (cr : AzureDevOps) (old : Option AzureDevOps) → IsOwn old → IsOwn (after_status none cr old)
unfolding IsOwn after_status
after_status-IsOwn cr none h x e = cc
after_status-IsOwn cr (some old) h x e =
    let same : record old { status = cr.status } ≡ x = cc in
    ap (λ x. key_of x.meta) (sym same) ∙ h old refl

moved-IsOwn :
    (l : Log) (c : Call) (old : Option AzureDevOps)
    → IsOwn old
    → IsOwn (moved accepting sample_key l c old)
unfolding IsOwn
moved-IsOwn l (Call.update_resource cr) old h x e =
    elim (Bool-cases (same_key (key_of cr.meta) sample_key)) [
      | inl s ↦
          after_update-IsOwn cr old (same_key-eq (key_of cr.meta) sample_key s) h x (rw s at e)
      | inr s ↦ h x (rw s at e)
    ]
moved-IsOwn l (Call.update_status cr) old h x e =
    elim (Bool-cases (same_key (key_of cr.meta) sample_key)) [
      | inl s ↦ after_status-IsOwn cr old h x (rw s at e)
      | inr s ↦ h x (rw s at e)
    ]
moved-IsOwn l (Call.get_pod k) old h x e = h x e
moved-IsOwn l _ old h x e = h x e

module _ (initial : AzureDevOps) where
  held-IsOwn :
      key_of initial.meta ≡ sample_key
      → (l : Log) → IsOwn (held accepting sample_key (some initial) l)
  unfolding IsOwn held
  held-IsOwn own [] x e = let same : initial ≡ x = cc in ap (λ x. key_of x.meta) (sym same) ∙ own
  held-IsOwn own (c ∷ l) x e = moved-IsOwn l c _ (held-IsOwn own l) x e

  moved_alike :
      (l : Log) (c : Call) (o : Option AzureDevOps)
      → moved (answering initial) sample_key l c o ≡ moved accepting sample_key l c o
  moved_alike l (Call.update_resource cr) o = refl
  moved_alike l (Call.update_status cr) o = refl
  moved_alike l _ o = refl

  held_alike :
      (l : Log)
      → held (answering initial) sample_key (some initial) l
        ≡ held accepting sample_key (some initial) l
  unfolding held
  held_alike [] = refl
  held_alike (c ∷ l) = moved_alike l c _ ∙ ap (moved accepting sample_key l c) (held_alike l)

  found_reply : (o : Option AzureDevOps) (cr : AzureDevOps) → found o ≡ reply cr → o ≡ some cr
  found_reply none cr h = cc
  found_reply (some x) cr h = let same : x ≡ cr = cc in ap some same

  pub answering-Keeps :
      key_of initial.meta ≡ sample_key → Keeps (answering initial) sample_key (some initial)
  unfolding IsOwn
  answering-Keeps own = record {
    reads = λ l cr h. let now = found_reply _ cr h in (held_alike l ∙ now, held-IsOwn own l cr now);
    answers = λ l cr u h.
        let same : cr ≡ u = cc in
        (
          ap (λ x. key_of x.meta) (sym same),
          ap (λ x. x.meta.deletion_timestamp) (sym same),
          ap (λ x. x.meta.finalizers) (sym same),
          ap (λ x. any (str_eq finalizer_name) x.meta.finalizers) (sym same),
        );
    adds = λ m. (refl, refl, refl);
    removes = λ m. (refl, refl, refl);
  }

reconcile_refines_example :
    Step (Cleaned (answering new_resource) (some new_resource)) unmarked marked
unfolding reconcile held phase after_update
reconcile_refines_example =
    reconcile_refines (answering new_resource) sample_key (some new_resource)
      (answering-Keeps new_resource refl) start

reconciled_keeps_example :
    let env = answering sample in
    let q =
      phase env sample_key
        (held env sample_key (some sample) (reconciled env sample_key 2 start).log) in
    (marked ≡ absent → q ≡ absent) × (marked ≡ marked → q ≡ marked)
unfolding held phase
reconciled_keeps_example =
    reconciled_keeps (answering sample) sample_key (some sample) (answering-Keeps sample refl) 2
      start
