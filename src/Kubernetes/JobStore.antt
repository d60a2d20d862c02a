-- ===== src/Kubernetes/JobStore.antt =====
-- The Jobs that the API server holds, and what is left of one. It describes how the API server is
-- documented to answer and what the operator promises; the operator's code is not in it.
use azdo_kube_operator.Base.{Option, none, some, [], ◌∷◌, if◌then◌else◌, ◌≡◌}
use azdo_kube_operator.Base.{Bool, true, false, not, ◌&&◌, String, ⊤}
use azdo_kube_operator.World.{Result, err}
use azdo_kube_operator.Kube.{PodTemplateSpec, other, wrap, api_error, NamespacedName, Job}
use azdo_kube_operator.World.{Env, DeepEqual, Call, Log, ok}
use azdo_kube_operator.Kubernetes.{is_job_finished, job_needs_update, updated_job, key_of}
use azdo_kube_operator.Kubernetes.Stores.{Store, put, found, create_in, IsKeyed}

abbrev pub job_key : Job → NamespacedName
job_key j = key_of j.meta

-- The Jobs that an API server holds, with the test by which it tells whether a Job's template, which
-- is immutable, was changed: such an update is refused and changes nothing.
module _ (same_template : PodTemplateSpec → PodTemplateSpec → Bool) where
  unfoldable pub replace_in : Job → Option Job → Store Job → Store Job
  replace_in j none store = store
  replace_in j (some e) store =
      if same_template e.template j.template then put (job_key j) j store else store

  abbrev pub apply_job_call : Call → Store Job → Store Job
  apply_job_call (Call.create_job j) store = create_in (job_key j) j (store (job_key j)) store
  apply_job_call (Call.update_job j) store = replace_in j (store (job_key j)) store
  apply_job_call _ store = store

  module _ (initial : Store Job) where
    unfoldable pub jobs : Log → Store Job
    unfolding replace_in
    jobs [] = initial
    jobs (c ∷ l) = apply_job_call c (jobs l)

-- The API server answers by what it holds, and nobody else writes Jobs. It refuses a changed template
-- as invalid, and containers that DeepEqual tells apart are a change.
pub record ServesJobs (env : Env) (same_template : PodTemplateSpec → PodTemplateSpec → Bool)
    (initial : Store Job) : Type 0 where
  pub keyed : IsKeyed (λ (j : Job). key_of j.meta) initial
  pub reads :
      (l : Log) (k : NamespacedName) → env.get_job l k ≡ found (jobs same_template initial l k)
  pub creates :
      (l : Log) (j : Job)
      → jobs same_template initial l (key_of j.meta) ≡ none
      → env.create_job l j ≡ none
  pub updates :
      (l : Log) (j e : Job)
      → jobs same_template initial l (key_of j.meta) ≡ some e
      → same_template e.template j.template ≡ true
      → env.update_job l j ≡ none
  pub refuses :
      (l : Log) (j e : Job)
      → jobs same_template initial l (key_of j.meta) ≡ some e
      → same_template e.template j.template ≡ false
      → (x : String) × (env.update_job l j ≡ some (other x))
  pub reflexive : (t : PodTemplateSpec) → same_template t t ≡ true
  pub discerns :
      (a b : PodTemplateSpec)
      → env.deep_equal.containers a.spec.containers b.spec.containers ≡ false
      → same_template a b ≡ false

-- What is left of the Job under a key, by what is held: one that has ended, and one with other
-- containers, is left as it is.
unfoldable pub settled_job : DeepEqual → Job → Option Job → Job
settled_job eq desired none = desired
settled_job eq desired (some e) =
    if is_job_finished e
    then e
    else if not (eq.containers e.template.spec.containers desired.template.spec.containers)
    then e
    else if job_needs_update eq e desired
    then updated_job eq e desired
    else e

-- Whether the update is refused.
unfoldable pub is_refused : DeepEqual → Job → Option Job → Bool
is_refused eq desired none = false
is_refused eq desired (some e) =
    not (is_job_finished e)
    && not (eq.containers e.template.spec.containers desired.template.spec.containers)

abbrev pub Ends : Bool → Result ⊤ → Type 0
Ends true r = (x : String) × (r ≡ err (wrap "failed to update Job" (api_error (other x))))
Ends false r = r ≡ ok tt
