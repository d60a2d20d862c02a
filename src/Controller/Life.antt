-- ===== src/Controller/Life.antt =====
-- The life of a resource, as one reconciliation after another may move it, and what the API server
-- holds of it. This describes what the controller promises; none of its code is in it.
use azdo_kube_operator.Base.{
  Bool, true, false, String, Option, none, some, [], ◌∷◌, is_empty, if◌then◌else◌, ◌≡◌,
}
use azdo_kube_operator.Kube.{
  NamespacedName, ObjectMeta, Time, ApiError, Reply, reply, fail, AzureDevOps,
}
use azdo_kube_operator.World.{Env, Call, Log, State, ok}
use azdo_kube_operator.Devops.{finalizer_name, client_of}
use azdo_kube_operator.Controller.Cleanup.{delete_external_resources}
use azdo_kube_operator.Kubernetes.{key_of}
use azdo_kube_operator.Kubernetes.Stores.{same_key}

-- No resource; one without the operator's finalizer; one with it; one that is being deleted, with
-- the finalizer and without it.
pub data Phase : Type 0 where
  absent unmarked marked deleting ending : Phase

unfoldable pub phase_of : Option Time → Bool → Phase
phase_of none false = unmarked
phase_of none true = marked
phase_of (some t) true = deleting
phase_of (some t) false = ending

-- What one reconciliation may do; the finalizer goes only with a proof of `C`.
pub data Step (C : Type 0) : Phase → Phase → Type 0 where
  stays : {p : Phase} → Step C p p
  marks : Step C unmarked marked
  releases : C → Step C deleting absent
  unhooks : C → Step C deleting ending

-- What several may do.
pub data Steps : Phase → Phase → Type 1 where
  done : {p : Phase} → Steps p p
  then : {C : Type 0} {p q r : Phase} → Step C p q → Steps q r → Steps p r

-- A resource that is being deleted goes with its last finalizer.
abbrev pub is_gone : Option Time → Bool → Bool
is_gone none b = false
is_gone (some t) b = b

unfoldable pub after_update : Reply AzureDevOps → Option AzureDevOps → Option AzureDevOps
after_update (fail e) old = old
after_update (reply u) none = none
after_update (reply u) (some old) =
    if is_gone u.meta.deletion_timestamp (is_empty u.meta.finalizers) then none else some u

-- A write of the status leaves the rest.
unfoldable pub after_status :
    Option ApiError → AzureDevOps → Option AzureDevOps → Option AzureDevOps
after_status (some e) cr old = old
after_status none cr none = none
after_status none cr (some old) = some (record old { status = cr.status })

module _ (env : Env) (key : NamespacedName) where
  abbrev pub moved : Log → Call → Option AzureDevOps → Option AzureDevOps
  moved l (Call.update_resource cr) old =
      if same_key (key_of cr.meta) key then after_update (env.update_resource l cr) old else old
  moved l (Call.update_status cr) old =
      if same_key (key_of cr.meta) key then after_status (env.update_status l cr) cr old else old
  moved l _ old = old

  module _ (initial : Option AzureDevOps) where
    -- The resource that is held under the key after a history.
    unfoldable pub held : Log → Option AzureDevOps
    held [] = initial
    held (c ∷ l) = moved l c (held l)

  unfoldable pub phase : Option AzureDevOps → Phase
  unfolding phase_of
  phase none = absent
  phase (some cr) =
      phase_of cr.meta.deletion_timestamp (env.contains_finalizer cr.meta finalizer_name)

-- The cleanup of the resource that is held succeeded with some token and at some time.
abbrev pub Cleaned : Env → Option AzureDevOps → Type 0
Cleaned env o =
    (cr : AzureDevOps) × (o ≡ some cr)
    × (pat : String) × (t : State) × ((delete_external_resources env
          (client_of pat cr.spec.org_url cr.spec.project) cr t).0
        ≡ ok tt)

-- What is relied on: a read that succeeds gives what is held, an update that is accepted keeps what
-- was sent of the key, the deletion and the finalizers, and the library's functions on finalizers add
-- and remove one and change nothing else. Any call may be refused.
pub record Keeps (env : Env) (key : NamespacedName) (initial : Option AzureDevOps) : Type 0 where
  pub reads :
      (l : Log) (cr : AzureDevOps)
      → env.get_resource l key ≡ reply cr
      → (held env key initial l ≡ some cr) × (key_of cr.meta ≡ key)
  pub answers :
      (l : Log) (cr u : AzureDevOps)
      → env.update_resource l cr ≡ reply u
      → (key_of u.meta ≡ key_of cr.meta)
        × (u.meta.deletion_timestamp ≡ cr.meta.deletion_timestamp)
        × (u.meta.finalizers ≡ cr.meta.finalizers)
        × (env.contains_finalizer u.meta finalizer_name
            ≡ env.contains_finalizer cr.meta finalizer_name)
  pub adds :
      (m : ObjectMeta)
      → let n = env.add_finalizer m finalizer_name in
        (key_of n ≡ key_of m)
        × (n.deletion_timestamp ≡ m.deletion_timestamp)
        × (env.contains_finalizer n finalizer_name ≡ true)
  pub removes :
      (m : ObjectMeta)
      → let n = env.remove_finalizer m finalizer_name in
        (key_of n ≡ key_of m)
        × (n.deletion_timestamp ≡ m.deletion_timestamp)
        × (env.contains_finalizer n finalizer_name ≡ false)
