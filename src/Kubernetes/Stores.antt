-- ===== src/Kubernetes/Stores.antt =====
-- What an API server holds of one kind of object, by key, and how a call that makes or replaces an
-- object is documented to change it.
use azdo_kube_operator.Base.{
  Bool, true, ◌&&◌, Option, none, some, str_eq, if◌then◌else◌, ◌≡◌, refl, arith, ap, sym, ◌∙◌, inl,
  inr, Bool-cases, eq_iff,
}
use text.Mathlib.TextPositions.{eq_refl}
use azdo_kube_operator.Kube.{NamespacedName, Reply, reply, fail, not_found}

abbrev pub same_key : NamespacedName → NamespacedName → Bool
same_key a b = str_eq a.name b.name && str_eq a.namespace b.namespace

abbrev pub Store : Type 0 → Type 0
Store V = NamespacedName → Option V

module _ {V : Type 0} where
  abbrev pub put : NamespacedName → V → Store V → Store V
  put k v store = λ j. if same_key k j then some v else store j

  abbrev pub found : Option V → Reply V
  found none = fail not_found
  found (some v) = reply v

  -- A create that finds an object, and an update that finds none, are refused and change nothing.
  unfoldable pub create_in : NamespacedName → V → Option V → Store V → Store V
  create_in k v none store = put k v store
  create_in k v (some w) store = store

  unfoldable pub update_in : NamespacedName → V → Option V → Store V → Store V
  update_in k v none store = store
  update_in k v (some w) store = put k v store

pub same_key-eq : (a b : NamespacedName) → same_key a b ≡ true → a ≡ b
same_key-eq a b h =
    let n = (eq_iff a.name b.name).0 (ground arith) in
    let m = (eq_iff a.namespace b.namespace).0 (ground arith) in
    λ i. record { name = n i; namespace = m i }

module _ {V : Type 0} (k : NamespacedName) (v : V) (store : Store V) where
  -- What was put is found.
  pub put-same_key : put k v store k ≡ some v
  put-same_key = rw (eq_refl k.name, eq_refl k.namespace) refl

  -- Putting what is held already changes nothing.
  pub put_held : (j : NamespacedName) → store k ≡ some v → store j ≡ put k v store j
  put_held j held = elim (Bool-cases (same_key k j)) [
    | inl same ↦ rw same (ap store (sym (same_key-eq k j same)) ∙ held)
    | inr other ↦ rw other refl
  ]

-- Each object stands under its own key.
module _ {V : Type 0} (key : V → NamespacedName) where
  abbrev pub IsKeyed : Store V → Type 0
  IsKeyed store = (k : NamespacedName) (v : V) → store k ≡ some v → key v ≡ k

  pub put-IsKeyed : (v : V) (store : Store V) → IsKeyed store → IsKeyed (put (key v) v store)
  put-IsKeyed v store h k w got = elim (Bool-cases (same_key (key v) k)) [
    | inl same ↦
        let got' = rw same at got in
        let eq : v ≡ w = cc in ap key (sym eq) ∙ same_key-eq (key v) k same
    | inr other ↦ h k w (rw other at got)
  ]

  pub create_in-IsKeyed :
      (v : V) (o : Option V) (store : Store V)
      → IsKeyed store
      → IsKeyed (create_in (key v) v o store)
  unfolding create_in
  create_in-IsKeyed v none store h = put-IsKeyed v store h
  create_in-IsKeyed v (some w) store h = h

  pub update_in-IsKeyed :
      (v : V) (o : Option V) (store : Store V)
      → IsKeyed store
      → IsKeyed (update_in (key v) v o store)
  unfolding update_in
  update_in-IsKeyed v none store h = h
  update_in-IsKeyed v (some w) store h = put-IsKeyed v store h
