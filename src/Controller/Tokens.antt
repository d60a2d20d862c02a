-- ===== src/Controller/Tokens.antt =====
-- The lookup of the token.
use azdo_kube_operator.Base.{
  ◌≡◌, refl, ◌⊎◌, inl, inr, String, Option, none, some, Option-cases, ◌∷◌,
}
use azdo_kube_operator.Kube.{
  named, Secret, Reply, reply, fail, not_found, conflict, other, Error, NamespacedName,
}
use azdo_kube_operator.World.{Env, State, Call, Log, Result, ok, err}
use azdo_kube_operator.World.Footprint.{Adds, adds_rules}
use azdo_kube_operator.Kubernetes.{default_namespace, pat_key, get_secret}
use azdo_kube_operator.Controller.{get_pat_token, from_own, from_default, pat_of}

-- The calls that look a secret up.
pub data Looks : Call → Type 0 where
  looks : {k : NamespacedName} → Looks (Call.get_secret k)

module _ (env : Env) where
  from_default-Looks : (name : String) (r : Reply Secret) → Adds Looks (from_default name r)
  unfolding from_default
  from_default-Looks name (reply x) = search adds_rules
  from_default-Looks name (fail e) = search adds_rules

  -- The lookup of the token only reads secrets.
  pub get_pat_token_reads :
      (name namespace : String) → Adds Looks (get_pat_token env name namespace)
  unfolding get_pat_token get_secret from_own
  get_pat_token_reads name namespace = search (adds_rules, looks, from_default-Looks) depth 12

  -- How a lookup ends: with the token that an answer holds, or else in an error.
  abbrev pub Found : Option String → Result String → Type 0
  Found held r =
      ((t : String) × (held ≡ some t) × (r ≡ ok t)) ⊎ ((held ≡ none) × (e : Error) × (r ≡ err e))

  from_default-Found :
      (name : String) (r : Reply Secret) (s : State) → Found (pat_of r) (from_default name r s).0
  unfolding from_default pat_of
  from_default-Found name (reply x) s = elim (Option-cases (pat_key x)) [
    | inl e ↦ rw e (inr (refl, _, refl))
    | inr (t, e) ↦ rw e (inl (t, refl, refl))
  ]
  from_default-Found name (fail not_found) s = inr (refl, _, refl)
  from_default-Found name (fail conflict) s = inr (refl, _, refl)
  from_default-Found name (fail (other x)) s = inr (refl, _, refl)

  -- The key "PAT" of the secret of a namespace, after a history.
  unfoldable pub held_at : Log → String → String → Option String
  unfolding pat_of
  held_at l name namespace = pat_of (env.get_secret l (named name namespace))

  own_cases :
      (name : String) (r : Reply Secret) (s : State)
      → let result = (from_own env name r (pat_of r) s).0 in
        ((t : String) × (pat_of r ≡ some t) × (result ≡ ok t))
        ⊎ ((pat_of r ≡ none) × Found (held_at s.log name default_namespace) result)
  unfolding from_own get_secret pat_of held_at
  own_cases name (reply x) s = elim (Option-cases (pat_key x)) [
    | inl e ↦ rw e (
        inr (refl, from_default-Found name (env.get_secret s.log (named name default_namespace)) _))
    | inr (t, e) ↦ rw e (inl (t, refl, refl))
  ]
  own_cases name (fail not_found) s =
      inr (refl, from_default-Found name (env.get_secret s.log (named name default_namespace)) _)
  own_cases name (fail conflict) s =
      inr (refl, from_default-Found name (env.get_secret s.log (named name default_namespace)) _)
  own_cases name (fail (other x)) s =
      inr (refl, from_default-Found name (env.get_secret s.log (named name default_namespace)) _)

  -- The token of the resource's own namespace counts where it is there, and else the one of the
  -- namespace "default"; where neither holds one the lookup ends in an error.
  pub get_pat_token_lem :
      (name namespace : String) (s : State)
      → let r = (get_pat_token env name namespace s).0 in
        ((t : String) × (held_at s.log name namespace ≡ some t) × (r ≡ ok t))
        ⊎ ((held_at s.log name namespace ≡ none)
            × Found
                (held_at (Call.get_secret (named name namespace) ∷ s.log) name default_namespace)
                r)
  unfolding get_pat_token get_secret held_at
  get_pat_token_lem name namespace s =
      own_cases name (env.get_secret s.log (named name namespace)) _
