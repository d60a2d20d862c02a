-- ===== src/Controller/Agreement.antt =====
-- The validation of the secrets and the lookup of the token, against each other.
use azdo_kube_operator.Base.{
  ◌≡◌, ◌≢◌, sym, ap, ◌∙◌, ◌⊎◌, inl, inr, String, Option, none, some, [], ◌∷◌,
}
use azdo_kube_operator.Kube.{
  named, Secret, Reply, reply, fail, not_found, conflict, other, NamespacedName, Error, fault, word,
}
use azdo_kube_operator.World.{Env, State, Call, Log, Action, ok, or_raise, ◌>>◌}
use azdo_kube_operator.World.Inversion.{bind-eq-ok}
use azdo_kube_operator.Kubernetes.{
  default_namespace, pat_key, get_secret, Texts, pat_texts, in_default, in_own, find_secret,
  validate_pull_secret, validate_secrets,
}
use azdo_kube_operator.Controller.{get_pat_token, pat_of}
use azdo_kube_operator.Controller.Tokens.{held_at, get_pat_token_lem}

module _ (env : Env) where
  in_default-eq-ok :
      (t : Texts) (name namespace : String) (r : Reply Secret) (s : State) {x : Secret}
      → (in_default env t name namespace r s).0 ≡ ok x
      → r ≡ reply x
  unfolding in_default
  in_default-eq-ok t name namespace (reply y) s h = cc
  in_default-eq-ok t name namespace (fail not_found) s h = cc
  in_default-eq-ok t name namespace (fail conflict) s h = cc
  in_default-eq-ok t name namespace (fail (other e)) s h = cc

  in_own-eq-ok :
      (t : Texts) (name namespace : String) (r : Reply Secret) (s : State) {x : Secret}
      → (in_own env t name namespace r s).0 ≡ ok x
      → (r ≡ reply x) ⊎ (env.get_secret s.log (named name default_namespace) ≡ reply x)
  unfolding in_own get_secret
  in_own-eq-ok t name namespace (reply y) s h = inl cc
  in_own-eq-ok t name namespace (fail not_found) s h =
      inr (
        in_default-eq-ok t name namespace (env.get_secret s.log (named name default_namespace)) _ h)
  in_own-eq-ok t name namespace (fail conflict) s h = cc
  in_own-eq-ok t name namespace (fail (other e)) s h = cc

  or_raise-eq-ok :
      (o : Option String) (e : Error) (s : State) {t : String}
      → (or_raise o e s).0 ≡ ok t
      → o ≢ none
  or_raise-eq-ok none e s h f = cc
  or_raise-eq-ok (some x) e s h f = cc

  held_of :
      (l : Log) (name namespace : String) (x : Secret)
      → env.get_secret l (named name namespace) ≡ reply x
      → pat_key x ≢ none
      → held_at env l name namespace ≢ none
  unfolding held_at pat_of
  held_of l name namespace x e h f = h (rw e at f)

  -- Where the API server answers alike about secrets at all times, secrets that pass the validation
  -- give a token.
  pub validate_secrets-get_pat_token :
      ((l l' : Log) (k : NamespacedName) → env.get_secret l k ≡ env.get_secret l' k)
      → (namespace pat_ref pull_ref : String) (s s' : State)
      → (validate_secrets env namespace pat_ref pull_ref s).0 ≡ ok tt
      → (t : String) × ((get_pat_token env pat_ref namespace s').0 ≡ ok t)
  unfolding validate_secrets find_secret get_secret
  validate_secrets-get_pat_token stable namespace pat_ref pull_ref s s' h =
      let missing = fault "'PAT' key not found in Secret %s" (word pat_ref ∷ []) in
      let pull = validate_pull_secret env namespace pull_ref in
      let first = find_secret env pat_texts pat_ref namespace in
      let rest : Secret → Action Unit = λ x. or_raise (pat_key x) missing >> pull in
      let (x, found, e) = bind-eq-ok first rest s h in
      let s1 = (first s).1 in
      let (key, has_key, f) =
        bind-eq-ok (or_raise (pat_key x) missing) (λ u. pull) s1 (ap (λ r. r.0) (sym e) ∙ h) in
      let own = named pat_ref namespace in
      let l = Call.get_secret own ∷ s'.log in
      let somewhere =
        in_own-eq-ok pat_texts pat_ref namespace (env.get_secret s.log own)
          (record s { log = Call.get_secret own ∷ s.log }) found in
      let keyed = or_raise-eq-ok (pat_key x) missing s1 has_key in
      elim (get_pat_token_lem env pat_ref namespace s') [
        | inl (t, _, r) ↦ (t, r)
        | inr (no_own, inl (t, _, r)) ↦ (t, r)
        | inr (no_own, inr (no_default, failure, _)) ↦ elim somewhere [
          | inl here ↦
              absurd (held_of s'.log pat_ref namespace x (stable _ _ _ ∙ here) keyed no_own)
          | inr there ↦
              absurd (held_of l pat_ref default_namespace x (stable _ _ _ ∙ there) keyed no_default)
        ]
      ]
