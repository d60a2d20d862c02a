-- ===== src/Kubernetes/Secrets.antt =====
-- secrets.go: `ValidateSecrets`.
use azdo_kube_operator.Base.{⊤, String, Option, [], ◌∷◌, str_eq, lookup, if◌then◌else◌}
use azdo_kube_operator.Kube.{
  named, Secret, is_not_found, Reply, reply, fail, api_error, wrap, fault, word,
}
use azdo_kube_operator.World.{Env, Action, pure, raise, or_raise, ◌>>=◌, ◌>>◌, Call, call}

abbrev pub default_namespace : String
default_namespace = "default"

-- How a lookup in two namespaces names its failures.
pub record Texts : Type 0 where
  pub missing : String
  pub broken : String

abbrev pub pat_texts : Texts
pat_texts = record {
  missing = "PAT Secret %s not found in namespace %s or default";
  broken = "error retrieving PAT Secret";
}

abbrev pub pull_texts : Texts
pull_texts = record {
  missing = "ImagePullSecret %s not found in namespace %s or default";
  broken = "error retrieving ImagePullSecret";
}

unfoldable pub pat_key : Secret → Option String
unfolding lookup
pat_key s = lookup "PAT" s.contents

module _ (env : Env) where
  unfoldable pub get_secret : String → String → Action (Reply Secret)
  get_secret name namespace =
      let key = named name namespace in call (Call.get_secret key) (λ l. env.get_secret l key)

  module _ (texts : Texts) (name namespace : String) where
    -- The answer in the namespace "default".
    unfoldable pub in_default : Reply Secret → Action Secret
    in_default (reply s) = pure s
    in_default (fail e) =
        if is_not_found e
        then raise (fault texts.missing (word name ∷ word namespace ∷ []))
        else raise (wrap texts.broken (api_error e))

    -- The answer in the resource's own namespace.
    unfoldable pub in_own : Reply Secret → Action Secret
    unfolding get_secret in_default
    in_own (reply s) = pure s
    in_own (fail e) =
        if is_not_found e
        then get_secret name default_namespace >>= in_default
        else raise (wrap texts.broken (api_error e))

    unfoldable pub find_secret : Action Secret
    unfolding get_secret in_own
    find_secret = get_secret name namespace >>= in_own

  -- The image pull secret is looked for only if one is named.
  unfoldable pub validate_pull_secret : String → String → Action ⊤
  unfolding find_secret
  validate_pull_secret namespace name =
      if str_eq name "" then pure tt else find_secret pull_texts name namespace >>= λ s. pure tt

  unfoldable pub validate_secrets : String → String → String → Action ⊤
  unfolding find_secret pat_key validate_pull_secret
  validate_secrets namespace pat_ref pull_ref = do
    secret ← find_secret pat_texts pat_ref namespace
    or_raise (pat_key secret) (fault "'PAT' key not found in Secret %s" (word pat_ref ∷ []))
    validate_pull_secret namespace pull_ref
