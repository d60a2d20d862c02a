-- ===== src/Controller/Token.antt =====
-- `getPATToken`.
use azdo_kube_operator.Base.{
  Bool, true, false, not, ◌&&◌, ◌||◌, String, Option, none, some, [], ◌∷◌, if◌then◌else◌,
}
use azdo_kube_operator.Kube.{
  Secret, is_not_found, Reply, reply, fail, Error, api_error, fault, wrap_of, word,
}
use azdo_kube_operator.World.{Env, Action, raise, or_raise, ◌>>=◌}
use azdo_kube_operator.Kubernetes.{default_namespace, pat_key, get_secret}

-- `secret.Data["PAT"]`: after an error the secret is the empty one.
unfoldable pub pat_of : Reply Secret → Option String
unfolding pat_key
pat_of (reply s) = pat_key s
pat_of (fail e) = none

abbrev pub succeeded : Reply Secret → Bool
succeeded (reply s) = true
succeeded (fail e) = false

abbrev pub missing : Reply Secret → Bool
missing (reply s) = false
missing (fail e) = is_not_found e

abbrev pub is_some : Option String → Bool
is_some none = false
is_some (some s) = true

module _ (name : String) where
  unfoldable pub from_default : Reply Secret → Action String
  unfolding pat_key
  from_default (reply s) =
      or_raise (pat_key s) (fault "'PAT' key not found in Secret %s" (word name ∷ []))
  from_default (fail e) =
      if is_not_found e
      then raise (fault "secret %s not found in CR namespace or default namespace" (word name ∷ []))
      else raise (wrap_of "error retrieving Secret %s" (word name ∷ []) (api_error e))

  abbrev pub unexpected : Error
  unexpected = fault "unexpected error retrieving Secret %s" (word name ∷ [])

module _ (env : Env) (name : String) where
  -- By the answer in the resource's namespace, and the token that it holds.
  unfoldable pub from_own : Reply Secret → Option String → Action String
  unfolding get_secret from_default
  from_own r found =
      if succeeded r && is_some found
      then or_raise found (unexpected name)
      else if missing r || not (is_some found)
      then get_secret env name default_namespace >>= from_default name
      else raise (unexpected name)

  unfoldable pub get_pat_token : String → Action String
  unfolding get_secret from_own pat_of
  get_pat_token namespace = do r ← get_secret env name namespace; from_own r (pat_of r)
