-- ===== src/Devops/Client.antt =====
-- The client and its constants, and the making of a request.
use azdo_kube_operator.Base.{
  ℕ, ◌*◌, String, Option, none, some, [], ◌∷◌, pos, trim_space, trim_right_slash, concat,
  if◌then◌else◌,
}
use azdo_kube_operator.Kube.{Error, wrap, fault, library_error, word, number}
use azdo_kube_operator.World.{
  Env, Action, pure, raise, change_cache, ◌>>=◌, ◌>>◌, Method, Endpoint, Payload, Request, Response,
  call, close_body, read_body,
}

pub record AzureDevOpsClient : Type 0 where
  pub pat_token : String
  pub org_url : String
  pub project : String

abbrev pub finalizer_name : String
finalizer_name = "omnivya/azdo-finalizer"

-- Nanoseconds.
abbrev pub second : ℕ
second = 1_000_000_000

abbrev pub minute : ℕ
minute = 60_000_000_000

abbrev pub default_max_retries : ℕ
default_max_retries = 3

abbrev pub cache_expiration : ℕ
cache_expiration = 5 * minute

unfoldable pub client_of : String → String → String → AzureDevOpsClient
unfolding trim_space trim_right_slash
client_of pat org_url project = record {
  pat_token = trim_space pat;
  org_url = trim_right_slash org_url;
  project = project;
}

-- `NewAzureDevOpsClient`: the pool cache of the new client is empty.
unfoldable pub new_client : String → String → String → Action AzureDevOpsClient
unfolding client_of
new_client pat org_url project = do change_cache (λ old. []); pure (client_of pat org_url project)

-- `":" + patToken`, which the header carries in base64 behind "Basic ".
unfoldable pub build_auth_header : String → String
unfolding concat
build_auth_header pat = concat ":" pat

-- A request with the header `Authorization`.
unfoldable pub request_of : AzureDevOpsClient → Method → Endpoint → Option Payload → Request
unfolding build_auth_header
request_of client method endpoint payload = record {
  method = method;
  org_url = client.org_url;
  endpoint = endpoint;
  credentials = build_auth_header client.pat_token;
  payload = payload;
}

module _ (env : Env) (client : AzureDevOpsClient) where
  -- `http.NewRequestWithContext` fails where the URL does not parse.
  unfoldable pub new_request : Method → Endpoint → Option Payload → Action Request
  unfolding request_of
  new_request method endpoint payload =
      if env.url_parses client.org_url endpoint
      then pure (request_of client method endpoint payload)
      else raise (wrap "failed to create request" (library_error "parse"))

module _ (env : Env) where
  -- `io.ReadAll(resp.Body)`
  unfoldable pub read_all : ℕ → Action (Option String)
  read_all body = call (read_body body) (λ l. env.read_all l body)

unfoldable pub close : ℕ → Action Unit
close body = call (close_body body) (λ l. tt)

abbrev pub unexpected_status : Response → Option String → Error
unexpected_status resp none =
    fault "unexpected status code: %d - %s" (number (pos resp.status) ∷ word "" ∷ [])
unexpected_status resp (some body) =
    fault "unexpected status code: %d - %s" (number (pos resp.status) ∷ word body ∷ [])

module _ (env : Env) {A : Type 0} where
  -- `body, _ := io.ReadAll(resp.Body)` and the error that quotes it.
  unfoldable pub bad_status : Response → Action A
  unfolding read_all
  bad_status resp = do body ← read_all env resp.body; raise (unexpected_status resp body)
