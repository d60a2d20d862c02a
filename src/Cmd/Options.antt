-- ===== src/Cmd/Options.antt =====
-- cmd/main.go: the flags and the options that they give.
use azdo_kube_operator.Base.{
  Bool, true, false, String, Option, none, some, List, [], ◌∷◌, ◌++◌, if◌then◌else◌,
}

-- The values of the flags after `flag.Parse()`.
pub record Flags : Type 0 where
  pub metrics_addr : String
  pub probe_addr : String
  pub enable_leader_election : Bool
  pub secure_metrics : Bool
  pub webhook_cert_path : String
  pub webhook_cert_name : String
  pub webhook_cert_key : String
  pub metrics_cert_path : String
  pub metrics_cert_name : String
  pub metrics_cert_key : String
  pub enable_http2 : Bool

-- Those of a command line without arguments.
abbrev pub default_flags : Flags
default_flags = record {
  metrics_addr = "0";
  probe_addr = ":8081";
  enable_leader_election = false;
  secure_metrics = true;
  webhook_cert_path = "";
  webhook_cert_name = "tls.crt";
  webhook_cert_key = "tls.key";
  metrics_cert_path = "";
  metrics_cert_name = "tls.crt";
  metrics_cert_key = "tls.key";
  enable_http2 = false;
}

-- `filepath.Join`, by its arguments.
pub data FilePath : Type 0 where
  join : String → String → FilePath

-- `certwatcher.CertWatcher`, by the files that it watches.
pub record CertWatcher : Type 0 where
  pub certificate : FilePath
  pub key : FilePath

unfoldable pub watcher_of : String → String → String → CertWatcher
watcher_of path name key = record { certificate = join path name; key = join path key }

-- The fields of `tls.Config` that the options set; `none` is a nil function.
pub record TlsConfig : Type 0 where
  pub next_protos : List String
  pub get_certificate : Option CertWatcher

-- The two functions that are used as options.
pub data TlsOption : Type 0 where
  disable_http2 : TlsOption
  certificates_of : CertWatcher → TlsOption

unfoldable pub set_option : TlsOption → TlsConfig → TlsConfig
set_option disable_http2 config = record config { next_protos = "http/1.1" ∷ [] }
set_option (certificates_of watcher) config = record config { get_certificate = some watcher }

-- A server lets the options change its configuration, one after another.
unfoldable pub configured : List TlsOption → TlsConfig → TlsConfig
unfolding set_option
configured [] config = config
configured (o ∷ os) config = configured os (set_option o config)

unfoldable pub tls_options : Flags → List TlsOption
tls_options flags = if flags.enable_http2 then [] else disable_http2 ∷ []

-- An append to a slice that is full or nil: the other slices stay as they are.
unfoldable pub with_certificates : List TlsOption → Option CertWatcher → List TlsOption
with_certificates options none = options
with_certificates options (some watcher) = options ++ certificates_of watcher ∷ []

-- `metricsserver.Options`; the filter asks for authentication and authorisation.
pub record MetricsOptions : Type 0 where
  pub bind_address : String
  pub secure_serving : Bool
  pub tls_options : List TlsOption
  pub has_filter : Bool

-- `ctrl.Options`, with the options of the webhook server in place of the server.
pub record ManagerOptions : Type 0 where
  pub metrics : MetricsOptions
  pub webhook_tls_options : List TlsOption
  pub health_probe_bind_address : String
  pub leader_election : Bool
  pub leader_election_id : String

unfoldable pub metrics_options : Flags → Option CertWatcher → MetricsOptions
unfolding tls_options with_certificates
metrics_options flags watcher = record {
  bind_address = flags.metrics_addr;
  secure_serving = flags.secure_metrics;
  tls_options = with_certificates (tls_options flags) watcher;
  has_filter = flags.secure_metrics;
}

unfoldable pub manager_options : Flags → Option CertWatcher → Option CertWatcher → ManagerOptions
unfolding tls_options with_certificates metrics_options
manager_options flags webhook metrics = record {
  metrics = metrics_options flags metrics;
  webhook_tls_options = with_certificates (tls_options flags) webhook;
  health_probe_bind_address = flags.probe_addr;
  leader_election = flags.enable_leader_election;
  leader_election_id = "fc7ddcf2.omnivya";
}
