-- ===== src/Cmd/Main.antt =====
-- cmd/main.go: `main`, from the parsed flags on. Log lines are left out.
use azdo_kube_operator.Base.{
  ⊤, Bool, String, Option, none, some, List, ◌∷◌, if◌then◌else◌, str_eq, pos,
}
use azdo_kube_operator.Controller.{AzureDevOpsReconciler, manager_client, Watch, watches, prepared}
use azdo_kube_operator.Cmd.Options.{Flags, CertWatcher, watcher_of, ManagerOptions, manager_options}

-- The calls of the libraries that may fail. `ctrl.GetConfigOrDie` exits by itself.
pub data BootCall : Type 0 where
  new_watcher : CertWatcher → BootCall
  get_config : BootCall
  new_manager : ManagerOptions → BootCall
  complete : List Watch → AzureDevOpsReconciler → BootCall
  add_watcher : CertWatcher → BootCall
  add_healthz_check add_readyz_check : String → BootCall
  start : BootCall

abbrev pub BootLog : Type 0
BootLog = List BootCall

-- Whether a call fails after a history.
abbrev pub Refuses : Type 0
Refuses = BootLog → BootCall → Bool

-- What a part of `main` gives, or `none` for `os.Exit(1)`, and the history, the newest call first.
abbrev pub Boot : Type 0 → Type 0
Boot A = BootLog → Option A × BootLog

module _ {A : Type 0} where
  abbrev pub pure : A → Boot A
  pure a l = (some a, l)

module _ {A B : Type 0} where
  abbrev pub go_on : Option A → (A → Boot B) → Boot B
  go_on none f l = (none, l)
  go_on (some a) f l = f a l

  infixl 5 ◌>>=◌ ◌>>◌
  abbrev pub ◌>>=◌ : Boot A → (A → Boot B) → Boot B
  (m >>= f) l = go_on (m l).0 f (m l).1

  abbrev pub ◌>>◌ : Boot A → Boot B → Boot B
  m >> k = m >>= λ _. k

-- The controller that `main` sets up.
unfoldable pub new_controller : AzureDevOpsReconciler
new_controller = record {
  client = manager_client;
  usecase = none;
  recorder = none;
  reconcile_timeout = pos 0;
}

module _ (refuses : Refuses) where
  -- `if err := c(); err != nil { os.Exit(1) }`
  unfoldable pub attempt : BootCall → Boot ⊤
  attempt c l = (if refuses l c then none else some tt, c ∷ l)

  -- A watcher is made if there is a path.
  unfoldable pub make_watcher : String → String → String → Boot (Option CertWatcher)
  unfolding attempt watcher_of
  make_watcher path name key =
      if str_eq path ""
      then pure none
      else attempt (new_watcher (watcher_of path name key))
        >> pure (some (watcher_of path name key))

  unfoldable pub add_if_made : Option CertWatcher → Boot ⊤
  unfolding attempt
  add_if_made none = pure tt
  add_if_made (some w) = attempt (add_watcher w)

  unfoldable pub setup_with_manager : AzureDevOpsReconciler → Boot ⊤
  unfolding attempt prepared watches
  setup_with_manager r = attempt (complete watches (prepared r))

  unfoldable pub main : Flags → Boot ⊤
  unfolding attempt make_watcher add_if_made setup_with_manager new_controller manager_options
  main flags = do
    webhook ← make_watcher flags.webhook_cert_path flags.webhook_cert_name flags.webhook_cert_key
    metrics ← make_watcher flags.metrics_cert_path flags.metrics_cert_name flags.metrics_cert_key
    attempt get_config
    attempt (new_manager (manager_options flags webhook metrics))
    setup_with_manager new_controller
    add_if_made metrics
    add_if_made webhook
    attempt (add_healthz_check "healthz")
    attempt (add_readyz_check "readyz")
    attempt start
