-- ===== src/Cmd/Plan.antt =====
-- What `main` does, as a list of calls that are made until one fails.

use azdo_kube_operator.Base.{
  ⊤, Bool-cases, inl, inr, String, Option, none, some, List, [], ◌∷◌, ◌++◌, ◌≡◌, refl,
  if◌then◌else◌, str_eq,
}
use azdo_kube_operator.Controller.{prepared, watches}
use azdo_kube_operator.Cmd.Options.{Flags, CertWatcher, watcher_of, manager_options}
use azdo_kube_operator.Cmd.Main.{
  BootCall, new_watcher, get_config, new_manager, complete, add_watcher, add_healthz_check,
  add_readyz_check, start, BootLog, Refuses, Boot, ◌>>=◌, ◌>>◌, attempt, make_watcher, add_if_made,
  setup_with_manager, new_controller, main,
}

-- The calls in their order, up to the first that fails.
unfoldable pub run : Refuses → List BootCall → Boot ⊤
run refuses [] l = (some tt, l)
run refuses (c ∷ cs) l = if refuses l c then (none, c ∷ l) else run refuses cs (c ∷ l)

abbrev pub watcher_at : String → String → String → Option CertWatcher
watcher_at path name key = if str_eq path "" then none else some (watcher_of path name key)

abbrev pub webhook_watcher : Flags → Option CertWatcher
webhook_watcher f = watcher_at f.webhook_cert_path f.webhook_cert_name f.webhook_cert_key

abbrev pub metrics_watcher : Flags → Option CertWatcher
metrics_watcher f = watcher_at f.metrics_cert_path f.metrics_cert_name f.metrics_cert_key

abbrev pub when_made : Option CertWatcher → (CertWatcher → BootCall) → List BootCall
when_made none c = []
when_made (some w) c = c w ∷ []

-- Both watchers are made before the manager and added to it before it starts, which is the last
-- call.
unfoldable pub plan : Flags → List BootCall
plan flags =
    when_made (webhook_watcher flags) new_watcher
    ++ (when_made (metrics_watcher flags) new_watcher
        ++ (get_config
            ∷ new_manager (manager_options flags (webhook_watcher flags) (metrics_watcher flags))
            ∷ complete watches (prepared new_controller)
            ∷ (when_made (metrics_watcher flags) add_watcher
                ++ (when_made (webhook_watcher flags) add_watcher
                    ++ (add_healthz_check "healthz" ∷ add_readyz_check "readyz" ∷ start ∷ [])))))

module _ (refuses : Refuses) where
  Runs : Boot ⊤ → List BootCall → Type 0
  Runs m cs = (l : BootLog) → m l ≡ run refuses cs l

  attempt-Runs :
      (c : BootCall) (m : Boot ⊤) (cs : List BootCall)
      → Runs m cs
      → Runs (attempt refuses c >> m) (c ∷ cs)
  unfolding Runs run attempt
  attempt-Runs c m cs k l = elim (Bool-cases (refuses l c)) [
    | inl e ↦ rw e refl
    | inr e ↦ rw e (k (c ∷ l))
  ]

  last-Runs : (c : BootCall) → Runs (attempt refuses c) (c ∷ [])
  unfolding Runs run attempt
  last-Runs c l = elim (Bool-cases (refuses l c)) [ inl e ↦ rw e refl | inr e ↦ rw e refl ]

  make_watcher-Runs :
      (path name key : String) (f : Option CertWatcher → Boot ⊤) (cs : List BootCall)
      → Runs (f (watcher_at path name key)) cs
      → Runs
          (make_watcher refuses path name key >>= f)
          (when_made (watcher_at path name key) new_watcher ++ cs)
  unfolding Runs run make_watcher attempt
  make_watcher-Runs path name key f cs k l = elim (Bool-cases (str_eq path "")) [
    | inl e ↦ rw e (rw e at k l)
    | inr e ↦ elim (Bool-cases (refuses l (new_watcher (watcher_of path name key)))) [
      | inl r ↦ rw e (rw r refl)
      | inr r ↦ rw e (rw r (rw e at k (new_watcher (watcher_of path name key) ∷ l)))
    ]
  ]

  add_if_made-Runs :
      (w : Option CertWatcher) (m : Boot ⊤) (cs : List BootCall)
      → Runs m cs
      → Runs (add_if_made refuses w >> m) (when_made w add_watcher ++ cs)
  unfolding Runs add_if_made
  add_if_made-Runs none m cs k l = k l
  add_if_made-Runs (some w) m cs k l = attempt-Runs (add_watcher w) m cs k l

  -- `main` behind the watchers.
  started : Flags → Option CertWatcher → Option CertWatcher → Boot ⊤
  started flags webhook metrics = do
    attempt refuses get_config
    attempt refuses (new_manager (manager_options flags webhook metrics))
    setup_with_manager refuses new_controller
    add_if_made refuses metrics
    add_if_made refuses webhook
    attempt refuses (add_healthz_check "healthz")
    attempt refuses (add_readyz_check "readyz")
    attempt refuses start

  planned : Flags → Option CertWatcher → Option CertWatcher → List BootCall
  planned flags webhook metrics =
      get_config
      ∷ new_manager (manager_options flags webhook metrics)
      ∷ complete watches (prepared new_controller)
      ∷ (when_made metrics add_watcher
          ++ (when_made webhook add_watcher
              ++ (add_healthz_check "healthz" ∷ add_readyz_check "readyz" ∷ start ∷ [])))

  started-Runs :
      (flags : Flags) (webhook metrics : Option CertWatcher)
      → Runs (started flags webhook metrics) (planned flags webhook metrics)
  unfolding started planned setup_with_manager Runs
  started-Runs flags webhook metrics = attempt-Runs get_config _ _ (
      attempt-Runs (new_manager (manager_options flags webhook metrics)) _ _ (
        attempt-Runs (complete watches (prepared new_controller)) _ _ (
          add_if_made-Runs metrics _ _ (
            add_if_made-Runs webhook _ _ (
              attempt-Runs (add_healthz_check "healthz") _ _
                (attempt-Runs (add_readyz_check "readyz") _ _ (last-Runs start)))))))

  -- From the parsed flags on, the program makes the calls of the plan in their order, up to the first
  -- that fails, and then exits; it returns if none fails. The plan: a certificate watcher for each
  -- directory that a flag names, the configuration, the manager, the controller, the watchers added to
  -- the manager, the two checks, and the start.
  pub main-plan : (flags : Flags) (l : BootLog) → main refuses flags l ≡ run refuses (plan flags) l
  unfolding Runs main plan started planned run
  main-plan flags l =
      make_watcher-Runs flags.webhook_cert_path flags.webhook_cert_name flags.webhook_cert_key
        (λ webhook.
          make_watcher refuses flags.metrics_cert_path flags.metrics_cert_name
            flags.metrics_cert_key
          >>= started flags webhook)
        (when_made (metrics_watcher flags) new_watcher
          ++ planned flags (webhook_watcher flags) (metrics_watcher flags))
        (make_watcher-Runs flags.metrics_cert_path flags.metrics_cert_name flags.metrics_cert_key
          (started flags (webhook_watcher flags))
          (planned flags (webhook_watcher flags) (metrics_watcher flags))
          (started-Runs flags (webhook_watcher flags) (metrics_watcher flags)))
        l
