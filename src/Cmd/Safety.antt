-- ===== src/Cmd/Safety.antt =====
-- What holds of each start of the operator.
use azdo_kube_operator.Base.{
  Bool-cases, inl, inr, Option, none, some, List, [], ◌∷◌, ◌≡◌, refl, if◌then◌else◌, All,
  All-append,
}
use azdo_kube_operator.Cmd.Options.{
  Flags, CertWatcher, TlsConfig, TlsOption, configured, tls_options, with_certificates,
  manager_options, metrics_options,
}
use azdo_kube_operator.Cmd.Main.{
  BootCall, new_watcher, new_manager, add_watcher, get_config, BootLog, Refuses, main,
}
use azdo_kube_operator.Cmd.Plan.{run, plan, when_made, webhook_watcher, metrics_watcher, main-plan}

module _ (refuses : Refuses) where
  run-All :
      (P : BootCall → Type 0) (cs : List BootCall) (l : BootLog)
      → All P cs
      → All P l
      → All P (run refuses cs l).1
  unfolding run
  run-All P [] l hc hl = hl
  run-All P (c ∷ cs) l hc hl = elim (Bool-cases (refuses l c)) [
    | inl e ↦ rw e (hc.0, hl)
    | inr e ↦ rw e (run-All P cs (c ∷ l) hc.1 (hc.0, hl))
  ]

-- The certificates of a server, by the watcher that was made for it.
abbrev pub or_own : Option CertWatcher → Option CertWatcher → Option CertWatcher
or_own none own = own
or_own (some w) own = some w

module _ (flags : Flags) where
  -- A server speaks HTTP/2 only if the flag allows it, and has the certificates of its watcher.
  pub Protects : List TlsOption → Option CertWatcher → Type 0
  Protects options watcher =
      (config : TlsConfig)
      → ((configured options config).next_protos
          ≡ (if flags.enable_http2 then config.next_protos else "http/1.1" ∷ []))
        × ((configured options config).get_certificate ≡ or_own watcher config.get_certificate)

  options_serve :
      (watcher : Option CertWatcher)
      → Protects (with_certificates (tls_options flags) watcher) watcher
  unfolding Protects with_certificates tls_options configured
  options_serve none config = elim (Bool-cases flags.enable_http2) [
    | inl e ↦ rw e (refl, refl)
    | inr e ↦ rw e (refl, refl)
  ]
  options_serve (some w) config = elim (Bool-cases flags.enable_http2) [
    | inl e ↦ rw e (refl, refl)
    | inr e ↦ rw e (refl, refl)
  ]

  abbrev pub Secured : BootCall → Type 0
  Secured (new_manager o) =
      Protects o.metrics.tls_options (metrics_watcher flags)
      × Protects o.webhook_tls_options (webhook_watcher flags)
      × (o.metrics.has_filter ≡ o.metrics.secure_serving)
  Secured get_config = Unit
  Secured _ = Unit

  made-Secured :
      (o : Option CertWatcher) (c : CertWatcher → BootCall)
      → ((w : CertWatcher) → Secured (c w))
      → All Secured (when_made o c)
  made-Secured none c h = tt
  made-Secured (some w) c h = (h w, tt)

  plan-Secured : All Secured (plan flags)
  unfolding plan manager_options metrics_options
  plan-Secured =
      All-append Secured _ _ (made-Secured (webhook_watcher flags) new_watcher (λ w. tt)) (
        All-append Secured _ _ (made-Secured (metrics_watcher flags) new_watcher (λ w. tt)) (
          tt,
          (
            (options_serve (metrics_watcher flags), options_serve (webhook_watcher flags), refl),
            (
              tt,
              All-append Secured _ _ (made-Secured (metrics_watcher flags) add_watcher (λ w. tt)) (
                  All-append Secured _ _
                    (made-Secured (webhook_watcher flags) add_watcher (λ w. tt))
                    (tt, (tt, (tt, tt)))),
            ),
          ),
        ))

  -- Whatever the configuration of their servers was, the metrics server and the webhook server of the
  -- manager are given HTTP/1.1 alone unless the flag enables HTTP/2, and the certificates of a
  -- watcher exactly if the flag names a directory; requests for metrics are filtered if they are
  -- served securely.
  pub main-Secured : (refuses : Refuses) → All Secured (main refuses flags []).1
  main-Secured refuses =
      rw (main-plan refuses flags []) (run-All refuses Secured (plan flags) [] plan-Secured tt)
