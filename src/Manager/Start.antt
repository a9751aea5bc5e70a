-- ===== src/Manager/Start.antt =====
-- What has been done when the manager starts, and where the process exits before.
use gpu_lease.Common.{
  ℕ, String, Bool, true, List, ◌∷◌, str_eq, In, ◌⊎◌, ◌≡◌, refl, arith, Bool-cases, inl, inr,
}
use gpu_lease.Manager.{
  Flags, webhook, metrics, Call, get_config, new_manager, set_up_leases, set_up_warm_pool,
  add_watcher, add_healthz, add_readyz, start, ManagerOptions, Process, new_process, Run, ◌>>◌,
  call, add_watcher_if, main,
}
use gpu_lease.Manager.Tls.{
  TlsConfig, TlsFits, AllOk, Orderly, exits, goes_on, Orderly-call, Orderly-bind,
  make_options-Orderly,
}

-- The manager has been made with the options, and has both controllers and the watcher of each
-- certificate that the flags name.
pub record Prepared (f : Flags) (o : ManagerOptions) (calls : List Call) : Type 0 where
  pub made : In (new_manager o) calls
  pub leases : In set_up_leases calls
  pub warm_pool : In set_up_warm_pool calls
  pub webhook_watcher : (str_eq f.webhook_cert_path "" ≡ true) ⊎ In (add_watcher webhook) calls
  pub metrics_watcher : (str_eq f.metrics_cert_path "" ≡ true) ⊎ In (add_watcher metrics) calls

-- The last call was that of Start, of a manager that was prepared and has both checks.
pub record Started (f : Flags) (capacity : ℕ → ℕ) (c : TlsConfig) (s : Process) : Type 0 where
  pub earlier : List Call
  pub last : s.calls ≡ start ∷ earlier
  pub options : ManagerOptions
  pub prepared : Prepared f options earlier
  pub fits : TlsFits f capacity c options s.arrays
  pub healthz : In add_healthz earlier
  pub readyz : In add_readyz earlier

module _ (fails : Call → Bool) (join : String → String → String) (capacity : ℕ → ℕ) where
  Orderly-last :
      {P : Unit {0} → Process → Type 0} (c : Call) (s : Process)
      → AllOk fails s.calls
      → P tt (record s { calls = c ∷ s.calls })
      → Orderly fails P (call fails join capacity c s)
  unfolding call
  Orderly-last c s clean p = elim (Bool-cases (fails c)) [
    | inl e ↦ rw e (exits refl e clean)
    | inr e ↦ rw e (goes_on {a = tt} {s = record s { calls = c ∷ s.calls }} (e, clean) p)
  ]

  module _ (f : Flags) (c : TlsConfig) (o : ManagerOptions) where
    start_up : Run (Unit {0})
    start_up =
        call fails join capacity add_healthz
        >> (call fails join capacity add_readyz >> call fails join capacity start)

    start_up-Orderly :
        (s : Process)
        → AllOk fails s.calls
        → Prepared f o s.calls
        → TlsFits f capacity c o s.arrays
        → Orderly fails (λ _. Started f capacity c) (start_up s)
    unfolding start_up
    start_up-Orderly s clean p fits =
        Orderly-call fails join capacity add_healthz s _ clean λ clean1.
          Orderly-call fails join capacity add_readyz _ _ clean1 λ clean2.
            Orderly-last start _ clean2 record {
              earlier = _;
              last = refl;
              options = o;
              prepared = record {
                made = inr (inr p.made);
                leases = inr (inr p.leases);
                warm_pool = inr (inr p.warm_pool);
                webhook_watcher = ground (arith, p.webhook_watcher);
                metrics_watcher = ground (arith, p.metrics_watcher);
              };
              fits = fits;
              healthz = inr (inl refl);
              readyz = inl refl;
            }

    -- the watcher of the webhook's certificate, and what follows
    webhook_on : Run (Unit {0})
    webhook_on = add_watcher_if fails join capacity webhook f.webhook_cert_path >> start_up

    webhook_on-Orderly :
        (s : Process)
        → AllOk fails s.calls
        → In (new_manager o) s.calls
        → In set_up_leases s.calls
        → In set_up_warm_pool s.calls
        → (str_eq f.metrics_cert_path "" ≡ true) ⊎ In (add_watcher metrics) s.calls
        → TlsFits f capacity c o s.arrays
        → Orderly fails (λ _. Started f capacity c) (webhook_on s)
    unfolding add_watcher_if webhook_on
    webhook_on-Orderly s clean made leases pool watched fits =
        elim (Bool-cases (str_eq f.webhook_cert_path "")) [
          | inl w ↦ rw w (
              start_up-Orderly s clean
                record {
                  made = made;
                  leases = leases;
                  warm_pool = pool;
                  webhook_watcher = inl w;
                  metrics_watcher = watched;
                }
                fits)
          | inr w ↦ rw w (
              Orderly-call fails join capacity (add_watcher webhook) s _ clean λ clean'.
                start_up-Orderly _ clean'
                  record {
                    made = inr made;
                    leases = inr leases;
                    warm_pool = inr pool;
                    webhook_watcher = inr (inl refl);
                    metrics_watcher = ground (arith, watched);
                  }
                  fits)
        ]

    metrics_on-Orderly :
        (s : Process)
        → AllOk fails s.calls
        → In (new_manager o) s.calls
        → In set_up_leases s.calls
        → In set_up_warm_pool s.calls
        → TlsFits f capacity c o s.arrays
        → Orderly fails
            (λ _. Started f capacity c)
            ((add_watcher_if fails join capacity metrics f.metrics_cert_path >> webhook_on) s)
    unfolding add_watcher_if
    metrics_on-Orderly s clean made leases pool fits =
        elim (Bool-cases (str_eq f.metrics_cert_path "")) [
          | inl m ↦ rw m (webhook_on-Orderly s clean made leases pool (inl m) fits)
          | inr m ↦ rw m (
              Orderly-call fails join capacity (add_watcher metrics) s _ clean λ clean'.
                webhook_on-Orderly _ clean' (inr made) (inr leases) (inr pool) (inr (inl refl))
                  fits)
        ]

    set_up-Orderly :
        (s : Process)
        → AllOk fails s.calls
        → TlsFits f capacity c o s.arrays
        → Orderly fails
            (λ _. Started f capacity c)
            ((call fails join capacity get_config
                >> (call fails join capacity (new_manager o)
                    >> (call fails join capacity set_up_leases
                        >> (call fails join capacity set_up_warm_pool
                            >> (add_watcher_if fails join capacity metrics f.metrics_cert_path
                                >> webhook_on)))))
              s)
    set_up-Orderly s clean fits = Orderly-call fails join capacity get_config s _ clean λ clean0.
        Orderly-call fails join capacity (new_manager o) _ _ clean0 λ clean1.
          Orderly-call fails join capacity set_up_leases _ _ clean1 λ clean2.
            Orderly-call fails join capacity set_up_warm_pool _ _ clean2 λ clean3.
              metrics_on-Orderly _ clean3 (inr (inr (inl refl))) (inr (inl refl)) (inl refl) fits

  -- The process of cmd/manager exits exactly at the first call that fails. Else the manager has been
  -- started, after both controllers, both checks and the watcher of each certificate that the flags
  -- name were added to it; then each of its two servers offers HTTP/2 only where the flag allows it,
  -- and the metrics server takes the certificate from its own watcher where the flags name one. So
  -- does the webhook's server, unless HTTP/2 is off, the metrics server has a certificate as well and
  -- append gives a first element an array with spare room: then it asks the metrics server's watcher.
  pub main-Orderly :
      (f : Flags) (c : TlsConfig)
      → Orderly fails (λ _. Started f capacity c) (main fails join capacity f new_process)
  unfolding main start_up webhook_on
  main-Orderly f c =
      Orderly-bind fails (make_options-Orderly fails join capacity f c)
        (λ o s clean fits. set_up-Orderly f c o s clean fits)
