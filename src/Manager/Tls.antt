-- ===== src/Manager/Tls.antt =====
-- The TLS options that main gives to the two servers.
use gpu_lease.Common.{
  not, ◌&&◌, ltb, ℕ, String, Bool, true, false, Option, none, some, List, [], ◌∷◌, if◌then◌else◌,
  str_eq, All, ◌≡◌, refl, arith, Bool-cases, inl, inr,
}
use gpu_lease.Manager.{
  Flags, Server, webhook, metrics, TlsOption, disable_http2, watched_certificate, Call,
  ManagerOptions, Process, new_process, Run, and_then, ◌>>◌, call, add, base_options,
  with_certificate, manager_options, make_options,
}
use gpu_lease.Manager.Slices.{nil_slice, new_arrays, Slice, Arrays, elements, append, take, set_at}

-- What main's functions set of a tls.Config; the certificate is that of a server's watcher.
pub record TlsConfig : Type 0 where
  pub next_protos : List String
  pub certificate : Option Server

unfoldable pub configure : List TlsOption → TlsConfig → TlsConfig
configure [] c = c
configure (disable_http2 ∷ rest) c = configure rest (record c { next_protos = "http/1.1" ∷ [] })
configure (watched_certificate s ∷ rest) c = configure rest (record c { certificate = some s })

-- A server whose options are configured offers HTTP/2 only where the flag allows it, and has the
-- certificate of the given server's watcher where the flags name one.
pub record Configured (f : Flags) (server : Server) (path : String) (opts : Slice)
    (h : Arrays TlsOption) (c : TlsConfig) : Type 0 where
  pub protos :
      (configure (elements opts h) c).next_protos
      ≡ (if f.enable_http2 then c.next_protos else "http/1.1" ∷ [])
  pub certificate :
      (configure (elements opts h) c).certificate
      ≡ (if str_eq path "" then c.certificate else some server)

-- Whose watcher the webhook's server asks: the metrics server's, where the common options are one
-- function in an array with room for a second, and both servers have a certificate.
abbrev pub asked_by_webhook : Flags → (capacity : ℕ → ℕ) → Server
asked_by_webhook f capacity =
    if not f.enable_http2 && (not (str_eq f.metrics_cert_path "") && ltb 1 (capacity 1))
    then metrics
    else webhook

pub record TlsFits (f : Flags) (capacity : ℕ → ℕ) (c : TlsConfig) (o : ManagerOptions)
    (h : Arrays TlsOption) : Type 0 where
  pub of_webhook :
      Configured f (asked_by_webhook f capacity) f.webhook_cert_path o.webhook_tls_opts h c
  pub of_metrics : Configured f metrics f.metrics_cert_path o.metrics_tls_opts h c

module _ (fails : Call → Bool) where
  -- The calls of the trace have all succeeded.
  abbrev pub AllOk : List Call → Type 0
  AllOk = All (λ c. fails c ≡ false)

  -- A run exits exactly at the first call that fails, and else goes on with P.
  pub data Orderly {A : Type 0} (P : A → Process → Type 0) : Option A × Process → Type 0 where
    exits :
        {s : Process} {c : Call} {rest : List Call}
        → s.calls ≡ c ∷ rest
        → fails c ≡ true
        → AllOk rest
        → Orderly P (none, s)
    goes_on : {a : A} {s : Process} → AllOk s.calls → P a s → Orderly P (some a, s)

  module _ (join : String → String → String) (capacity : ℕ → ℕ) where
    pub Orderly-call :
        {A : Type 0} {P : A → Process → Type 0} (c : Call) (s : Process) (k : Run A)
        → AllOk s.calls
        → (AllOk (c ∷ s.calls) → Orderly P (k (record s { calls = c ∷ s.calls })))
        → Orderly P ((call fails join capacity c >> k) s)
    unfolding call
    Orderly-call c s k clean next = elim (Bool-cases (fails c)) [
      | inl e ↦ rw e (exits refl e clean)
      | inr e ↦ rw e (next (e, clean))
    ]

  pub Orderly-bind :
      {A B : Type 0} {P : A → Process → Type 0} {Q : B → Process → Type 0} {r : Option A × Process}
      {k : A → Run B}
      → Orderly P r
      → ((a : A) (s : Process) → AllOk s.calls → P a s → Orderly Q (k a s))
      → Orderly Q (and_then (r.0) k (r.1))
  Orderly-bind (exits e h rest) next = exits e h rest
  Orderly-bind (goes_on {a} {s} clean p) next = next a s clean p

  module _ (join : String → String → String) (capacity : ℕ → ℕ) where
    -- what with_certificate makes of a slice, without the call
    extended : Server → String → Slice → Arrays TlsOption → Slice × Arrays TlsOption
    extended server path opts h =
        if str_eq path "" then (opts, h) else append capacity opts (watched_certificate server) h

    Extends : Server → String → Slice → Process → Slice → Process → Type 0
    Extends server path opts s o t =
        (o ≡ (extended server path opts s.arrays).0)
        × (t.arrays ≡ (extended server path opts s.arrays).1)

    with_certificate-Orderly :
        (server : Server) (path name key : String) (opts : Slice) (s : Process)
        → AllOk s.calls
        → Orderly
            (Extends server path opts s)
            (with_certificate fails join capacity server path name key opts s)
    unfolding with_certificate add Extends extended
    with_certificate-Orderly server path name key opts s clean =
        elim (Bool-cases (str_eq path "")) [
          | inl e ↦ rw e (goes_on {a = opts} {s = s} clean (rw e refl, rw e refl))
          | inr e ↦ rw e (
              Orderly-call join capacity _ s _ clean
                λ clean'. goes_on clean' (rw e refl, rw e refl))
        ]

    -- what base_options makes, without the process
    base : Flags → Slice × Arrays TlsOption
    base f =
        if not f.enable_http2
        then append capacity nil_slice disable_http2 new_arrays
        else (nil_slice, new_arrays)

    base_options-base :
        (f : Flags)
        → base_options fails join capacity f new_process
          ≡ (some ((base f).0), record { arrays = (base f).1; calls = [] })
    unfolding base base_options add
    base_options-base f = ground arith

    module _ (f : Flags) (c : TlsConfig) where
      webhook_slice : Slice × Arrays TlsOption
      webhook_slice = extended webhook f.webhook_cert_path ((base f).0) ((base f).1)

      metrics_slice : Slice × Arrays TlsOption
      metrics_slice = extended metrics f.metrics_cert_path ((base f).0) (webhook_slice.1)

      webhook_slice-Configured :
          Configured f
            (asked_by_webhook f capacity)
            f.webhook_cert_path
            (webhook_slice.0)
            (metrics_slice.1)
            c
      unfolding webhook_slice metrics_slice base extended elements append configure take set_at
      webhook_slice-Configured = record { protos = ground arith; certificate = ground arith }

      metrics_slice-Configured :
          Configured f metrics f.metrics_cert_path (metrics_slice.0) (metrics_slice.1) c
      unfolding webhook_slice metrics_slice base extended elements append configure take set_at
      metrics_slice-Configured = record { protos = ground arith; certificate = ground arith }

      abbrev pub Fits : ManagerOptions → Process → Type 0
      Fits o s = TlsFits f capacity c o s.arrays

      pub make_options-Orderly : Orderly Fits (make_options fails join capacity f new_process)
      unfolding make_options Extends webhook_slice metrics_slice manager_options
      make_options-Orderly = rw (base_options-base f) (
          Orderly-bind
            (with_certificate-Orderly webhook f.webhook_cert_path f.webhook_cert_name
              f.webhook_cert_key ((base f).0) (record { arrays = (base f).1; calls = [] }) tt)
            (λ w s clean e.
              Orderly-bind
                (with_certificate-Orderly metrics f.metrics_cert_path f.metrics_cert_name
                  f.metrics_cert_key ((base f).0) s clean)
                (λ m t clean' e'. goes_on clean' record {
                  of_webhook = rw (e.0, e'.1, e.1) webhook_slice-Configured;
                  of_metrics = rw (e'.0, e'.1, e.1) metrics_slice-Configured;
                })))
