-- ===== src/Manager.antt =====
-- cmd/manager/main.go: the start of the manager. `fails` tells which calls of the libraries fail,
-- `join` is filepath.Join and `capacity` the capacity that Go's append gives to a new array, by the
-- number of elements that it needs. Logs and the scheme are not modelled.
pub mod Slices
pub mod Tls
pub mod Start
use gpu_lease.Common.{
  ℕ, String, Bool, true, false, not, Option, none, some, List, [], ◌∷◌, if◌then◌else◌, str_eq,
}
use gpu_lease.Manager.Slices.{Slice, Arrays, nil_slice, new_arrays, append}

-- The flags of main.
pub record Flags : Type 0 where
  pub metrics_addr : String
  pub probe_addr : String
  pub enable_leader_election : Bool
  pub secure_metrics : Bool
  pub webhook_cert_path : String
  pub webhook_cert_name : String
  pub webhook_cert_key : String
  pub metrics_cert_path : String
  pub metrics_cert_name : String
  pub metrics_cert_key : String
  pub enable_http2 : Bool

abbrev pub default_flags : Flags
default_flags = record {
  metrics_addr = "0";
  probe_addr = ":8081";
  enable_leader_election = false;
  secure_metrics = true;
  webhook_cert_path = "";
  webhook_cert_name = "tls.crt";
  webhook_cert_key = "tls.key";
  metrics_cert_path = "";
  metrics_cert_name = "tls.crt";
  metrics_cert_key = "tls.key";
  enable_http2 = false;
}

pub data Server : Type 0 where
  webhook metrics : Server

-- The functions in TLSOpts: disableHTTP2, and the one that takes the certificate from a server's
-- watcher.
pub data TlsOption : Type 0 where
  disable_http2 : TlsOption
  watched_certificate : Server → TlsOption

-- metricsserver.Options, and what main sets of ctrl.Options.
pub record ManagerOptions : Type 0 where
  pub metrics_bind_address : String
  pub metrics_secure_serving : Bool
  pub metrics_authenticates : Bool  -- FilterProvider is set
  pub metrics_tls_opts : Slice
  pub webhook_tls_opts : Slice
  pub health_probe_bind_address : String
  pub leader_election : Bool
  pub leader_election_id : String

-- The calls that main makes and that may fail.
pub data Call : Type 0 where
  watch_certificate : Server → (cert key : String) → Call
  get_config : Call
  new_manager : ManagerOptions → Call
  set_up_leases set_up_warm_pool : Call
  add_watcher : Server → Call
  add_healthz add_readyz start : Call

-- The calls that were made, newest first.
pub record Process : Type 0 where
  pub arrays : Arrays TlsOption
  pub calls : List Call

abbrev pub new_process : Process
new_process = record { arrays = new_arrays; calls = [] }

-- `none` is os.Exit(1).
abbrev pub Run : Type 0 → Type 0
Run A = Process → Option A × Process

module _ {A B : Type 0} where
  abbrev pub and_then : Option A → (A → Run B) → Run B
  and_then none k s = (none, s)
  and_then (some a) k s = k a s

  infixl 5 ◌>>=◌ ◌>>◌
  abbrev pub ◌>>=◌ : Run A → (A → Run B) → Run B
  (m >>= k) s = let (a, s') = m s in and_then a k s'

  abbrev pub ◌>>◌ : Run A → Run B → Run B
  m >> n = m >>= λ _. n

abbrev pub pure : {A : Type 0} → A → Run A
pure a s = (some a, s)

module _ (fails : Call → Bool) (join : String → String → String) (capacity : ℕ → ℕ) where
  -- if err := …; err != nil { os.Exit(1) }
  unfoldable pub call : Call → Run (Unit {0})
  call c s = (if fails c then none else some tt, record s { calls = c ∷ s.calls })

  unfoldable pub add : Slice → TlsOption → Run Slice
  add opts o s = let (r, h) = append capacity opts o s.arrays in (some r, record s { arrays = h })

  unfoldable pub base_options : Flags → Run Slice
  base_options f = if not f.enable_http2 then add nil_slice disable_http2 else pure nil_slice

  -- if len(path) > 0 { watcher, err := certwatcher.New(…); …; opts = append(opts, …) }
  unfoldable pub with_certificate : Server → (path name key : String) → Slice → Run Slice
  with_certificate server path name key opts = if str_eq path "" then pure opts else (do
    call (watch_certificate server (join path name) (join path key))
    add opts (watched_certificate server))

  unfoldable pub manager_options : Flags → (webhook_opts metrics_opts : Slice) → ManagerOptions
  manager_options f webhook_opts metrics_opts = record {
    metrics_bind_address = f.metrics_addr;
    metrics_secure_serving = f.secure_metrics;
    metrics_authenticates = f.secure_metrics;
    metrics_tls_opts = metrics_opts;
    webhook_tls_opts = webhook_opts;
    health_probe_bind_address = f.probe_addr;
    leader_election = f.enable_leader_election;
    leader_election_id = "f8b32de7.llm-d.ai";
  }

  unfoldable pub add_watcher_if : Server → (path : String) → Run (Unit {0})
  add_watcher_if server path = if str_eq path "" then pure tt else call (add_watcher server)

  -- main up to the construction of the manager: the options that it gives to it.
  unfoldable pub make_options : Flags → Run ManagerOptions
  make_options f = do
    tls_opts ← base_options f
    webhook_opts ←
        with_certificate webhook f.webhook_cert_path f.webhook_cert_name f.webhook_cert_key tls_opts
    metrics_opts ←
        with_certificate metrics f.metrics_cert_path f.metrics_cert_name f.metrics_cert_key tls_opts
    pure (manager_options f webhook_opts metrics_opts)

  unfoldable pub main : Flags → Run (Unit {0})
  main f = do
    options ← make_options f
    call get_config
    call (new_manager options)
    call set_up_leases
    call set_up_warm_pool
    add_watcher_if metrics f.metrics_cert_path
    add_watcher_if webhook f.webhook_cert_path
    call add_healthz
    call add_readyz
    call start
