-- ===== src/PodConfig/Startup.antt =====
-- A pod that starts from its environment: cmd/workload/main.go before internal/workload/server.go.
use gpu_lease.Common.{
  ap, ℕ, ◌≡◌, ◌≢◌, refl, ◌⊎◌, inl, inr, String, Bool, false, Option, some, str_eq, eq_iff, ℤ, arith,
  if◌then◌else◌, Bool-cases, Option-cases,
}
use gpu_lease.Decimal.{parse_int32}
use gpu_lease.Decimal.Range.{IsInt32, parse_int32-IsInt32}
use gpu_lease.PodClient.{ActivateRequest, status_accepted, status_conflict}
use gpu_lease.Machine.{activate, activate_in, begin_warmup, unchanged, new_machine}
use gpu_lease.Machine.System.{outcome, start}
use gpu_lease.PodServer.Routes.{HttpRequest, serve_request, serve_among, serve_route, allows}
use gpu_lease.PodServer.{Config, new_server, handle_activate, activate_status}
use gpu_lease.PodConfig.{
  Ended, status_after, main_status, node_name_required, pod_namespace_required, invalid, loaded,
  env_int32, config_of, load_config,
}

-- POST /lease with a body that decodes
abbrev pub lease_request : ActivateRequest → HttpRequest
lease_request req = record { method = "POST"; path = "/lease"; body = some req; cancelled = false }

-- What a new server answers to a first POST /lease.
first_answer :
    (cfg : Config) (req : ActivateRequest) (now : ℕ)
    → (handle_activate (new_server cfg) (some req) now).1
      ≡ (if str_eq req.node cfg.node_name then status_accepted else status_conflict)
unfolding handle_activate new_server activate_status outcome start activate new_machine activate_in
    begin_warmup unchanged
first_answer cfg req now = ground arith

routed_answer :
    (cfg : Config) (req : ActivateRequest) (now : ℕ)
    → (serve_request (new_server cfg) (lease_request req) now).1
      ≡ some (if str_eq req.node cfg.node_name then status_accepted else status_conflict)
unfolding serve_request serve_among serve_route allows
routed_answer cfg req now = ap some (first_answer cfg req now)

env_int32-IsInt32 :
    (env : String → String) (key : String) (def : ℤ) → IsInt32 def → IsInt32 (env_int32 env key def)
unfolding env_int32
env_int32-IsInt32 env key def d = elim (Option-cases (parse_int32 (env key))) [
  | inl e ↦ ground (arith, e, d)
  | inr p ↦ ground (arith, p.1, d, parse_int32-IsInt32 (env key) p.0)
]

-- The capacity is an int32, and the pod takes a first lease for the node of the environment only.
pub record Serves (env : String → String) (cfg : Config) (req : ActivateRequest) (now : ℕ)
    : Type 0 where
  pub capacity : IsInt32 cfg.pod_capacity_rps
  pub answer :
      (serve_request (new_server cfg) (lease_request req) now).1
      ≡ some (if str_eq req.node (env "NODE_NAME") then status_accepted else status_conflict)

is_set : (s : String) → str_eq s "" ≡ false → s ≢ ""
is_set s e q = absurd (grind (arith, (eq_iff s "").1 q, e))

-- loadConfig gives an error exactly where the node's name or the Pod's namespace is missing, whatever
-- the other variables hold, and main exits with status 1 then; else a configuration whose capacity
-- is an int32, and a new server with it answers a first POST /lease with 202 for the node of the
-- environment, and with 409 for any other.
pub load_config-Answers :
    {V : Type 0} (parse_float : String → Option V) (at_most_zero : V → Bool) (to_duration : V → ℤ)
    (env : String → String) (req : ActivateRequest) (now : ℕ) (ended : Ended)
    → ((env "NODE_NAME" ≡ "")
        × (load_config parse_float at_most_zero to_duration env ≡ invalid node_name_required)
        × (main_status parse_float at_most_zero to_duration env ended ≡ 1))
      ⊎ (((env "NODE_NAME" ≢ "")
            × (env "POD_NAMESPACE" ≡ "")
            × (load_config parse_float at_most_zero to_duration env
                ≡ invalid pod_namespace_required)
            × (main_status parse_float at_most_zero to_duration env ended ≡ 1))
          ⊎ ((env "NODE_NAME" ≢ "")
              × (env "POD_NAMESPACE" ≢ "")
              × ((cfg : Config) × (load_config parse_float at_most_zero to_duration env
                    ≡ loaded cfg)
                  × Serves env cfg req now)))
unfolding main_status status_after load_config config_of
load_config-Answers {V} parse_float at_most_zero to_duration env req now ended =
    elim (Bool-cases (str_eq (env "NODE_NAME") "")) [
      | inl e ↦ inl ((eq_iff (env "NODE_NAME") "").0 e, rw e refl, rw e refl)
      | inr e ↦ elim (Bool-cases (str_eq (env "POD_NAMESPACE") "")) [
        | inl f ↦ inr (
            inl (
              is_set _ e,
              (eq_iff (env "POD_NAMESPACE") "").0 f,
              rw e (rw f refl),
              rw e (rw f refl),
            ))
        | inr f ↦ inr (
            inr (
              is_set _ e,
              is_set _ f,
              (
                config_of parse_float at_most_zero to_duration env,
                rw e (rw f refl),
                record {
                  capacity = env_int32-IsInt32 env "POD_CAPACITY_RPS" _ (ground arith);
                  answer =
                      routed_answer (config_of parse_float at_most_zero to_duration env) req now;
                },
              ),
            ))
      ]
    ]
