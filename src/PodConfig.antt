-- ===== src/PodConfig.antt =====
-- cmd/workload/main.go: the configuration of a pod, from its environment. `env` is os.Getenv, which
-- gives the empty text where a variable is not set. `V` stands for float64, `parse_float` for
-- strconv.ParseFloat, and `to_duration` for the conversion of seconds. Warnings are not modelled.
pub mod Startup
use gpu_lease.Common.{
  ℕ, true, false, ◌*◌, String, Bool, Option, none, some, str_eq, ℤ, pos, get_or, if◌then◌else◌,
}
use gpu_lease.Names.{default_pod_capacity_rps}
use gpu_lease.Decimal.{parse_int32}
use gpu_lease.Demand.{default_demand_config_map_name}
use gpu_lease.Machine.{default_warmup_duration, default_teardown_duration}
use gpu_lease.PodServer.{Config}

-- The two errors of loadConfig
pub data ConfigError : Type 0 where
  node_name_required pod_namespace_required : ConfigError

pub data Loaded : Type 0 where
  invalid : ConfigError → Loaded
  loaded : Config → Loaded

-- What the `select` of ListenAndServe sees first: the end of the context, with whether Shutdown
-- fails then, or the end of the http.Server, with its error.
pub data ServeError : Type 0 where
  server_closed other_error : ServeError

pub data Ended : Type 0 where
  context_done : (shutdown_fails : Bool) → Ended
  server_ended : Option ServeError → Ended

-- Whether ListenAndServe gives an error.
unfoldable pub listen_and_serve_fails : Ended → Bool
listen_and_serve_fails (context_done fails) = fails
listen_and_serve_fails (server_ended none) = false
listen_and_serve_fails (server_ended (some server_closed)) = false
listen_and_serve_fails (server_ended (some other_error)) = true

-- The exit status of main, with what loadConfig gives.
unfoldable pub status_after : Loaded → Ended → ℕ
status_after (invalid e) ended = 1
status_after (loaded cfg) ended = if listen_and_serve_fails ended then 1 else 0

-- envString
unfoldable pub env_string : (String → String) → (key def : String) → String
env_string env key def = if str_eq (env key) "" then def else env key

-- envInt32
unfoldable pub env_int32 : (String → String) → (key : String) → (def : ℤ) → ℤ
env_int32 env key def = if str_eq (env key) "" then def else get_or (parse_int32 (env key)) def

module _ {V : Type 0} (parse_float : String → Option V) (at_most_zero : V → Bool)
    (to_duration : V → ℤ) where
  -- The value of envSeconds, by the parse of the text.
  unfoldable pub seconds_or : ℤ → Option V → ℤ
  seconds_or def none = def
  seconds_or def (some v) = if at_most_zero v then def else to_duration v

  -- envSeconds
  unfoldable pub env_seconds : (String → String) → (key : String) → (def : ℤ) → ℤ
  unfolding seconds_or
  env_seconds env key def =
      if str_eq (env key) "" then def else seconds_or def (parse_float (env key))

  unfoldable pub config_of : (String → String) → Config
  unfolding env_string env_int32 env_seconds
  config_of env = record {
    node_name = env "NODE_NAME";
    pod_name = env "POD_NAME";
    pod_namespace = env "POD_NAMESPACE";
    deployment_name = env "DEPLOYMENT_NAME";
    pod_capacity_rps = env_int32 env "POD_CAPACITY_RPS" default_pod_capacity_rps;
    warmup_duration = env_seconds env "WARMUP_SECONDS" default_warmup_duration;
    teardown_duration = env_seconds env "TEARDOWN_SECONDS" default_teardown_duration;
    demand_config_map_name = env_string env "DEMAND_CONFIGMAP" default_demand_config_map_name;
  }

  -- loadConfig
  unfoldable pub load_config : (String → String) → Loaded
  unfolding config_of
  load_config env =
      if str_eq (env "NODE_NAME") ""
      then invalid node_name_required
      else if str_eq (env "POD_NAMESPACE") ""
      then invalid pod_namespace_required
      else loaded (config_of env)

  -- The exit status of main, by how the server ends.
  unfoldable pub main_status : (String → String) → Ended → ℕ
  main_status env ended = status_after (load_config env) ended

-- buildK8sClient, with what rest.InClusterConfig and kubernetes.NewForConfig give
unfoldable pub build_k8s_client :
    {C K : Type 0} → (in_cluster : Option C) → (new_for_config : C → Option K) → Option K
build_k8s_client none new_for_config = none
build_k8s_client (some cfg) new_for_config = new_for_config cfg
