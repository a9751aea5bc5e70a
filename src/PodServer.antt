-- ===== src/PodServer.antt =====
-- internal/workload/server.go: the handlers over the machine and the metrics. Decoding a body is
-- not modelled: a handler gets the decoded request, or `none`. Each hook runs before the next input.
pub mod Gauges
pub mod Routes
pub mod Wire
use gpu_lease.Common.{
  ℕ, String, Bool, true, false, Option, none, some, List, [], ◌∷◌, ℤ, if◌then◌else◌,
}
use gpu_lease.Names.{state_warm, state_activating, state_hot, state_releasing}
use gpu_lease.PodClient.{
  ActivateRequest, StateResponse, status_ok, status_accepted, status_no_content, status_bad_request,
  status_conflict, status_service_unavailable,
}
use gpu_lease.Machine.{
  State, warm, activating, hot, releasing, Event, Snapshot, ActivateError, node_mismatch,
  lease_conflict, Machine, snapshot, is_hot,
}
use gpu_lease.Machine.System.{System, Input, activates, releases, outcome, step, start}
use gpu_lease.PodMetrics.{Metrics, new_metrics, apply_event, observe_request}

pub record Config : Type 0 where
  pub node_name : String
  pub pod_name : String
  pub pod_namespace : String
  pub deployment_name : String
  pub pod_capacity_rps : ℤ
  pub warmup_duration : ℤ
  pub teardown_duration : ℤ
  pub demand_config_map_name : String

pub record Server : Type 0 where
  pub cfg : Config
  pub pod : System
  pub metrics : Metrics

-- NewServer
unfoldable pub new_server : Config → Server
unfolding start new_metrics
new_server cfg = record {
  cfg = cfg;
  pod = start cfg.warmup_duration cfg.teardown_duration;
  metrics = new_metrics;
}

-- onTransition, where there was a transition
unfoldable pub on_transition : Option Event → ℤ → Metrics → Metrics
on_transition none capacity_rps m = m
on_transition (some ev) capacity_rps m = apply_event ev capacity_rps m

-- A call of the machine, or a timer of it, with its hook.
unfoldable pub serve : Server → Input → Server
unfolding on_transition
serve s i = record s {
  pod = step s.cfg.node_name s.pod i;
  metrics = on_transition (outcome s.cfg.node_name s.pod i).event s.cfg.pod_capacity_rps s.metrics;
}

unfoldable pub serve_all : Server → List Input → Server
unfolding serve
serve_all s [] = s
serve_all s (i ∷ is) = serve_all (serve s i) is

unfoldable pub activate_status : Option ActivateError → ℕ
activate_status none = status_accepted
activate_status (some node_mismatch) = status_conflict
activate_status (some lease_conflict) = status_conflict

-- handleActivate: the server after it, and the status
unfoldable pub handle_activate : Server → Option ActivateRequest → (now : ℕ) → Server × ℕ
unfolding activate_status serve
handle_activate s none now = (s, status_bad_request)
handle_activate s (some req) now = (
  serve s (activates req now),
  activate_status (outcome s.cfg.node_name s.pod (activates req now)).error,
)

-- handleRelease
unfoldable pub handle_release : Server → Server × ℕ
unfolding serve
handle_release s = (serve s releases, status_no_content)

-- The strings that the constants StateWarm, StateActivating, StateHot and StateReleasing stand for.
unfoldable pub state_name : State → String
state_name warm = state_warm
state_name activating = state_activating
state_name hot = state_hot
state_name releasing = state_releasing

unfoldable pub response_of : Snapshot → StateResponse
unfolding state_name
response_of snap = record {
  state = state_name snap.state;
  lease_name = snap.lease_name;
  node = snap.node;
  gpu_id = snap.gpu_id;
}

-- handleState: no WriteHeader, so the status is 200
unfoldable pub handle_state : Server → ℕ × StateResponse
unfolding response_of snapshot
handle_state s = (status_ok, response_of (snapshot s.pod.machine))

-- handleInfer; `cancelled` is that the client went away during the simulated latency, and then
-- there is no response.
unfoldable pub handle_infer : Server → (cancelled : Bool) → Server × Option ℕ
unfolding is_hot observe_request
handle_infer s cancelled =
    if is_hot s.pod.machine
    then (if cancelled
        then (s, none)
        else (record s { metrics = observe_request status_ok s.metrics }, some status_ok))
    else (
      record s { metrics = observe_request status_service_unavailable s.metrics },
      some status_service_unavailable,
    )

-- handleHealthz, for GET /healthz and GET /readyz
unfoldable pub handle_healthz : Server → ℕ
handle_healthz s = status_ok
