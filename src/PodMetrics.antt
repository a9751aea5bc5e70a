-- ===== src/PodMetrics.antt =====
-- internal/workload/metrics.go: the values that the pod's gauges, counter and histogram were last
-- given. The demand gauge is Demand's.
use gpu_lease.Common.{ℕ, ◌+◌, List, [], ◌∷◌, ℤ, pos, negsuc, ◌==◌, ltb, if◌then◌else◌}
use gpu_lease.Machine.{State, warm, activating, hot, releasing, Event}

pub record Metrics : Type 0 where
  pub pod_hot : ℕ
  pub pod_capacity_rps : ℤ
  pub pod_gpu_id : ℤ
  pub requests_total : ℕ → ℕ  -- by HTTP status
  pub activation_secs : List ℕ  -- observations, newest first, in nanoseconds

-- NewMetrics: what the gauges start at
unfoldable pub new_metrics : Metrics
new_metrics = record {
  pod_hot = 0;
  pod_capacity_rps = pos 0;
  pod_gpu_id = negsuc 0;
  requests_total = λ code. 0;
  activation_secs = [];
}

-- The gauges that follow the state, by the new state of the event.
unfoldable pub set_gauges : State → Metrics → ℤ → ℤ → Metrics
set_gauges hot m capacity_rps gpu_id = record m {
  pod_hot = 1;
  pod_capacity_rps = capacity_rps;
  pod_gpu_id = gpu_id;
}
set_gauges warm m capacity_rps gpu_id = record m {
  pod_hot = 0;
  pod_capacity_rps = pos 0;
  pod_gpu_id = negsuc 0;
}
set_gauges activating m capacity_rps gpu_id = record m { pod_hot = 0; pod_capacity_rps = pos 0 }
set_gauges releasing m capacity_rps gpu_id = record m { pod_hot = 0; pod_capacity_rps = pos 0 }

unfoldable pub observe_activation : ℕ → Metrics → Metrics
observe_activation duration m =
    if ltb 0 duration then record m { activation_secs = duration ∷ m.activation_secs } else m

-- ApplyEvent
unfoldable pub apply_event : Event → ℤ → Metrics → Metrics
unfolding set_gauges observe_activation
apply_event ev capacity_rps m =
    observe_activation ev.activation_duration (set_gauges ev.new m capacity_rps ev.snapshot.gpu_id)

-- ObserveRequest
unfoldable pub observe_request : ℕ → Metrics → Metrics
observe_request code m = record m {
  requests_total = λ c. if code == c then m.requests_total c + 1 else m.requests_total c;
}
