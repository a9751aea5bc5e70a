-- ===== src/PodServer/Gauges.antt =====
-- The pod's gauges of metrics.go and its state.
use gpu_lease.Common.{ℕ, ◌≡◌, String, Option, List, [], ◌∷◌, ℤ, pos, negsuc, arith}
use gpu_lease.PodClient.{ActivateRequest}
use gpu_lease.Machine.{
  Machine, warm, activating, hot, releasing, Timer, activate, activate_in, begin_warmup, release,
  release_in, begin_teardown, back_to_warm, complete_warmup, complete_teardown,
}
use gpu_lease.Machine.System.{Input, activates, releases, fires, timer_at, fire, outcome, step}
use gpu_lease.PodMetrics.{Metrics, apply_event}
use gpu_lease.PodServer.{Config, Server, new_server, on_transition, serve, serve_all}

-- What the gauges read in each state. The GPU's is -1 until the pod is hot.
pub record GaugesFit (capacity_rps : ℤ) (m : Machine) (g : Metrics) : Type 0 where
  pub when_hot :
      m.state ≡ hot
      → (g.pod_hot ≡ 1) × (g.pod_capacity_rps ≡ capacity_rps) × (g.pod_gpu_id ≡ m.gpu_id)
  pub when_warm :
      m.state ≡ warm → (g.pod_hot ≡ 0) × (g.pod_capacity_rps ≡ pos 0) × (g.pod_gpu_id ≡ negsuc 0)
  pub when_activating :
      m.state ≡ activating
      → (g.pod_hot ≡ 0) × (g.pod_capacity_rps ≡ pos 0) × (g.pod_gpu_id ≡ negsuc 0)
  pub when_releasing :
      m.state ≡ releasing
      → (g.pod_hot ≡ 0) × (g.pod_capacity_rps ≡ pos 0) × (g.pod_gpu_id ≡ m.gpu_id)

module _ (capacity_rps : ℤ) (m : Machine) (g : Metrics) (fit : GaugesFit capacity_rps m g) where
  activate-GaugesFit :
      (req : ActivateRequest) (own_node : String) (now : ℕ)
      → GaugesFit capacity_rps
          (activate m req own_node now).machine
          (on_transition (activate m req own_node now).event capacity_rps g)
  unfolding activate activate_in begin_warmup on_transition apply_event
  activate-GaugesFit req own_node now = ground arith

  release-GaugesFit :
      GaugesFit capacity_rps (release m).machine (on_transition (release m).event capacity_rps g)
  unfolding release release_in begin_teardown back_to_warm on_transition apply_event
  release-GaugesFit = ground arith

  fire-GaugesFit :
      (o : Option Timer) (now : ℕ)
      → GaugesFit capacity_rps
          (fire o m now).machine
          (on_transition (fire o m now).event capacity_rps g)
  unfolding fire complete_warmup complete_teardown on_transition apply_event
  fire-GaugesFit o now = ground arith

-- The server's own reading of the fit.
abbrev pub ServerFits : Server → Type 0
ServerFits s = GaugesFit s.cfg.pod_capacity_rps s.pod.machine s.metrics

serve-ServerFits : (s : Server) (i : Input) → ServerFits s → ServerFits (serve s i)
unfolding serve step outcome
serve-ServerFits s (activates req now) fit =
    activate-GaugesFit s.cfg.pod_capacity_rps s.pod.machine s.metrics fit req s.cfg.node_name now
serve-ServerFits s releases fit =
    release-GaugesFit s.cfg.pod_capacity_rps s.pod.machine s.metrics fit
serve-ServerFits s (fires k now) fit =
    fire-GaugesFit s.cfg.pod_capacity_rps s.pod.machine s.metrics fit (timer_at k s.pod.timers) now

serve_all-ServerFits : (s : Server) (is : List Input) → ServerFits s → ServerFits (serve_all s is)
unfolding serve_all
serve_all-ServerFits s [] fit = fit
serve_all-ServerFits s (i ∷ is) fit = serve_all-ServerFits (serve s i) is (serve-ServerFits s i fit)

new_server-ServerFits : (cfg : Config) → ServerFits (new_server cfg)
unfolding new_server
new_server-ServerFits cfg = ground arith

-- From a new server, after any requests and timers whose hooks run in the order of the transitions:
-- the hot and capacity gauges read 1 and the capacity exactly while the pod is hot, and the GPU gauge
-- reads the lease's GPU while it is hot or releasing, and -1 while it is warm or activating.
pub serve_all-GaugesFit :
    (cfg : Config) (is : List Input)
    → GaugesFit
        (serve_all (new_server cfg) is).cfg.pod_capacity_rps
        (serve_all (new_server cfg) is).pod.machine
        (serve_all (new_server cfg) is).metrics
serve_all-GaugesFit cfg is = serve_all-ServerFits (new_server cfg) is (new_server-ServerFits cfg)
