-- ===== src/Tests/PodExamples.antt =====
-- The pod's theorems at work: a request, its warmup, and a server that refuses a second lease.
use gpu_lease.Demand.{
  Watcher, Delivery, added, updated, deleted, new_demand_watcher, apply_all, demand_gauge,
}
use gpu_lease.Demand.Fallback.{last_number, config_maps, apply_all_last}
use gpu_lease.Common.{
  ◌==◌, String, Option, put, empty, str_eq, if◌then◌else◌, length, ◌+◌, ℕ, ◌≡◌, refl, ◌⊎◌, inl,
  none, some, List, [], ◌∷◌, pos, arith,
}
use gpu_lease.PodClient.{ActivateRequest, PodError, http_activate}
use gpu_lease.Machine.{activate, activating}
use gpu_lease.Machine.System.{System, Input, activates, releases, fires, step, run, start, outcome}
use gpu_lease.Machine.System.Invariant.{run-start-Inv}
use gpu_lease.Machine.System.Invariant.Requests.{Inv}
use gpu_lease.Machine.System.Refinement.{Refines, view, spec_elapse, step-Refines}
use gpu_lease.Machine.System.Settles.{Drains, firings, IsSettled, run-start-IsSettled}
use gpu_lease.Machine.System.Progress.{fires-completes}
use gpu_lease.PodServer.{Config, Server, new_server, serve_all, handle_activate}
use gpu_lease.PodServer.Gauges.{GaugesFit, serve_all-GaugesFit}
use gpu_lease.PodServer.Wire.{
  Committed, seen_by_client, http_activate-handle_activate, http_activate-Committed,
}

abbrev request : ActivateRequest
request = record { lease_name = "l"; node = "node-a"; gpu_id = pos 1; gpu_model = "H100" }

abbrev other_request : ActivateRequest
other_request = record { lease_name = "m"; node = "node-a"; gpu_id = pos 0; gpu_model = "H100" }

-- A lease is taken, warms up, and is given back.
abbrev a_life : List Input
a_life = activates request 5 ∷ fires 0 15 ∷ releases ∷ fires 0 20 ∷ []

abbrev a_warmup : List Input
a_warmup = activates request 5 ∷ []

abbrev config : Config
config = record {
  node_name = "node-a";
  pod_name = "pod-0";
  pod_namespace = "ns";
  deployment_name = "dep";
  demand_config_map_name = "gpu-lease-demand";
  pod_capacity_rps = pos 10;
  warmup_duration = pos 0;
  teardown_duration = pos 0;
}

abbrev warming_system : System
warming_system = run "node-a" (start (pos 0) (pos 0)) a_warmup

run-start-Inv_example : Inv "node-a" (run "node-a" (start (pos 0) (pos 0)) a_life)
run-start-Inv_example = run-start-Inv "node-a" (pos 0) (pos 0) a_life (omega arith)

warming_system-Inv : Inv "node-a" warming_system
warming_system-Inv = run-start-Inv "node-a" (pos 0) (pos 0) a_warmup (omega arith)

step-Refines_example :
    Refines "node-a"
      (view warming_system.machine)
      (fires 0 15)
      (view (step "node-a" warming_system (fires 0 15)).machine)
step-Refines_example = step-Refines "node-a" warming_system (fires 0 15)

warming_system-activating : warming_system.machine.state ≡ activating
unfolding run step outcome start activate
warming_system-activating = refl

one_timer : Drains ((0, 15) ∷ []) (length warming_system.timers)
unfolding run step outcome start activate
one_timer = (omega arith, refl)

run-start-IsSettled_example : IsSettled (run "node-a" warming_system (firings ((0, 15) ∷ [])))
run-start-IsSettled_example =
    run-start-IsSettled "node-a" (pos 0) (pos 0) a_warmup ((0, 15) ∷ []) (omega arith) one_timer

fires-completes_example :
    (k : ℕ) × ((now : ℕ)
      → view (step "node-a" warming_system (fires k now)).machine
        ≡ spec_elapse (view warming_system.machine))
fires-completes_example =
    fires-completes "node-a" warming_system warming_system-Inv (inl warming_system-activating)

serve_all-GaugesFit_example :
    GaugesFit
      (serve_all (new_server config) a_life).cfg.pod_capacity_rps
      (serve_all (new_server config) a_life).pod.machine
      (serve_all (new_server config) a_life).metrics
serve_all-GaugesFit_example = serve_all-GaugesFit config a_life

abbrev serving : Server
serving = serve_all (new_server config) a_warmup

http_activate-handle_activate_example :
    http_activate (some (handle_activate serving (some other_request) 7).1)
    ≡ seen_by_client (outcome serving.cfg.node_name serving.pod (activates other_request 7)).error
http_activate-handle_activate_example = http_activate-handle_activate serving other_request 7

accepted : http_activate (some (handle_activate (new_server config) (some request) 5).1) ≡ none
unfolding http_activate handle_activate new_server outcome activate
accepted = refl

-- A request for another lease, while the pod serves one.
http_activate-Committed_example :
    ((http_activate (some (handle_activate serving (some other_request) 7).1) ≡ none)
      × ((req : ActivateRequest) × (some other_request ≡ some req)
          × (req.node ≡ serving.cfg.node_name)
          × Committed (handle_activate serving (some other_request) 7).0.pod.machine req))
    ⊎ ((x : PodError) × (http_activate (some (handle_activate serving (some other_request) 7).1)
          ≡ some x)
        × ((handle_activate serving (some other_request) 7).0.pod.machine ≡ serving.pod.machine))
http_activate-Committed_example = http_activate-Committed serving (some other_request) 7

-- A text that is a number only if it is "7".
abbrev parse_seven : String → Option ℕ
parse_seven s = if str_eq s "7" then some 7 else none

abbrev watcher : Watcher ℕ
watcher = new_demand_watcher 0 "ns" "" "dep"

abbrev deliveries : List Delivery
deliveries = added (put empty "dep" "7") ∷ updated (put empty "dep" "many") ∷ deleted ∷ []

apply_all_last_example :
    ((apply_all parse_seven watcher deliveries).value
      ≡ last_number parse_seven watcher.deployment watcher.value deliveries)
    × (length (apply_all parse_seven watcher deliveries).published
        ≡ config_maps deliveries + length watcher.published)
    × (demand_gauge 0 (apply_all parse_seven watcher deliveries).published ≡ (
        if config_maps deliveries == 0
        then demand_gauge 0 watcher.published
        else (apply_all parse_seven watcher deliveries).value))
apply_all_last_example = apply_all_last parse_seven 0 deliveries watcher
