-- ===== src/Tests/StartupExamples.antt =====
-- A pod's environment, and a gauge that is out of date.
use gpu_lease.Common.{
  ℕ, ◌≡◌, ◌≢◌, refl, ◌⊎◌, String, Bool, false, Option, none, some, [], ◌∷◌, pos, empty, put, str_eq,
  ◌==◌, if◌then◌else◌, filter,
}
use gpu_lease.PodClient.{ActivateRequest}
use gpu_lease.PodServer.{Config}
use gpu_lease.PodConfig.{
  context_done, main_status, node_name_required, pod_namespace_required, invalid, loaded,
  load_config,
}
use gpu_lease.PodConfig.Startup.{Serves, load_config-Answers}
use gpu_lease.Exec.{State, set_node_gauge}
use gpu_lease.LeaseController.Reconcile.{leases_active, refresh_metrics}
use gpu_lease.LeaseController.Reconcile.Gauges.{gauge, leases_on, refresh_metrics-leases_active}
use gpu_lease.Tests.Fixtures.{World, test_world, test_api, test_machinery}

abbrev request : ActivateRequest
request = record { lease_name = "l"; node = "node-a"; gpu_id = pos 0; gpu_model = "H100" }

abbrev env : String → String
env key =
    if str_eq key "NODE_NAME" then "node-a" else if str_eq key "POD_NAMESPACE" then "ns" else ""

abbrev no_float : String → Option ℕ
no_float s = none

abbrev never : ℕ → Bool
never v = false

load_config-Answers_example :
    (env "NODE_NAME" ≡ ""
      × (load_config no_float never pos env ≡ invalid node_name_required)
      × (main_status no_float never pos env (context_done false) ≡ 1))
    ⊎ (((env "NODE_NAME" ≢ "")
          × (env "POD_NAMESPACE" ≡ "")
          × (load_config no_float never pos env ≡ invalid pod_namespace_required)
          × (main_status no_float never pos env (context_done false) ≡ 1))
        ⊎ ((env "NODE_NAME" ≢ "")
            × (env "POD_NAMESPACE" ≢ "")
            × ((cfg : Config) × (load_config no_float never pos env ≡ loaded cfg)
                × Serves env cfg request 5)))
load_config-Answers_example =
    load_config-Answers no_float never pos env request 5 (context_done false)

-- The node node-b had three leases once.
abbrev later : State World
later = record {
  world = test_world;
  trace = record { call = set_node_gauge leases_active (put empty "node-b" 3); error = none } ∷ [];
}

refresh_metrics-leases_active_example :
    gauge leases_active (refresh_metrics test_api test_machinery later).1.trace "node-b" ≡ (
      if leases_on "node-b" test_world.leases == 0
      then gauge leases_active later.trace "node-b"
      else some (leases_on "node-b" test_world.leases))
refresh_metrics-leases_active_example =
    refresh_metrics-leases_active test_api test_machinery "node-b" later test_world.leases refl

-- It still shows them, though there is none.
stale_gauge : gauge leases_active later.trace "node-b" ≡ some 3
unfolding gauge
stale_gauge = refl

none_left : leases_on "node-b" test_world.leases ≡ 0
unfolding leases_on filter
none_left = refl
