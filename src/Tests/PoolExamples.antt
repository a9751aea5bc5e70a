-- ===== src/Tests/PoolExamples.antt =====
-- The theorems on the warm pool at work.
use gpu_lease.Common.{
  refl, ◌*◌, ◌≡◌, true, false, none, some, [], ◌∷◌, ℤ, pos, ◌-ℤ◌, ◌≤ℤ◌, ◌<ℤ◌, empty, put,
  if◌then◌else◌,
}
use gpu_lease.Names.{second}
use gpu_lease.Names.Settings.{DeploymentSettings}
use gpu_lease.Objects.{GpuLease, LeasePhase, Pod, Deployment, Selector, new_meta}
use gpu_lease.Exec.{ok, Call, event}
use gpu_lease.Exec.Emits.{Emits}
use gpu_lease.LeaseController.{requeue_after}
use gpu_lease.WarmPool.{Config, promote, event_reason_failed_lease_reclaimed}
use gpu_lease.WarmPool.Orphans.{reclaim_at, effective_failed_lease_retention}
use gpu_lease.WarmPool.Reconcile.{
  Request, reconcile, decide, next_reconcile, effective_resync_period,
  blocked_promotion_requeue_after,
}
use gpu_lease.WarmPool.Decision.{
  NoDeletion, NoCreation, Derives, ClaimsFor, decide_one_way, promote-ClaimsFor, reconcile-Derives,
}
use gpu_lease.WarmPool.Decision.Bound.Rules.{Promotes}
use gpu_lease.WarmPool.Decision.Bound.{promote-Promotes}
use gpu_lease.WarmPool.Durations.{succeeded, next_reconcile_bounds, reclaim_at_retention}
use gpu_lease.Tests.Fixtures.{test_world, test_state, test_api, test_machinery, lease_on, pod_named}

abbrev config : Config
config = record { resync_period = pos 0; failed_lease_retention = pos (60 * second) }

abbrev every_pod : Selector
every_pod = record { matches = λ labels. true; is_empty = false }

abbrev deployment : Deployment
deployment = record { metadata = new_meta "ns" "dep" []; selector = some (some every_pod) }

abbrev settings : DeploymentSettings
settings = record {
  warm_replicas = pos 1;
  min_hot_replicas = pos 1;
  local_queue_name = "dep-lq";
  pod_capacity_rps = pos 10;
  activation_timeout = pos (30 * second);
  admission_timeout = pos (60 * second);
}

abbrev pod : Pod
pod = pod_named "pod-0" "node-a" 1

abbrev failed_lease : GpuLease
failed_lease = lease_on "node-a" (pos 0) LeasePhase.failed none

abbrev request : Request
request = record { namespace = "ns"; name = "dep" }

decide_one_way_example :
    (pos 0 ≤ℤ pos 1
      → Emits NoDeletion
          (decide test_api test_machinery config deployment settings (pod ∷ []) 0 (pos 1)))
    × (pos 1 ≤ℤ pos 0
        → Emits NoCreation
            (decide test_api test_machinery config deployment settings (pod ∷ []) 0 (pos 1)))
decide_one_way_example =
    decide_one_way test_api test_machinery config deployment settings (pod ∷ []) 0 (pos 1)

promote-ClaimsFor_example :
    Emits
      (ClaimsFor deployment (pod ∷ []))
      (promote test_api deployment settings (pod ∷ []) 1 (put empty "node-a" 1))
promote-ClaimsFor_example =
    promote-ClaimsFor test_api test_machinery config deployment settings (pod ∷ []) 1
      (put empty "node-a" 1)

reconcile-Derives_example : Emits Derives (reconcile test_api test_machinery config request)
reconcile-Derives_example = reconcile-Derives test_api test_machinery config request

promote-Promotes_example :
    Promotes 1 0 (promote test_api deployment settings (pod ∷ []) 1 (put empty "node-a" 1))
promote-Promotes_example =
    promote-Promotes test_api deployment settings 1 (pod ∷ []) (put empty "node-a" 1)

next_reconcile_bounds_example :
    (d : ℤ) × (next_reconcile test_api test_machinery config true (pos 7) ≡ requeue_after d)
    × (pos 0 <ℤ d)
    × (d ≤ℤ (if true then blocked_promotion_requeue_after else effective_resync_period config))
    × (pos 0 <ℤ pos 7 → d ≤ℤ pos 7)
next_reconcile_bounds_example = next_reconcile_bounds test_api test_machinery config true (pos 7)

abbrev age : ℤ
age = pos (90 * second)

abbrev stripped : GpuLease
stripped = record failed_lease { metadata = record (failed_lease.metadata) { finalizers = [] } }

reclaim_at_retention_example :
    (age <ℤ effective_failed_lease_retention config
      → (wait : ℤ) × (reclaim_at test_api test_machinery config failed_lease age test_state
          ≡ (ok (false, wait), test_state))
        × (pos 0 <ℤ wait)
        × (wait ≡ effective_failed_lease_retention config -ℤ age))
    × (effective_failed_lease_retention config ≤ℤ age
        → reclaim_at test_api test_machinery config failed_lease age test_state ≡ (
          ok (true, pos 0),
          record test_state {
            trace =
                succeeded (event event_reason_failed_lease_reclaimed)
                ∷ succeeded (Call.delete_lease stripped)
                ∷ succeeded (Call.update_lease stripped)
                ∷ test_state.trace;
          },
        ))
reclaim_at_retention_example =
    reclaim_at_retention test_api test_machinery config failed_lease age test_state stripped
      test_world test_world test_world refl refl refl
