-- ===== src/LeaseController.antt =====
-- internal/controller/gpulease_controller.go: the state machine of a lease. `Status().Update` and
-- `Update` write the server's answer into the object, which the code goes on with.
pub mod Release
pub mod Admission
pub mod Phases
pub mod Reconcile
pub mod Setup
use gpu_lease.Common.{
  ℕ, ◌*◌, String, Bool, true, false, Option, none, some, List, [], ◌∷◌, str_eq, not, ℤ, pos, ◌-ℤ◌,
  leb_ℤ, ltb_ℤ, put, remove, get_or, if◌then◌else◌,
}
use gpu_lease.Decimal.{format_int}
use gpu_lease.Names.{
  second, finalizer, state_label_key, state_hot, state_warm, annotation_lease, annotation_gpu_id,
  annotation_gpu_model, annotation_pod_deletion_cost, pod_deletion_cost_hot, pod_deletion_cost_warm,
}
use gpu_lease.Names.Settings.{DeploymentSettings, parse_deployment_settings}
use gpu_lease.Objects.{
  GpuLease, LeaseStatus, LeasePhase, Pod, Meta, Workload, Message, Condition, Deployment,
  condition_pod_activated, condition_ready, condition_quota_reserved, status_true, status_false,
}
use gpu_lease.Exec.{
  Exec, Error, not_found, Result, ok, err, Call, pure, raise, read, perform, try, note, ◌>>=◌, ◌>>◌,
}
use gpu_lease.Client.{Api, Machinery}
use gpu_lease.Kueue.{workload_name}

-- ctrl.Result
pub data Requeue : Type 0 where
  done : Requeue
  requeue : Requeue
  requeue_after : ℤ → Requeue

abbrev pub poll_interval : ℤ
poll_interval = pos (2 * second)

abbrev pub bound_poll_interval : ℤ
bound_poll_interval = pos (15 * second)

abbrev pub event_reason_quota_reserved : String
event_reason_quota_reserved = "QuotaReserved"

abbrev pub event_reason_activating : String
event_reason_activating = "Activating"

abbrev pub event_reason_bound : String
event_reason_bound = "Bound"

abbrev pub event_reason_released : String
event_reason_released = "LeaseReleased"

abbrev pub event_reason_flavor_mismatch : String
event_reason_flavor_mismatch = "FlavorMismatch"

-- nextPoll
unfoldable pub next_poll : ℤ → ℤ
next_poll remaining = if ltb_ℤ remaining poll_interval then remaining else poll_interval

-- The pod that markPodHot sends.
unfoldable pub hot_pod : Pod → GpuLease → Pod
hot_pod pod lease = record pod {
  metadata = record (pod.metadata) {
    labels = put pod.metadata.labels state_label_key state_hot;
    annotations =
        put
          (put
            (put (put pod.metadata.annotations annotation_lease lease.metadata.name)
              annotation_gpu_id (format_int lease.spec.gpu_id))
            annotation_gpu_model lease.spec.gpu_model)
          annotation_pod_deletion_cost pod_deletion_cost_hot;
  };
}

-- The pod that revertPodToWarm sends.
unfoldable pub warm_pod : Pod → Pod
warm_pod pod = record pod {
  metadata = record (pod.metadata) {
    labels = put pod.metadata.labels state_label_key state_warm;
    annotations =
        put
          (remove (remove (remove pod.metadata.annotations annotation_lease) annotation_gpu_id)
            annotation_gpu_model)
          annotation_pod_deletion_cost pod_deletion_cost_warm;
  };
}

-- A lease with a new phase and message in its status.
unfoldable pub with_phase : GpuLease → LeasePhase → Message → GpuLease
with_phase lease phase message = record lease {
  status = record (lease.status) { phase = phase; message = message };
}

-- A result whose NotFound counts as success.
unfoldable pub tolerate_not_found : Result (Unit {0}) → Result (Unit {0})
tolerate_not_found (err not_found) = ok tt
tolerate_not_found r = r

-- A get whose NotFound is a nil pointer.
unfoldable pub absent_as_none : Result Pod → Result (Option Pod)
absent_as_none (ok pod) = ok (some pod)
absent_as_none (err not_found) = ok none
absent_as_none (err e) = err e

module _ {W : Type 0} (api : Api W) (k : Machinery) where
  -- r.now(), and the clock that SetStatusCondition reads
  unfoldable pub clock : Exec W ℕ
  clock = read (λ w. let (t, w') = api.now w in (ok t, w'))

  -- setLeaseCondition, with the time at which SetStatusCondition runs
  unfoldable pub set_condition : GpuLease → String → String → String → Message → ℕ → GpuLease
  set_condition lease type status reason message now = record lease {
    status = record (lease.status) {
      conditions =
          k.set_status_condition lease.status.conditions
            (record {
              type = type;
              status = status;
              observed_generation = lease.metadata.generation;
              last_transition_time = 0;
              reason = reason;
              message = message;
            })
            now;
    };
  }

  unfoldable pub set_lease_condition :
      GpuLease → String → String → String → Message → Exec W GpuLease
  unfolding clock
  set_lease_condition lease type status reason message = do
    now ← clock
    pure (set_condition lease type status reason message now)

  -- r.Status().Update
  unfoldable pub update_status : GpuLease → Exec W GpuLease
  update_status lease = perform (Call.update_status lease) (api.update_lease_status lease)

  -- podActivatedAnchor
  unfoldable pub pod_activated_anchor : GpuLease → ℕ
  pod_activated_anchor lease =
      elim (k.find_status_condition lease.status.conditions condition_pod_activated) [
        | none ↦ lease.metadata.creation_timestamp
        | some c ↦ c.last_transition_time
      ]

  -- getClaimPod
  unfoldable pub get_claim_pod : GpuLease → Exec W (Option Pod)
  get_claim_pod lease = read (λ w.
      let (r, w') = api.get_pod lease.spec.claim_ref.namespace lease.spec.claim_ref.name w in
      (absent_as_none r, w'))

  -- deleteWorkload
  unfoldable pub delete_workload : GpuLease → Exec W (Unit {0})
  delete_workload lease =
      perform (Call.delete_workload lease.spec.claim_ref.namespace (workload_name lease)) (λ w.
        let (r, w') = api.delete_workload lease.spec.claim_ref.namespace (workload_name lease) w in
        (tolerate_not_found r, w'))

  -- markPodHot
  unfoldable pub mark_pod_hot : Pod → GpuLease → Exec W Pod
  mark_pod_hot pod lease =
      perform (Call.patch_pod (hot_pod pod lease)) (api.patch_pod pod (hot_pod pod lease))

  -- revertPodToWarm
  unfoldable pub revert_pod_to_warm : Pod → Exec W Pod
  revert_pod_to_warm pod =
      perform (Call.patch_pod (warm_pod pod)) (api.patch_pod pod (warm_pod pod))

  settings_from : Result Deployment → GpuLease → DeploymentSettings
  settings_from (err e) lease =
      parse_deployment_settings k.parse_duration (λ key. none) lease.spec.deployment_ref.name
  settings_from (ok dep) lease =
      parse_deployment_settings k.parse_duration dep.metadata.annotations dep.metadata.name

  -- deploymentSettings
  unfoldable pub deployment_settings : GpuLease → Exec W DeploymentSettings
  unfolding settings_from
  deployment_settings lease = read (λ w.
      let (r, w') =
        api.get_deployment lease.spec.deployment_ref.namespace lease.spec.deployment_ref.name w in
      (ok (settings_from r lease), w'))
