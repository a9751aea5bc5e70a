-- ===== src/Tests/LeaseExamples.antt =====
-- The theorems on the reconciliation of a lease at work.
use gpu_lease.Common.{◌≡◌, refl, sym, ap, none, some, String, pos, ◌-ℤ◌, ◌*◌}
use gpu_lease.Names.{second}
use gpu_lease.Names.Settings.{DeploymentSettings}
use gpu_lease.Kueue.{build_workload, workload_name, admission_anchor, quota_reserved_message}
use gpu_lease.Objects.{
  GpuLease, LeasePhase, reason_node_mismatch, Workload, not_admitted_within, not_hot_within,
  reason_quota_exhausted_on_node, reason_activation_timeout, text,
}
use gpu_lease.Exec.{Call, ok}
use gpu_lease.Exec.Keeps.{ok-inj}
use gpu_lease.Exec.Emits.{Emits}
use gpu_lease.Exec.Makes.{Makes}
use gpu_lease.Exec.Succeeds.{Succeeds, Answers}
use gpu_lease.LeaseController.{pod_activated_anchor, tolerate_not_found}
use gpu_lease.LeaseController.Release.{reconcile_deletion, transition_to_failed}
use gpu_lease.LeaseController.Admission.{await_admission}
use gpu_lease.LeaseController.Phases.{await_hot}
use gpu_lease.LeaseController.Reconcile.{reconcile_lease}
use gpu_lease.LeaseController.Reconcile.Edges.{
  Writes, reconcile_lease-Follows, reconcile_lease-Releases,
}
use gpu_lease.LeaseController.Reconcile.Edge.{Moves, Releases}
use gpu_lease.LeaseController.Reconcile.Cleanup.{
  IsFailedWrite, IsSame, IsUnfinalizing, reconcile_deletion-Succeeds, reconcile_deletion-Frees,
  transition_to_failed-Frees,
}
use gpu_lease.LeaseController.Reconcile.Polling.{Waits, await_admission-Waits, await_hot-Waits}
use gpu_lease.Tests.Fixtures.{World, test_api, test_machinery, lease_on, pod_named}

abbrev live_lease : GpuLease
live_lease = lease_on "node-a" (pos 0) LeasePhase.admitted none

abbrev deleted_lease : GpuLease
deleted_lease = lease_on "node-a" (pos 0) LeasePhase.bound (some 90)

reconcile_lease-Follows_example :
    Emits (Writes (Moves live_lease)) (reconcile_lease test_api test_machinery live_lease)
reconcile_lease-Follows_example = reconcile_lease-Follows test_api test_machinery live_lease refl

reconcile_lease-Releases_example :
    Emits (Writes (Releases deleted_lease)) (reconcile_lease test_api test_machinery deleted_lease)
reconcile_lease-Releases_example =
    reconcile_lease-Releases test_api test_machinery deleted_lease 90 refl

status-Answers : (l : GpuLease) → Answers (test_api.update_lease_status l)
status-Answers l = record { answer = λ w. (l, refl) }

update-Answers : (l : GpuLease) → Answers (test_api.update_lease l)
update-Answers l = record { answer = λ w. (l, refl) }

deletion-Answers :
    (namespace name : String)
    → Answers
        (λ w. let (r, w') = test_api.delete_workload namespace name w in (tolerate_not_found r, w'))
unfolding tolerate_not_found
deletion-Answers namespace name = record { answer = λ w. (tt, refl) }

reconcile_deletion-Succeeds_example :
    Succeeds (reconcile_deletion test_api test_machinery deleted_lease)
reconcile_deletion-Succeeds_example =
    reconcile_deletion-Succeeds test_api test_machinery deleted_lease status-Answers update-Answers
      deletion-Answers

status_returns :
    (l : GpuLease) (w : World) (l' : GpuLease)
    → (test_api.update_lease_status l w).0 ≡ ok l'
    → IsSame l l'
status_returns l w l' h =
    let e = ok-inj l l' h in (ap (λ x. x.metadata.name) (sym e), ap (λ x. x.spec) (sym e))

reconcile_deletion-Frees_example :
    Makes
      (λ c.
        c ≡ Call.delete_workload deleted_lease.spec.claim_ref.namespace deleted_lease.metadata.name)
      (reconcile_deletion test_api test_machinery deleted_lease)
    × Makes
        (IsUnfinalizing test_machinery deleted_lease)
        (reconcile_deletion test_api test_machinery deleted_lease)
reconcile_deletion-Frees_example =
    reconcile_deletion-Frees test_api test_machinery deleted_lease status_returns refl

transition_to_failed-Frees_example :
    Makes
      (λ c. c ≡ Call.delete_workload live_lease.spec.claim_ref.namespace (workload_name live_lease))
      (transition_to_failed test_api test_machinery live_lease reason_node_mismatch
        (text "refused"))
    × Makes IsFailedWrite (
        transition_to_failed test_api test_machinery live_lease reason_node_mismatch
          (text "refused"))
    × Makes
        (λ c. c ≡ Call.count_failure live_lease.spec.deployment_ref.name reason_node_mismatch)
        (transition_to_failed test_api test_machinery live_lease reason_node_mismatch
          (text "refused"))
    × Makes
        (λ c. c ≡ Call.event reason_node_mismatch)
        (transition_to_failed test_api test_machinery live_lease reason_node_mismatch
          (text "refused"))
transition_to_failed-Frees_example =
    transition_to_failed-Frees test_api test_machinery live_lease reason_node_mismatch
      (text "refused")

abbrev settings : DeploymentSettings
settings = record {
  warm_replicas = pos 1;
  min_hot_replicas = pos 0;
  local_queue_name = "dep-lq";
  pod_capacity_rps = pos 10;
  activation_timeout = pos (30 * second);
  admission_timeout = pos (60 * second);
}

abbrev waiting : Workload
waiting = build_workload live_lease

await_admission-Waits_example :
    Waits
      (await_admission test_api test_machinery live_lease waiting settings 7)
      (transition_to_failed test_api test_machinery live_lease reason_quota_exhausted_on_node (
        not_admitted_within waiting.metadata.name settings.admission_timeout
          (quota_reserved_message test_machinery waiting)))
      (pos 7 -ℤ pos (admission_anchor test_machinery waiting))
      settings.admission_timeout
await_admission-Waits_example =
    await_admission-Waits test_api test_machinery live_lease waiting settings 7

await_hot-Waits_example :
    Waits
      (await_hot test_api test_machinery live_lease (pod_named "pod-0" "node-a" 1) settings 7)
      (transition_to_failed test_api test_machinery live_lease reason_activation_timeout
        (not_hot_within "ns" "pod-0" settings.activation_timeout))
      (pos 7 -ℤ pos (pod_activated_anchor test_api test_machinery live_lease))
      settings.activation_timeout
await_hot-Waits_example =
    await_hot-Waits test_api test_machinery live_lease (pod_named "pod-0" "node-a" 1) settings 7
