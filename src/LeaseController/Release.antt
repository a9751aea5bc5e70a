-- ===== src/LeaseController/Release.antt =====
-- The exits of gpulease_controller.go: transitionToFailed, reconcileDeletion and what they share.
use gpu_lease.Common.{
  String, Bool, true, false, Option, none, some, str_eq, not, ◌&&◌, if◌then◌else◌,
}
use gpu_lease.Names.{finalizer}
use gpu_lease.Objects.{
  GpuLease, LeasePhase, unset, pending, admitted, activating, bound, failed, releasing, unknown,
  Pod, Message, condition_ready, status_false,
}
use gpu_lease.PodClient.{PodError}
use gpu_lease.Exec.{
  Exec, other, Result, ok, err, Call, delete_pod_lease, count_failure, event, pure, perform, try,
  note, ◌>>=◌, ◌>>◌,
}
use gpu_lease.Client.{Api, Machinery}
use gpu_lease.LeaseController.{
  event_reason_released, Requeue, done, with_phase, set_lease_condition, update_status,
  delete_workload, get_claim_pod, revert_pod_to_warm,
}

-- An error of podclient's as an error of a call.
unfoldable pub pod_result : Option PodError → Result (Unit {0})
pod_result none = ok tt
pod_result (some e) = err other

unfoldable pub is_releasing : LeasePhase → Bool
is_releasing releasing = true
is_releasing unset = false
is_releasing pending = false
is_releasing admitted = false
is_releasing activating = false
is_releasing bound = false
is_releasing failed = false
is_releasing (unknown s) = false

-- claimRef.uid != "" && pod.UID != claimRef.uid
unfoldable pub other_pod : GpuLease → Pod → Bool
other_pod lease pod =
    not (str_eq lease.spec.claim_ref.uid "")
    && not (str_eq pod.metadata.uid lease.spec.claim_ref.uid)

module _ {W : Type 0} (api : Api W) (k : Machinery) where
  -- r.PodClient.Release
  unfoldable pub call_release : Pod → Exec W (Unit {0})
  call_release pod =
      perform (delete_pod_lease pod.pod_ip)
        (λ w. let (r, w') = api.pod_release pod.pod_ip w in (pod_result r, w'))

  -- `if pod.Status.PodIP != ""`, and its error is only logged.
  unfoldable pub release_pod : Pod → Exec W (Unit {0})
  release_pod pod = if str_eq pod.pod_ip "" then pure tt else (do try (call_release pod); pure tt)

  -- releaseClaimPod for what getClaimPod returned.
  unfoldable pub release_found : GpuLease → Result (Option Pod) → Exec W (Unit {0})
  release_found lease (err e) = pure tt
  release_found lease (ok none) = pure tt
  release_found lease (ok (some pod)) =
      if other_pod lease pod
      then pure tt
      else do release_pod pod; try (revert_pod_to_warm api k pod); pure tt

  -- releaseClaimPod
  unfoldable pub release_claim_pod : GpuLease → Exec W (Unit {0})
  release_claim_pod lease = do found ← try (get_claim_pod api k lease); release_found lease found

  -- transitionToFailed
  unfoldable pub transition_to_failed : GpuLease → String → Message → Exec W Requeue
  transition_to_failed lease reason message = do
    delete_workload api k lease
    release_claim_pod lease
    lease' ←
        set_lease_condition api k (with_phase lease failed message) condition_ready status_false
          reason message
    update_status api k lease'
    note (count_failure lease.spec.deployment_ref.name reason)
    note (event reason)
    pure done

  -- The phase Releasing, if the lease is not in it.
  unfoldable pub to_releasing : GpuLease → Exec W GpuLease
  to_releasing lease =
      if is_releasing lease.status.phase
      then pure lease
      else update_status api k (with_phase lease releasing lease.status.message)

  unfoldable pub without_finalizer : GpuLease → GpuLease
  without_finalizer lease = record lease { metadata = k.remove_finalizer lease.metadata finalizer }

  -- r.Update
  unfoldable pub update_lease : GpuLease → Exec W GpuLease
  update_lease lease = perform (Call.update_lease lease) (api.update_lease lease)

  -- reconcileDeletion, for a lease that has the finalizer
  unfoldable pub tear_down : GpuLease → Exec W Requeue
  tear_down lease = do
    lease' ← to_releasing lease
    delete_workload api k lease'
    release_claim_pod lease'
    update_lease (without_finalizer lease')
    note (event event_reason_released)
    pure done

  -- reconcileDeletion
  unfoldable pub reconcile_deletion : GpuLease → Exec W Requeue
  reconcile_deletion lease =
      if k.contains_finalizer lease.metadata finalizer then tear_down lease else pure done
