-- ===== src/LeaseController/Admission.antt =====
-- The admission of a lease in gpulease_controller.go: its Workload, and the wait for Kueue.
use gpu_lease.Common.{
  ℕ, String, Bool, true, false, Option, none, some, str_eq, pos, ◌-ℤ◌, leb_ℤ, get_or, if◌then◌else◌,
}
use gpu_lease.Names.Settings.{DeploymentSettings}
use gpu_lease.Objects.{
  GpuLease, admitted, Workload, Message, inadmissible, not_admitted_within, admitted_with,
  admitted_unexpected, condition_quota_reserved, status_true, reason_queue_misconfigured,
  reason_quota_exhausted_on_node,
}
use gpu_lease.Exec.{
  Exec, not_found, already_exists, Result, ok, err, Call, event, pure, raise, read, perform, try,
  note, ◌>>=◌, ◌>>◌,
}
use gpu_lease.Client.{Api, Machinery}
use gpu_lease.Kueue.{
  build_workload, workload_matches_spec, is_workload_admitted, workload_inadmissible,
  quota_reserved_message, admission_anchor, assigned_flavor, expected_flavor_for_node,
}
use gpu_lease.LeaseController.{
  event_reason_quota_reserved, event_reason_flavor_mismatch, Requeue, requeue, requeue_after,
  poll_interval, next_poll, with_phase, clock, set_lease_condition, update_status,
  tolerate_not_found, deployment_settings,
}
use gpu_lease.LeaseController.Release.{transition_to_failed}

-- A creation whose AlreadyExists counts as success.
unfoldable pub tolerate_already_exists : Result (Unit {0}) → Result (Unit {0})
tolerate_already_exists (err already_exists) = ok tt
tolerate_already_exists r = r

-- The message of admitLease, after the cross-check of the flavor, which is diagnostic only.
unfoldable pub admitted_message : String → String → Result String → Message
admitted_message flavor node (err e) = admitted_with flavor
admitted_message flavor node (ok expected) =
    if str_eq expected flavor
    then admitted_with flavor
    else admitted_unexpected flavor expected node

unfoldable pub is_unexpected : Message → Bool
is_unexpected (admitted_unexpected flavor expected node) = true
is_unexpected m = false

module _ {W : Type 0} (api : Api W) (k : Machinery) where
  unfoldable pub record_workload_name : GpuLease → String → Exec W (Unit {0})
  record_workload_name lease name = if str_eq lease.status.workload_name name then pure tt else do
    update_status api k (record lease { status = record (lease.status) { workload_name = name } })
    pure tt

  -- createWorkload, by what SetControllerReference makes of the Workload.
  unfoldable pub create_owned : GpuLease → Result Workload → Exec W Requeue
  create_owned lease (err e) = raise e
  create_owned lease (ok want) = do
    perform (Call.create_workload want.metadata.namespace want.metadata.name)
        (λ w. let (r, w') = api.create_workload want w in (tolerate_already_exists r, w'))
    record_workload_name lease want.metadata.name
    pure (requeue_after poll_interval)

  -- createWorkload
  unfoldable pub create_workload : GpuLease → Workload → Exec W Requeue
  create_workload lease want = create_owned lease (k.set_controller_reference lease want)

  unfoldable pub note_mismatch : Message → Exec W (Unit {0})
  note_mismatch m = if is_unexpected m then note (event event_reason_flavor_mismatch) else pure tt

  -- admitLease
  unfoldable pub admit_lease : GpuLease → Workload → Exec W Requeue
  admit_lease lease wl = do
    expected ← try (expected_flavor_for_node api lease.spec.node_name)
    let message = admitted_message (get_or (assigned_flavor wl) "") lease.spec.node_name expected
    note_mismatch message
    now ← clock api k
    let lease' = with_phase lease admitted message
    lease'' ←
        set_lease_condition api k
          (record lease' { status = record (lease'.status) { admitted_at = some now } })
          condition_quota_reserved status_true "Admitted" message
    update_status api k lease''
    note (event event_reason_quota_reserved)
    pure requeue

  -- The wait of evaluateAdmission: the timeout, or the next poll.
  unfoldable pub await_admission : GpuLease → Workload → DeploymentSettings → ℕ → Exec W Requeue
  await_admission lease wl settings now =
      let elapsed = pos now -ℤ pos (admission_anchor k wl) in
      if leb_ℤ settings.admission_timeout elapsed
      then transition_to_failed api k lease reason_quota_exhausted_on_node (
          not_admitted_within wl.metadata.name settings.admission_timeout
            (quota_reserved_message k wl))
      else pure (requeue_after (next_poll (settings.admission_timeout -ℤ elapsed)))

  -- evaluateAdmission of a workload that is not admitted, by Kueue's message if it is inadmissible.
  unfoldable pub evaluate_waiting : GpuLease → Workload → Option Message → Exec W Requeue
  evaluate_waiting lease wl (some kueue_msg) =
      transition_to_failed api k lease reason_queue_misconfigured
        (inadmissible wl.metadata.name wl.spec.queue_name kueue_msg)
  evaluate_waiting lease wl none = do
    settings ← deployment_settings api k lease
    now ← clock api k
    await_admission lease wl settings now

  -- evaluateAdmission
  unfoldable pub evaluate_admission : GpuLease → Workload → Exec W Requeue
  evaluate_admission lease wl =
      if is_workload_admitted k wl
      then admit_lease lease wl
      else evaluate_waiting lease wl (workload_inadmissible k wl)

  -- A Workload of another shape is deleted, to be made again.
  unfoldable pub replace_workload : Workload → Exec W Requeue
  replace_workload existing = do
    perform (Call.delete_workload existing.metadata.namespace existing.metadata.name) (λ w.
        let (r, w') = api.delete_workload existing.metadata.namespace existing.metadata.name w in
        (tolerate_not_found r, w'))
    pure requeue

  unfoldable pub pending_with : GpuLease → Workload → Result Workload → Exec W Requeue
  pending_with lease want (err not_found) = create_workload lease want
  pending_with lease want (err e) = raise e
  pending_with lease want (ok existing) =
      if workload_matches_spec k existing want
      then evaluate_admission lease existing
      else replace_workload existing

  -- reconcilePending
  unfoldable pub reconcile_pending : GpuLease → Exec W Requeue
  reconcile_pending lease = do
    let want = build_workload lease
    existing ← try (read (api.get_workload want.metadata.namespace want.metadata.name))
    pending_with lease want existing
