-- ===== src/LeaseController/Phases.antt =====
-- The phases of gpulease_controller.go from an admitted lease to a bound one.
use gpu_lease.Common.{
  ℕ, String, Bool, false, Option, none, some, str_eq, pos, ◌-ℤ◌, leb_ℤ, if◌then◌else◌,
}
use gpu_lease.Names.{state_hot}
use gpu_lease.Names.Settings.{DeploymentSettings}
use gpu_lease.Objects.{
  GpuLease, activating, bound, Pod, Message, claim_invalid_before_activation,
  claim_invalid_during_activation, claim_invalid_while_bound, no_pod_ip, rejected_node_mismatch,
  post_failed, post_accepted, not_hot_within, reported_hot, condition_pod_activated,
  condition_ready, status_true, status_false, reason_pod_unreachable, reason_node_mismatch,
  reason_activation_timeout,
}
use gpu_lease.PodClient.{ActivateRequest, StateResponse, PodError, node_mismatch, failed}
use gpu_lease.Exec.{Exec, ok, event, post_lease, pure, read, perform, note, ◌>>=◌, ◌>>◌}
use gpu_lease.Client.{Api, Machinery}
use gpu_lease.Pods.{lease_orphan_reason}
use gpu_lease.LeaseController.{
  event_reason_activating, event_reason_bound, Requeue, requeue_after, poll_interval,
  bound_poll_interval, next_poll, with_phase, clock, set_lease_condition, update_status,
  pod_activated_anchor, get_claim_pod, mark_pod_hot, deployment_settings,
}
use gpu_lease.LeaseController.Release.{transition_to_failed}

-- The body that reconcileAdmitted posts.
unfoldable pub activate_request : GpuLease → ActivateRequest
activate_request lease = record {
  lease_name = lease.metadata.name;
  node = lease.spec.node_name;
  gpu_id = lease.spec.gpu_id;
  gpu_model = lease.spec.gpu_model;
}

unfoldable pub reports_hot : Option StateResponse → Bool
reports_hot none = false
reports_hot (some r) = str_eq r.state state_hot

module _ {W : Type 0} (api : Api W) (k : Machinery) where
  -- The activation of reconcileAdmitted, by the error of POST /lease.
  unfoldable pub after_post : GpuLease → Pod → Option PodError → Exec W Requeue
  after_post lease pod (some node_mismatch) =
      transition_to_failed api k lease reason_node_mismatch
        (rejected_node_mismatch pod.metadata.namespace pod.metadata.name)
  after_post lease pod (some failed) =
      transition_to_failed api k lease reason_pod_unreachable
        (post_failed pod.metadata.namespace pod.metadata.name pod.pod_ip)
  after_post lease pod none = do
    let message = post_accepted pod.metadata.namespace pod.metadata.name
    lease' ←
        set_lease_condition api k (with_phase lease activating message) condition_pod_activated
          status_false "Activating" message
    update_status api k lease'
    note (event event_reason_activating)
    pure (requeue_after poll_interval)

  -- r.PodClient.Activate: the error is a value, since every error has a branch of its own.
  unfoldable pub call_activate : GpuLease → Pod → Exec W (Option PodError)
  call_activate lease pod =
      perform (post_lease pod.pod_ip (activate_request lease))
        (λ w. let (r, w') = api.pod_activate pod.pod_ip (activate_request lease) w in (ok r, w'))

  unfoldable pub activate_pod : GpuLease → Pod → Exec W Requeue
  activate_pod lease pod =
      if str_eq pod.pod_ip ""
      then transition_to_failed api k lease reason_pod_unreachable
          (no_pod_ip pod.metadata.namespace pod.metadata.name)
      else (do r ← call_activate lease pod; after_post lease pod r)

  -- The orphan check that three phases share: a pod that still claims the lease, or the failure.
  unfoldable pub if_claimed :
      GpuLease → (String → Message) → (Pod → Exec W Requeue) → Option Pod → Exec W Requeue
  if_claimed lease message next none =
      transition_to_failed api k lease (lease_orphan_reason none lease none)
        (message (lease_orphan_reason none lease none))
  if_claimed lease message next (some pod) =
      let reason = lease_orphan_reason (some pod) lease none in
      if str_eq reason ""
      then next pod
      else transition_to_failed api k lease reason (message reason)

  -- reconcileAdmitted
  unfoldable pub reconcile_admitted : GpuLease → Exec W Requeue
  reconcile_admitted lease = do
    pod ← get_claim_pod api k lease
    if_claimed lease claim_invalid_before_activation (activate_pod lease) pod

  -- bindLease
  unfoldable pub bind_lease : GpuLease → Pod → Exec W Requeue
  bind_lease lease pod = do
    mark_pod_hot api k pod lease
    now ← clock api k
    let message = reported_hot pod.metadata.namespace pod.metadata.name
    let lease' = with_phase lease bound message
    l1 ←
        set_lease_condition api k
          (record lease' { status = record (lease'.status) { bound_at = some now } })
          condition_pod_activated status_true "Hot" message
    l2 ← set_lease_condition api k l1 condition_ready status_true "Bound" message
    update_status api k l2
    note (event event_reason_bound)
    pure (requeue_after bound_poll_interval)

  -- The wait of reconcileActivating.
  unfoldable pub await_hot : GpuLease → Pod → DeploymentSettings → ℕ → Exec W Requeue
  await_hot lease pod settings now =
      let elapsed = pos now -ℤ pos (pod_activated_anchor api k lease) in
      if leb_ℤ settings.activation_timeout elapsed
      then transition_to_failed api k lease reason_activation_timeout
          (not_hot_within pod.metadata.namespace pod.metadata.name settings.activation_timeout)
      else pure (requeue_after (next_poll (settings.activation_timeout -ℤ elapsed)))

  -- An error of GET /state is a pod that is not hot yet.
  unfoldable pub poll_pod : GpuLease → Pod → Exec W Requeue
  poll_pod lease pod = do
    state ← read (λ w. let (r, w') = api.pod_state pod.pod_ip w in (ok r, w'))
    if reports_hot state then bind_lease lease pod else do
      settings ← deployment_settings api k lease
      now ← clock api k
      await_hot lease pod settings now

  -- reconcileActivating
  unfoldable pub reconcile_activating : GpuLease → Exec W Requeue
  reconcile_activating lease = do
    pod ← get_claim_pod api k lease
    if_claimed lease claim_invalid_during_activation (poll_pod lease) pod

  -- reconcileBound
  unfoldable pub reconcile_bound : GpuLease → Exec W Requeue
  reconcile_bound lease = do
    pod ← get_claim_pod api k lease
    if_claimed lease claim_invalid_while_bound (λ p. pure (requeue_after bound_poll_interval)) pod
