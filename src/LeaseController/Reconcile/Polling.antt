-- ===== src/LeaseController/Reconcile/Polling.antt =====
-- The waits of gpulease_controller.go and their timeouts.
use gpu_lease.Common.{
  ◌≡◌, refl, ℕ, true, false, if◌then◌else◌, arith, ℤ, pos, ◌-ℤ◌, ◌≤ℤ◌, ◌<ℤ◌, -ℤ_parts, leb_ℤ,
}
use gpu_lease.Objects.{
  GpuLease, Workload, Pod, not_admitted_within, not_hot_within, reason_quota_exhausted_on_node,
  reason_activation_timeout,
}
use gpu_lease.Names.Settings.{DeploymentSettings}
use gpu_lease.Exec.{Exec, pure}
use gpu_lease.Client.{Api, Machinery}
use gpu_lease.Kueue.{admission_anchor, quota_reserved_message}
use gpu_lease.LeaseController.{
  Requeue, requeue_after, next_poll, poll_interval, pod_activated_anchor,
}
use gpu_lease.LeaseController.Release.{transition_to_failed}
use gpu_lease.LeaseController.Admission.{await_admission}
use gpu_lease.LeaseController.Phases.{await_hot}

-- A requeue that is positive, at most the poll interval, and not past the end of the wait.
abbrev pub IsPoll : (elapsed timeout delay : ℤ) → Type 0
IsPoll elapsed timeout delay =
    (pos 0 <ℤ delay) × (delay ≤ℤ poll_interval) × (delay ≤ℤ (timeout -ℤ elapsed))

next_poll-IsPoll :
    (elapsed timeout : ℤ)
    → elapsed <ℤ timeout
    → IsPoll elapsed timeout (next_poll (timeout -ℤ elapsed))
unfolding next_poll
next_poll-IsPoll elapsed timeout h = ground (arith, -ℤ_parts timeout elapsed)

leb_true : (a b : ℤ) → a ≤ℤ b → leb_ℤ a b ≡ true
leb_true a b h = ground arith

leb_false : (a b : ℤ) → b <ℤ a → leb_ℤ a b ≡ false
leb_false a b h = ground arith

-- What a wait does: `fail` once `timeout` has elapsed, a poll before that.
abbrev pub Waits : {W : Type 0} → (wait fail : Exec W Requeue) (elapsed timeout : ℤ) → Type 0
Waits wait fail elapsed timeout =
    (timeout ≤ℤ elapsed → wait ≡ fail)
    × (elapsed <ℤ timeout
        → (delay : ℤ) × (wait ≡ pure (requeue_after delay)) × IsPoll elapsed timeout delay)

wait_lem :
    {W : Type 0}
    → (fail : Exec W Requeue) (elapsed timeout : ℤ)
    → Waits
        (if leb_ℤ timeout elapsed
          then fail
          else pure (requeue_after (next_poll (timeout -ℤ elapsed))))
        fail
        elapsed
        timeout
wait_lem fail elapsed timeout = (
  λ h. rw (leb_true timeout elapsed h) refl,
  λ h. (
    next_poll (timeout -ℤ elapsed),
    rw (leb_false timeout elapsed h) refl,
    next_poll-IsPoll elapsed timeout h,
  ),
)

module _ {W : Type 0} (api : Api W) (k : Machinery) where
  -- The wait for the admission of a Workload: once the timeout has elapsed since Kueue last judged
  -- it (or since its creation), the lease fails with QuotaExhaustedOnNode; before that, the lease is
  -- polled again, without a call, after a positive delay of at most two seconds that does not pass
  -- the timeout.
  pub await_admission-Waits :
      (lease : GpuLease) (wl : Workload) (settings : DeploymentSettings) (now : ℕ)
      → Waits
          (await_admission api k lease wl settings now)
          (transition_to_failed api k lease reason_quota_exhausted_on_node (
            not_admitted_within wl.metadata.name settings.admission_timeout
              (quota_reserved_message k wl)))
          (pos now -ℤ pos (admission_anchor k wl))
          settings.admission_timeout
  unfolding await_admission
  await_admission-Waits lease wl settings now =
      wait_lem _ (pos now -ℤ pos (admission_anchor k wl)) settings.admission_timeout

  -- The wait for a pod to report hot: once the timeout has elapsed since the post to the pod (or
  -- since the lease's creation), the lease fails with ActivationTimeout; before that, the pod is
  -- polled again, without a call, after a positive delay of at most two seconds that does not pass
  -- the timeout.
  pub await_hot-Waits :
      (lease : GpuLease) (pod : Pod) (settings : DeploymentSettings) (now : ℕ)
      → Waits
          (await_hot api k lease pod settings now)
          (transition_to_failed api k lease reason_activation_timeout
            (not_hot_within pod.metadata.namespace pod.metadata.name settings.activation_timeout))
          (pos now -ℤ pos (pod_activated_anchor api k lease))
          settings.activation_timeout
  unfolding await_hot
  await_hot-Waits lease pod settings now =
      wait_lem _ (pos now -ℤ pos (pod_activated_anchor api k lease)) settings.activation_timeout
