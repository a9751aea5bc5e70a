-- ===== src/WarmPool/Orphans.antt =====
-- reconcileOrphans of warmpool_controller.go: leases whose claim is gone, and old failures. The
-- retention is the field FailedLeaseRetention, or its default.
use gpu_lease.Common.{
  ℕ, String, Bool, true, false, none, some, List, [], ◌∷◌, str_eq, is_some, ◌==◌, ℤ, pos, ◌-ℤ◌,
  ltb_ℤ, if◌then◌else◌,
}
use gpu_lease.Names.{finalizer}
use gpu_lease.Objects.{
  GpuLease, LeasePhase, failed, unset, pending, admitted, activating, bound, releasing, unknown,
  Deployment, Selector, condition_ready, default_failed_lease_retention,
}
use gpu_lease.Exec.{
  Exec, not_found, Result, ok, err, Call, event, pure, raise, perform, try, note, ◌>>=◌, ◌>>◌,
}
use gpu_lease.Client.{Api, Machinery}
use gpu_lease.Pods.{lease_orphan_reason}
use gpu_lease.LeaseController.{clock, get_claim_pod}
use gpu_lease.LeaseController.Release.{update_lease, without_finalizer}
use gpu_lease.WarmPool.{
  event_reason_orphan_lease_reclaimed, event_reason_failed_lease_reclaimed, Config,
  min_positive_duration, delete_lease, leases_for_deployment,
}

-- effectiveFailedLeaseRetention
unfoldable pub effective_failed_lease_retention : Config → ℤ
effective_failed_lease_retention cfg =
    if ltb_ℤ (pos 0) cfg.failed_lease_retention
    then cfg.failed_lease_retention
    else default_failed_lease_retention

unfoldable pub is_failed : LeasePhase → Bool
is_failed failed = true
is_failed unset = false
is_failed pending = false
is_failed admitted = false
is_failed activating = false
is_failed bound = false
is_failed releasing = false
is_failed (unknown s) = false

module _ {W : Type 0} (api : Api W) (k : Machinery) (cfg : Config) where
  -- failedSince; the zero time is 0
  unfoldable pub failed_since : GpuLease → ℕ
  failed_since lease = elim (k.find_status_condition lease.status.conditions condition_ready) [
    | none ↦ lease.metadata.creation_timestamp
    | some c ↦
        if c.last_transition_time == 0
        then lease.metadata.creation_timestamp
        else c.last_transition_time
  ]

  -- The end of reclaimFailedLease, by the error of Delete
  unfoldable pub after_delete : Result (Unit {0}) → Exec W (Bool × ℤ)
  after_delete (ok u) = do note (event event_reason_failed_lease_reclaimed); pure (true, pos 0)
  after_delete (err not_found) = pure (true, pos 0)
  after_delete (err e) = raise e

  unfoldable pub delete_failed : GpuLease → Exec W (Bool × ℤ)
  delete_failed lease = do
    r ← try (perform (Call.delete_lease lease) (api.delete_lease lease))
    after_delete r

  -- reclaimFailedLease, by the error of the update that strips the finalizer
  unfoldable pub after_strip : Result GpuLease → Exec W (Bool × ℤ)
  after_strip (ok lease) = delete_failed lease
  after_strip (err not_found) = pure (true, pos 0)
  after_strip (err e) = raise e

  -- reclaimFailedLease, of a lease that is past its retention
  unfoldable pub strip_and_delete : GpuLease → Exec W (Bool × ℤ)
  strip_and_delete lease =
      if k.contains_finalizer lease.metadata finalizer
      then (do r ← try (update_lease api k (without_finalizer api k lease)); after_strip r)
      else delete_failed lease

  -- reclaimFailedLease, at an age
  unfoldable pub reclaim_at : GpuLease → (age : ℤ) → Exec W (Bool × ℤ)
  reclaim_at lease age =
      if ltb_ℤ age (effective_failed_lease_retention cfg)
      then pure (false, effective_failed_lease_retention cfg -ℤ age)
      else strip_and_delete lease

  -- reclaimFailedLease: whether the lease is gone, and the wait until it can be reclaimed
  unfoldable pub reclaim_failed_lease : GpuLease → Exec W (Bool × ℤ)
  reclaim_failed_lease lease = do
    now ← clock api k
    reclaim_at lease (pos now -ℤ pos (failed_since lease))

  unfoldable pub delete_orphan : GpuLease → (reason : String) → Exec W (Unit {0})
  delete_orphan lease reason =
      if str_eq reason ""
      then pure tt
      else do delete_lease api lease; note (event event_reason_orphan_lease_reclaimed)

  -- The check of a claim in reconcileOrphans
  unfoldable pub check_claim : GpuLease → Selector → Exec W (Unit {0})
  check_claim lease sel = do
    pod ← get_claim_pod api k lease
    delete_orphan lease (lease_orphan_reason pod lease (some sel))

  unfoldable pub fold_retry : ℤ → ℤ → ℤ
  fold_retry requeue_after retry_after =
      if ltb_ℤ (pos 0) retry_after
      then min_positive_duration requeue_after retry_after
      else requeue_after

  -- The body of reconcileOrphans' loop for a failed lease
  unfoldable pub visit_failed : GpuLease → Selector → ℤ → Bool × ℤ → Exec W ℤ
  visit_failed lease sel requeue_after (deleted, retry_after) =
      if deleted
      then pure requeue_after
      else do check_claim lease sel; pure (fold_retry requeue_after retry_after)

  -- The body of reconcileOrphans' loop, with the wait so far
  unfoldable pub visit_lease : GpuLease → Selector → ℤ → Exec W ℤ
  visit_lease lease sel requeue_after =
      if is_some lease.metadata.deletion_timestamp
      then pure requeue_after
      else if is_failed lease.status.phase
      then (do r ← reclaim_failed_lease lease; visit_failed lease sel requeue_after r)
      else (do check_claim lease sel; pure requeue_after)

  unfoldable pub visit_leases : List GpuLease → Selector → ℤ → Exec W ℤ
  visit_leases [] sel requeue_after = pure requeue_after
  visit_leases (l ∷ ls) sel requeue_after = do
    requeue_after' ← visit_lease l sel requeue_after
    visit_leases ls sel requeue_after'

  -- reconcileOrphans
  unfoldable pub reconcile_orphans : Deployment → Selector → Exec W ℤ
  reconcile_orphans dep sel = do
    leases ← leases_for_deployment api dep
    visit_leases leases sel (pos 0)
