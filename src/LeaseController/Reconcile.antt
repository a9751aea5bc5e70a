-- ===== src/LeaseController/Reconcile.antt =====
-- Reconcile of gpulease_controller.go. A loop over a map sets a gauge at all
-- keys of the map at once.
pub mod Edge
pub mod Gauges
pub mod Keeps
pub mod Edges
pub mod Cleanup
pub mod Polling
pub mod Advances
pub mod Stored
pub mod Arrives
use gpu_lease.Common.{
  ℕ, ◌+◌, String, Bool, true, false, Option, none, some, List, [], ◌∷◌, Map, empty, put, get_or,
  is_some, if◌then◌else◌,
}
use gpu_lease.Names.{finalizer}
use gpu_lease.Objects.{
  GpuLease, LeasePhase, unset, pending, admitted, activating, bound, failed, releasing, unknown,
}
use gpu_lease.Exec.{
  Exec, Error, not_found, Result, ok, err, pure, raise, read, try, note, set_node_gauge, ◌>>=◌,
  ◌>>◌,
}
use gpu_lease.Client.{Api, Machinery}
use gpu_lease.Inventory.{node_free_counts}
use gpu_lease.LeaseController.{Requeue, done, requeue}
use gpu_lease.LeaseController.Release.{reconcile_deletion, update_lease}
use gpu_lease.LeaseController.Admission.{reconcile_pending}
use gpu_lease.LeaseController.Phases.{reconcile_admitted, reconcile_activating, reconcile_bound}

-- LeasesActive and NodeGPUsFree of metrics.go, by name
abbrev pub leases_active : String
leases_active = "gpulease_leases_active"

abbrev pub node_gpus_free : String
node_gpus_free = "gpulease_node_gpus_free"

-- The loop of refreshMetrics that counts the leases of each node.
unfoldable pub count_leases : Map ℕ → List GpuLease → Map ℕ
count_leases counts [] = counts
count_leases counts (l ∷ ls) =
    count_leases (put counts l.spec.node_name (get_or (counts l.spec.node_name) 0 + 1)) ls

module _ {W : Type 0} (api : Api W) (k : Machinery) where
  -- refreshMetrics, where Inventory is set, as SetupWithManager does; its error is only logged.
  unfoldable pub refresh_metrics : Exec W (Unit {0})
  refresh_metrics = do
    leases ← read api.list_leases
    note (set_node_gauge leases_active (count_leases empty leases))
    free ← node_free_counts api
    note (set_node_gauge node_gpus_free free)

  unfoldable pub give : Result Requeue → Exec W Requeue
  give (ok r) = pure r
  give (err e) = raise e

  -- A result that is kept over the refresh of the metrics.
  unfoldable pub then_refresh : Exec W Requeue → Exec W Requeue
  then_refresh m = do res ← try m; try refresh_metrics; give res

  -- The `switch` on the phase. Failed and Releasing, and an unknown phase, are left alone.
  unfoldable pub reconcile_phase : LeasePhase → GpuLease → Exec W Requeue
  reconcile_phase unset lease = reconcile_pending api k lease
  reconcile_phase pending lease = reconcile_pending api k lease
  reconcile_phase admitted lease = reconcile_admitted api k lease
  reconcile_phase activating lease = reconcile_activating api k lease
  reconcile_phase bound lease = reconcile_bound api k lease
  reconcile_phase failed lease = pure done
  reconcile_phase releasing lease = pure done
  reconcile_phase (unknown s) lease = pure done

  unfoldable pub add_finalizer : GpuLease → Exec W Requeue
  add_finalizer lease = do
    update_lease api k (record lease { metadata = k.add_finalizer lease.metadata finalizer })
    pure requeue

  -- Reconcile, of a lease that was found
  unfoldable pub reconcile_lease : GpuLease → Exec W Requeue
  reconcile_lease lease =
      if is_some lease.metadata.deletion_timestamp
      then then_refresh (reconcile_deletion api k lease)
      else if k.contains_finalizer lease.metadata finalizer
      then then_refresh (reconcile_phase lease.status.phase lease)
      else add_finalizer lease

  unfoldable pub reconcile_found : Result GpuLease → Exec W Requeue
  reconcile_found (err not_found) = pure done
  reconcile_found (err e) = raise e
  reconcile_found (ok lease) = reconcile_lease lease

  -- Reconcile
  unfoldable pub reconcile : String → Exec W Requeue
  reconcile name = do found ← try (read (api.get_lease name)); reconcile_found found
