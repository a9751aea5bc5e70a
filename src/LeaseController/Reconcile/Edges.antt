-- ===== src/LeaseController/Reconcile/Edges.antt =====
-- What Reconcile of gpulease_controller.go writes to the phase of a lease.
use gpu_lease.Common.{ℕ, ◌≡◌, none, some}
use gpu_lease.Objects.{GpuLease}
use gpu_lease.Exec.{Call}
use gpu_lease.Exec.Emits.{Emits, made, Emits-Keeps}
use gpu_lease.Client.{Api, Machinery}
use gpu_lease.Client.Neutral.{no_rules, Obeys, Extends-Neutral}
use gpu_lease.LeaseController.Reconcile.{reconcile_lease}
use gpu_lease.LeaseController.Reconcile.Edge.{Moves, Releases}
use gpu_lease.LeaseController.Reconcile.Keeps.{Keeps-live_lease, Keeps-deleted_lease}

-- A lease whose status is written satisfies `Q`; any other call is free.
abbrev pub Writes : (GpuLease → Type 0) → Call → Type 0
Writes Q = Obeys (record no_rules { on_status = Q })

module _ {W : Type 0} (api : Api W) (k : Machinery) where
  -- Reconcile of a lease that is not being deleted writes the status of that lease only, with the
  -- metadata and the spec that were read, and its phase along an edge of the state machine: from no phase or Pending it stays or becomes Admitted, Admitted becomes Activating,
  -- Activating becomes Bound, and any of these becomes Failed. In Failed, Releasing and a phase
  -- that is unknown it writes no status. This holds whatever the API server and the pods answer,
  -- and also for a Reconcile that ends in an error.
  pub reconcile_lease-Follows :
      (lease : GpuLease)
      → lease.metadata.deletion_timestamp ≡ none
      → Emits (Writes (Moves lease)) (reconcile_lease api k lease)
  reconcile_lease-Follows lease e = Emits-Keeps _ (λ old.
      Keeps-live_lease api k _ (Extends-Neutral api old _) lease e (λ l edge s x h. made edge h)
        (λ s x h. made tt h))

  -- Reconcile of a lease that is being deleted writes no status but that lease's, with the metadata
  -- and the spec that were read, and no phase but Releasing.
  pub reconcile_lease-Releases :
      (lease : GpuLease) (since : ℕ)
      → lease.metadata.deletion_timestamp ≡ some since
      → Emits (Writes (Releases lease)) (reconcile_lease api k lease)
  reconcile_lease-Releases lease since e = Emits-Keeps _ (λ old.
      Keeps-deleted_lease api k _ (Extends-Neutral api old _) lease since e (λ l p s x h. made p h)
        (record { yields = λ s a h q. tt }) (λ l u s x h. made tt h))
