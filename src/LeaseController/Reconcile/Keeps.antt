-- ===== src/LeaseController/Reconcile/Keeps.antt =====
-- What the single calls keep, a Reconcile of gpulease_controller.go keeps.
pub mod Calls
pub mod Admission
pub mod Phases
use gpu_lease.Common.{
  ℕ, ◌≡◌, refl, ◌⊎◌, inl, inr, subst, sym, true, false, Option, none, some, is_some,
}
use gpu_lease.Names.{finalizer}
use gpu_lease.Objects.{
  GpuLease, LeasePhase, unset, pending, admitted, activating, bound, failed, releasing, unknown,
}
use gpu_lease.Exec.{Exec, Result, ok, err, State, Call}
use gpu_lease.Exec.Keeps.{
  Keeps, Yields, OnCall, keeps_rules, Keeps-read, Keeps-note, Keeps-perform, Keeps-if, Keeps-then,
  Keeps-bind, Keeps-pure,
}
use gpu_lease.Client.{Api, Machinery}
use gpu_lease.Client.Neutral.{Neutral}
use gpu_lease.Inventory.{node_free_counts}
use gpu_lease.LeaseController.{Requeue, with_phase}
use gpu_lease.LeaseController.Release.{
  reconcile_deletion, update_lease, tear_down, to_releasing, without_finalizer,
}
use gpu_lease.LeaseController.Reconcile.{
  refresh_metrics, give, then_refresh, reconcile_phase, add_finalizer, reconcile_lease,
}
use gpu_lease.LeaseController.Reconcile.Edge.{
  MovesFrom, Moves, Releases, Edge, fail, stay_unset, stay_pending, admit_unset, admit_pending,
  post, bind,
}
use gpu_lease.LeaseController.Reconcile.Keeps.Calls.{call_rules, Keeps-update_status}
use gpu_lease.LeaseController.Reconcile.Keeps.Admission.{Keeps-reconcile_pending}
use gpu_lease.LeaseController.Reconcile.Keeps.Phases.{
  Keeps-reconcile_admitted, Keeps-reconcile_activating, Keeps-reconcile_bound,
}

module _ {W : Type 0} (api : Api W) (k : Machinery) (I : State W → Type 0) (v : Neutral I api) where
  Keeps-give : (r : Result Requeue) → Keeps I (give api k r)
  unfolding give
  Keeps-give (ok r) = search keeps_rules
  Keeps-give (err e) = search keeps_rules

  pub Keeps-node_free_counts : Keeps I (node_free_counts api)
  unfolding node_free_counts
  Keeps-node_free_counts = search (keeps_rules, Keeps-read, v.list_nodes, v.list_leases) depth 8

  pub Keeps-refresh_metrics : Keeps I (refresh_metrics api k)
  unfolding refresh_metrics
  Keeps-refresh_metrics =
      search
        (keeps_rules, Keeps-read, v.list_leases, Keeps-note, v.node_gauges, Keeps-node_free_counts)
        depth 12

  Keeps-then_refresh : (m : Exec W Requeue) → Keeps I m → Keeps I (then_refresh api k m)
  unfolding then_refresh
  Keeps-then_refresh m h = search (keeps_rules, Keeps-refresh_metrics, Keeps-give) depth 12

  Keeps-reconcile_phase :
      (p : LeasePhase) (lease : GpuLease)
      → lease.status.phase ≡ p
      → ((l : GpuLease)
          → MovesFrom p lease l.metadata l.spec l.status.phase
          → OnCall I (Call.update_status l) (api.update_lease_status l))
      → Keeps I (reconcile_phase api k p lease)
  unfolding reconcile_phase
  Keeps-reconcile_phase unset lease e write =
      Keeps-reconcile_pending api k I v (MovesFrom unset lease) write lease
        (refl, refl, subst (Edge unset) (sym e) stay_unset) (refl, refl, admit_unset)
        (refl, refl, fail (inl (inl refl)))
  Keeps-reconcile_phase pending lease e write =
      Keeps-reconcile_pending api k I v (MovesFrom pending lease) write lease
        (refl, refl, subst (Edge pending) (sym e) stay_pending) (refl, refl, admit_pending)
        (refl, refl, fail (inl (inr refl)))
  Keeps-reconcile_phase admitted lease e write =
      Keeps-reconcile_admitted api k I v (MovesFrom admitted lease) write lease (refl, refl, post)
        (refl, refl, fail (inr (inl refl)))
  Keeps-reconcile_phase activating lease e write =
      Keeps-reconcile_activating api k I v (MovesFrom activating lease) write lease
        (refl, refl, bind) (refl, refl, fail (inr (inr (inl refl))))
  Keeps-reconcile_phase bound lease e write =
      Keeps-reconcile_bound api k I v (MovesFrom bound lease) write lease
        (refl, refl, fail (inr (inr (inr refl))))
  Keeps-reconcile_phase failed lease e write = search keeps_rules
  Keeps-reconcile_phase releasing lease e write = search keeps_rules
  Keeps-reconcile_phase (unknown s) lease e write = search keeps_rules

  -- A lease that is not being deleted.
  pub Keeps-live_lease :
      (lease : GpuLease)
      → lease.metadata.deletion_timestamp ≡ none
      → ((l : GpuLease)
          → Moves lease l
          → OnCall I (Call.update_status l) (api.update_lease_status l))
      → (let l = record lease { metadata = k.add_finalizer lease.metadata finalizer } in
          OnCall I (Call.update_lease l) (api.update_lease l))
      → Keeps I (reconcile_lease api k lease)
  unfolding reconcile_lease add_finalizer update_lease
  Keeps-live_lease lease e write update =
      Keeps-if (is_some lease.metadata.deletion_timestamp)
        (then_refresh api k (reconcile_deletion api k lease)) _ (λ h. cc)
        (λ h.
          Keeps-if (k.contains_finalizer lease.metadata finalizer) _ _
            (λ f. Keeps-then_refresh _ (Keeps-reconcile_phase lease.status.phase lease refl write))
            (λ f. Keeps-bind _ _ (Keeps-perform _ _ update) (λ l. Keeps-pure _)))

  Keeps-to_releasing :
      (lease : GpuLease)
      → ((l : GpuLease)
          → Releases lease l
          → OnCall I (Call.update_status l) (api.update_lease_status l))
      → Keeps I (to_releasing api k lease)
  unfolding to_releasing with_phase
  Keeps-to_releasing lease write =
      search
        (
          keeps_rules,
          Keeps-update_status api k I v
              (λ m spec p. (m ≡ lease.metadata) × (spec ≡ lease.spec) × (p ≡ releasing)) write,
        )
        depth 8

  Keeps-tear_down :
      {U : GpuLease → Type 0}
      → (lease : GpuLease)
      → ((l : GpuLease)
          → Releases lease l
          → OnCall I (Call.update_status l) (api.update_lease_status l))
      → Yields I U (to_releasing api k lease)
      → ((l : GpuLease)
          → U l
          → OnCall I
              (Call.update_lease (without_finalizer api k l))
              (api.update_lease (without_finalizer api k l)))
      → Keeps I (tear_down api k lease)
  unfolding tear_down update_lease
  Keeps-tear_down lease write known update =
      Keeps-then _ _ (Keeps-to_releasing lease write) known
        (λ l u. search (keeps_rules, call_rules, Keeps-perform, update l u) depth 14)

  -- A lease that is being deleted; `U` is what is known of the lease that is in the phase Releasing.
  pub Keeps-deleted_lease :
      {U : GpuLease → Type 0}
      → (lease : GpuLease) (since : ℕ) → lease.metadata.deletion_timestamp ≡ some since
      → ((l : GpuLease)
          → Releases lease l
          → OnCall I (Call.update_status l) (api.update_lease_status l))
      → Yields I U (to_releasing api k lease)
      → ((l : GpuLease)
          → U l
          → OnCall I
              (Call.update_lease (without_finalizer api k l))
              (api.update_lease (without_finalizer api k l)))
      → Keeps I (reconcile_lease api k lease)
  unfolding reconcile_lease reconcile_deletion
  Keeps-deleted_lease lease since e write known update =
      Keeps-if (is_some lease.metadata.deletion_timestamp)
        (then_refresh api k (reconcile_deletion api k lease)) _
        (λ h. Keeps-then_refresh _ (
          Keeps-if (k.contains_finalizer lease.metadata finalizer) _ _
            (λ f. Keeps-tear_down lease write known update) (λ f. Keeps-pure _)))
        (λ h. cc)
