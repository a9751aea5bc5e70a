-- ===== src/Tests/ExclusiveExamples.antt =====
-- Both reconcilers at work on the server that stores leases in a list.
use gpu_lease.Common.{◌≡◌, refl, String, none, some, List, [], ◌∷◌, pos, ◌*◌, get_or}
use gpu_lease.Names.{second, finalizer}
use gpu_lease.Objects.{GpuLease, LeasePhase}
use gpu_lease.Exec.{State}
use gpu_lease.LeaseController.Reconcile
use gpu_lease.WarmPool.{Config}
use gpu_lease.WarmPool.Reconcile.{Request}
use gpu_lease.WarmPool.Reconcile as WarmPoolReconcile
use gpu_lease.Cluster.{ReachedFrom, IsDerived, Evolves, none_yet, lease_reconciled}
use gpu_lease.Cluster.Evolution.{Evolves-IsDerived}
use gpu_lease.Cluster.Exclusive.{reconcile-Evolves, one_lease_per_gpu}
use gpu_lease.Tests.Fixtures.{test_machinery, lease_on}
use gpu_lease.Tests.StoredLeases.{stored, seen_versions}
use gpu_lease.Tests.StoreServer.{store_server}
use gpu_lease.Tests.StoreLaws.{store_server-Lawful, test_machinery-KeepsNames, no_leases-IsDerived}

abbrev config : Config
config = record { resync_period = pos 0; failed_lease_retention = pos (60 * second) }

abbrev request : Request
request = record { namespace = "ns"; name = "dep" }

abbrev gpu_0 : String
gpu_0 = "node-a-gpu-0"

abbrev at : List GpuLease → State (List GpuLease)
at w = record { world = w; trace = [] }

-- The pool promotes a pod on the free GPU 0, and the lease is reconciled.
abbrev promoted : List GpuLease
promoted = (WarmPoolReconcile.reconcile store_server test_machinery config request (at [])).1.world

-- The lease that is then stored.
abbrev made : GpuLease
made = get_or ((stored promoted).at gpu_0) (lease_on "node-a" (pos 0) LeasePhase.unset none)

promoted_is_stored : (stored promoted).at gpu_0 ≡ some made
unfolding gpu_lease.Tests.StoredLeases.latest gpu_lease.Tests.StoredLeases.has_uid
    WarmPoolReconcile.reconcile gpu_lease.Exec.◌>>=◌ gpu_lease.Exec.try
    WarmPoolReconcile.reconcile_deployment gpu_lease.Exec.read gpu_lease.Names.is_managed
    WarmPoolReconcile.reconcile_selected gpu_lease.Pods.deployment_selector
    WarmPoolReconcile.reconcile_pool gpu_lease.WarmPool.Orphans.reconcile_orphans
    gpu_lease.WarmPool.leases_for_deployment gpu_lease.WarmPool.Orphans.visit_leases
    gpu_lease.Common.filter gpu_lease.Tests.StoredLeases.at_names
    gpu_lease.Pods.list_deployment_pods WarmPoolReconcile.consider WarmPoolReconcile.labelled
    gpu_lease.Pods.initialize_pod_warm_state gpu_lease.Exec.perform gpu_lease.Exec.note
    WarmPoolReconcile.warn_deficit gpu_lease.Pods.is_pod_considered gpu_lease.Pods.with_warm_state
    gpu_lease.Pods.is_pod_ready WarmPoolReconcile.add_int32 gpu_lease.Common.◌+ℤ◌
    gpu_lease.Names.Settings.parse_deployment_settings WarmPoolReconcile.decide
    WarmPoolReconcile.count_held gpu_lease.Pods.is_held gpu_lease.Pods.pod_state
    gpu_lease.Pods.target_hot gpu_lease.Common.◌-ℤ◌ WarmPoolReconcile.promote_missing
    gpu_lease.Inventory.node_free_counts gpu_lease.WarmPool.promote gpu_lease.WarmPool.promote_each
    gpu_lease.Pods.sort_promotion_candidates gpu_lease.Common.stable_sort WarmPoolReconcile.in_state
    gpu_lease.Pods.is_eligible gpu_lease.Inventory.free_counts gpu_lease.Inventory.count_label
    gpu_lease.Inventory.parse_count gpu_lease.Decimal.parse_int32 gpu_lease.Inventory.count_from
    gpu_lease.Inventory.used_by_node gpu_lease.WarmPool.after_acquire
    gpu_lease.WarmPool.acquire_lease_on_node gpu_lease.Inventory.free_gpu_ids
    gpu_lease.Inventory.node_capacity gpu_lease.Inventory.capacity_of
    gpu_lease.Inventory.used_gpu_ids gpu_lease.WarmPool.acquire_free gpu_lease.Inventory.free_from
    gpu_lease.Inventory.used_ids gpu_lease.WarmPool.acquire_first gpu_lease.WarmPool.after_create
    gpu_lease.Tests.StoreServer.add gpu_lease.Pods.patch_pod_state_label
    gpu_lease.WarmPool.report_shortfall gpu_lease.WarmPool.new_lease gpu_lease.Names.lease_name
    gpu_lease.Decimal.format_int
promoted_is_stored = refl

reconcile-Evolves_example :
    Evolves
      (stored [])
      (stored (Reconcile.reconcile store_server test_machinery gpu_0 (at [])).1.world)
    × Evolves (stored []) (stored promoted)
reconcile-Evolves_example =
    reconcile-Evolves store_server test_machinery config stored seen_versions store_server-Lawful
      test_machinery-KeepsNames (at []) gpu_0 request no_leases-IsDerived

-- The lease is reconciled, and its Workload created.
abbrev again : List GpuLease
again = (Reconcile.reconcile store_server test_machinery gpu_0 (at promoted)).1.world

abbrev pending : GpuLease
pending = get_or ((stored again).at gpu_0) made

again_is_stored : (stored again).at gpu_0 ≡ some pending
unfolding Reconcile.reconcile Reconcile.reconcile_found Reconcile.reconcile_lease
    Reconcile.reconcile_phase Reconcile.then_refresh Reconcile.refresh_metrics
    gpu_lease.LeaseController.Admission.reconcile_pending
    gpu_lease.LeaseController.Admission.pending_with
    gpu_lease.LeaseController.Admission.create_workload
    gpu_lease.LeaseController.Admission.create_owned
    gpu_lease.LeaseController.Admission.record_workload_name gpu_lease.LeaseController.update_status
    gpu_lease.Kueue.build_workload gpu_lease.Kueue.workload_name
    gpu_lease.Tests.StoreServer.change_status gpu_lease.Tests.StoreServer.found Reconcile.give
    gpu_lease.Tests.StoredLeases.latest gpu_lease.Tests.StoredLeases.has_uid
    WarmPoolReconcile.reconcile gpu_lease.Exec.◌>>=◌ gpu_lease.Exec.try
    WarmPoolReconcile.reconcile_deployment gpu_lease.Exec.read gpu_lease.Names.is_managed
    WarmPoolReconcile.reconcile_selected gpu_lease.Pods.deployment_selector
    WarmPoolReconcile.reconcile_pool gpu_lease.WarmPool.Orphans.reconcile_orphans
    gpu_lease.WarmPool.leases_for_deployment gpu_lease.WarmPool.Orphans.visit_leases
    gpu_lease.Common.filter gpu_lease.Tests.StoredLeases.at_names
    gpu_lease.Pods.list_deployment_pods WarmPoolReconcile.consider WarmPoolReconcile.labelled
    gpu_lease.Pods.initialize_pod_warm_state gpu_lease.Exec.perform gpu_lease.Exec.note
    WarmPoolReconcile.warn_deficit gpu_lease.Pods.is_pod_considered gpu_lease.Pods.with_warm_state
    gpu_lease.Pods.is_pod_ready WarmPoolReconcile.add_int32 gpu_lease.Common.◌+ℤ◌
    gpu_lease.Names.Settings.parse_deployment_settings WarmPoolReconcile.decide
    WarmPoolReconcile.count_held gpu_lease.Pods.is_held gpu_lease.Pods.pod_state
    gpu_lease.Pods.target_hot gpu_lease.Common.◌-ℤ◌ WarmPoolReconcile.promote_missing
    gpu_lease.Inventory.node_free_counts gpu_lease.WarmPool.promote gpu_lease.WarmPool.promote_each
    gpu_lease.Pods.sort_promotion_candidates gpu_lease.Common.stable_sort WarmPoolReconcile.in_state
    gpu_lease.Pods.is_eligible gpu_lease.Inventory.free_counts gpu_lease.Inventory.count_label
    gpu_lease.Inventory.parse_count gpu_lease.Decimal.parse_int32 gpu_lease.Inventory.count_from
    gpu_lease.Inventory.used_by_node gpu_lease.WarmPool.after_acquire
    gpu_lease.WarmPool.acquire_lease_on_node gpu_lease.Inventory.free_gpu_ids
    gpu_lease.Inventory.node_capacity gpu_lease.Inventory.capacity_of
    gpu_lease.Inventory.used_gpu_ids gpu_lease.WarmPool.acquire_free gpu_lease.Inventory.free_from
    gpu_lease.Inventory.used_ids gpu_lease.WarmPool.acquire_first gpu_lease.WarmPool.after_create
    gpu_lease.Tests.StoreServer.add gpu_lease.Pods.patch_pod_state_label
    gpu_lease.WarmPool.report_shortfall gpu_lease.WarmPool.new_lease gpu_lease.Names.lease_name
    gpu_lease.Decimal.format_int gpu_lease.LeaseController.Admission.tolerate_already_exists
again_is_stored = refl

promoted-IsDerived : IsDerived (stored promoted)
promoted-IsDerived =
    Evolves-IsDerived (stored []) (stored promoted) no_leases-IsDerived
      (reconcile-Evolves store_server test_machinery config stored seen_versions store_server-Lawful
        test_machinery-KeepsNames (at []) gpu_0 request no_leases-IsDerived).1

one_lease_per_gpu_example :
    (◌≡◌ {A = String} gpu_0 gpu_0)
    × (pending ≡ pending)
    × ReachedFrom (stored promoted) gpu_0 pending
one_lease_per_gpu_example =
    one_lease_per_gpu store_server test_machinery config stored seen_versions store_server-Lawful
      test_machinery-KeepsNames promoted again promoted-IsDerived
      (lease_reconciled gpu_0 promoted again none_yet refl) gpu_0 gpu_0 pending pending
      again_is_stored again_is_stored refl refl
