-- ===== src/WarmPool/Setup.antt =====
-- internal/controller/warmpool_controller.go: SetupWithManager, with the Deployments that each
-- watched event makes the controller reconcile.
pub mod Wakes
use gpu_lease.Common.{
  String, Bool, Option, none, some, List, [], ◌∷◌, ℤ, pos, leb_ℤ, or_default, if◌then◌else◌, get_or,
}
use gpu_lease.Names.{is_managed}
use gpu_lease.Objects.{Deployment, Pod, GpuLease, default_failed_lease_retention}
use gpu_lease.Exec.{Result}
use gpu_lease.WarmPool.{Config}
use gpu_lease.WarmPool.Reconcile.{Request, map_pod_to_deployment, map_lease_to_deployment}

-- WarmPoolReconciler, where `none` is nil.
pub record Reconciler (Inventory Recorder : Type 0) : Type 0 where
  pub inventory : Option Inventory
  pub recorder : Option Recorder
  pub config : Config

abbrev pub new_config : Config
new_config = record { resync_period = pos 0; failed_lease_retention = pos 0 }

-- What SetupWithManager makes of the reconciler, where `new_inventory` is inventory.New of the
-- manager's client and `event_recorder_for` the manager's GetEventRecorderFor.
unfoldable pub set_up_with_manager :
    {Inventory Recorder : Type 0}
    → (new_inventory : Inventory) → (event_recorder_for : String → Recorder)
    → Reconciler Inventory Recorder
    → Reconciler Inventory Recorder
set_up_with_manager new_inventory event_recorder_for r = record {
  inventory = or_default new_inventory r.inventory;
  recorder = or_default (event_recorder_for "warmpool-controller") r.recorder;
  config = record (r.config) {
    failed_lease_retention =
        if leb_ℤ r.config.failed_lease_retention (pos 0)
        then default_failed_lease_retention
        else r.config.failed_lease_retention;
  };
}

-- A watched object that was created, changed or deleted.
pub data Event : Type 0 where
  of_deployment : Deployment → Event
  of_pod : Pod → Event
  of_lease : GpuLease → Event

abbrev pub key_of : Deployment → Request
key_of dep = record { namespace = dep.metadata.namespace; name = dep.metadata.name }

-- For, with managedPredicate, and Watches, with what the list of the Deployments in a pod's
-- namespace gave.
unfoldable pub requests : Result (List Deployment) → Event → List Request
requests listed (of_deployment dep) =
    if is_managed dep.metadata.annotations then key_of dep ∷ [] else []
requests listed (of_pod pod) = map_pod_to_deployment pod listed
requests listed (of_lease lease) = map_lease_to_deployment lease
