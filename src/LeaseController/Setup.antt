-- ===== src/LeaseController/Setup.antt =====
-- internal/controller/gpulease_controller.go: SetupWithManager, with the leases that each watched
-- event makes the controller reconcile.
use gpu_lease.Common.{ℕ, String, Option, none, some, List, [], ◌∷◌, or_default, get_or}
use gpu_lease.Objects.{GpuLease, Workload}
use gpu_lease.PodClient.{HttpClient, new_http_client}

-- What the reconciler calls the pods with: an HTTPClient, or another client.
pub data PodCaller (C : Type 0) : Type 0 where
  http : HttpClient → PodCaller C
  another : C → PodCaller C

-- GPULeaseReconciler, where `none` is nil. The clock is by what it reads.
pub record Reconciler (C Inventory Recorder : Type 0) : Type 0 where
  pub recorder : Option Recorder
  pub pod_client : Option (PodCaller C)
  pub inventory : Option Inventory
  pub clock : Option ℕ

module _ {C Inventory Recorder : Type 0} where
  -- now, where time.Now reads `time`
  unfoldable pub now : Reconciler C Inventory Recorder → (time : ℕ) → ℕ
  now r time = get_or r.clock time

  -- What SetupWithManager makes of the reconciler, where `new_inventory` is inventory.New of the
  -- manager's client and `event_recorder_for` the manager's GetEventRecorderFor.
  unfoldable pub set_up_with_manager :
      (new_inventory : Inventory)
      → (event_recorder_for : String → Recorder) → Reconciler C Inventory Recorder
      → Reconciler C Inventory Recorder
  set_up_with_manager new_inventory event_recorder_for r = record {
    recorder = or_default (event_recorder_for "gpulease-controller") r.recorder;
    pod_client = or_default (http new_http_client) r.pod_client;
    inventory = or_default new_inventory r.inventory;
    clock = r.clock;
  }

-- A watched object that was created, changed or deleted.
pub data Event : Type 0 where
  of_lease : GpuLease → Event
  of_workload : Workload → Event

abbrev pub owner_request : Option String → List String
owner_request none = []
owner_request (some name) = name ∷ []

-- For and Owns: the lease itself, and the lease that owns the Workload.
unfoldable pub requests : Event → List String
requests (of_lease lease) = lease.metadata.name ∷ []
requests (of_workload workload) = owner_request workload.owner
