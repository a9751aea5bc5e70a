-- ===== src/Client.antt =====
-- What the controllers take from outside: the API server behind controller-runtime's client.Client,
-- the clock, the pods behind podclient.Client, and apimachinery's helpers. All are arguments of the
-- code; `W` is the state of whatever answers, which may also change between two calls.
pub mod Neutral
use gpu_lease.Common.{ℕ, String, Bool, Option, List, ℤ}
use gpu_lease.Objects.{
  GpuLease, Workload, WorkloadSpec, ResourceFlavor, Pod, Node, Deployment, Selector, Condition,
  Meta,
}
use gpu_lease.PodClient.{ActivateRequest, StateResponse, PodError}
use gpu_lease.Exec.{Result}

-- A write returns the object as the server stored it.
pub record Api (W : Type 0) : Type 0 where
  pub now : W → ℕ × W
  pub get_lease : (name : String) → W → Result GpuLease × W
  pub list_leases : W → Result (List GpuLease) × W
  pub create_lease : GpuLease → W → Result GpuLease × W
  pub update_lease : GpuLease → W → Result GpuLease × W
  pub update_lease_status : GpuLease → W → Result GpuLease × W
  pub delete_lease : GpuLease → W → Result (Unit {0}) × W
  pub get_workload : (namespace name : String) → W → Result Workload × W
  pub create_workload : Workload → W → Result (Unit {0}) × W
  pub delete_workload : (namespace name : String) → W → Result (Unit {0}) × W
  pub list_flavors : W → Result (List ResourceFlavor) × W
  pub get_pod : (namespace name : String) → W → Result Pod × W
  pub list_pods : (namespace : String) → Selector → W → Result (List Pod) × W
  pub patch_pod : (orig modified : Pod) → W → Result Pod × W
  pub get_node : (name : String) → W → Result Node × W
  pub list_nodes : W → Result (List Node) × W
  pub get_deployment : (namespace name : String) → W → Result Deployment × W
  pub pod_activate : (pod_ip : String) → ActivateRequest → W → Option PodError × W
  pub pod_release : (pod_ip : String) → W → Option PodError × W
  pub pod_state : (pod_ip : String) → W → Option StateResponse × W

-- meta.FindStatusCondition and meta.SetStatusCondition, controllerutil's finalizers, Semantic.DeepEqual
-- and time.ParseDuration.
pub record Machinery : Type 0 where
  pub find_status_condition : List Condition → String → Option Condition
  pub set_status_condition : List Condition → Condition → (now : ℕ) → List Condition
  pub contains_finalizer : Meta → String → Bool
  pub add_finalizer : Meta → String → Meta
  pub remove_finalizer : Meta → String → Meta
  pub set_controller_reference : (owner : GpuLease) → Workload → Result Workload
  pub spec_equal : WorkloadSpec → WorkloadSpec → Bool
  pub parse_duration : String → Option ℤ
