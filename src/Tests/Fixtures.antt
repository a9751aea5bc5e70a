-- ===== src/Tests/Fixtures.antt =====
-- A small cluster for the examples: one node with two GPUs, and an API server that answers every call.
use gpu_lease.Common.{some, ℕ, String, true, Option, none, List, [], ◌∷◌, empty, put, ℤ, pos}
use gpu_lease.Names.{finalizer, node_label_gpu_count}
use gpu_lease.Objects.{GpuLease, LeasePhase, Pod, Node, new_meta, new_status}
use gpu_lease.Exec.{State, ok, err, not_found}
use gpu_lease.Client.{Api, Machinery}

-- What the API server stores.
pub record World : Type 0 where
  pub clock : ℕ
  pub leases : List GpuLease
  pub nodes : List Node
  pub pods : List Pod

abbrev pub lease_on : String → ℤ → LeasePhase → Option ℕ → GpuLease
lease_on node id phase deleted = record {
  metadata = record (new_meta "" "lease" (finalizer ∷ [])) { deletion_timestamp = deleted };
  spec = record {
    node_name = node;
    gpu_id = id;
    gpu_model = "H100";
    claim_ref = record { namespace = "ns"; name = "pod-0"; uid = "u0" };
    deployment_ref = record { namespace = "ns"; name = "dep"; uid = "d0" };
    local_queue_name = "dep-lq";
  };
  status = record new_status { phase = phase };
}

abbrev pub test_node : Node
test_node = record {
  metadata = record (new_meta "" "node-a" []) { labels = put empty node_label_gpu_count "2" };
}

abbrev pub pod_named : String → String → ℕ → Pod
pod_named name node created = record {
  metadata = record (new_meta "ns" name []) { uid = "u0"; creation_timestamp = created };
  node_name = node;
  phase = "Running";
  conditions = record { type = "Ready"; status = "True" } ∷ [];
  pod_ip = "10.0.0.1";
}

abbrev pub test_world : World
test_world = record {
  clock = 100;
  leases = lease_on "node-a" (pos 0) LeasePhase.bound none ∷ [];
  nodes = test_node ∷ [];
  pods = pod_named "pod-0" "node-a" 1 ∷ [];
}

abbrev pub test_state : State World
test_state = record { world = test_world; trace = [] }

-- Every write is taken, every pod answers, and a get of an object that is not there is a NotFound.
abbrev pub test_api : Api World
test_api = record {
  now = λ w. (w.clock, w);
  get_lease = λ name w. (err not_found, w);
  list_leases = λ w. (ok w.leases, w);
  create_lease = λ l w. (ok l, w);
  update_lease = λ l w. (ok l, w);
  update_lease_status = λ l w. (ok l, w);
  delete_lease = λ l w. (ok tt, w);
  get_workload = λ ns name w. (err not_found, w);
  create_workload = λ wl w. (ok tt, w);
  delete_workload = λ ns name w. (ok tt, w);
  list_flavors = λ w. (ok [], w);
  get_pod = λ ns name w. (ok (pod_named "pod-0" "node-a" 1), w);
  list_pods = λ ns sel w. (ok w.pods, w);
  patch_pod = λ old new w. (ok new, w);
  get_node = λ name w. (ok test_node, w);
  list_nodes = λ w. (ok w.nodes, w);
  get_deployment = λ ns name w. (err not_found, w);
  pod_activate = λ ip req w. (none, w);
  pod_release = λ ip w. (none, w);
  pod_state = λ ip w. (none, w);
}

abbrev pub test_machinery : Machinery
test_machinery = record {
  find_status_condition = λ cs type. none;
  set_status_condition = λ cs c now. c ∷ cs;
  contains_finalizer = λ m f. true;
  add_finalizer = λ m f. record m { finalizers = f ∷ m.finalizers };
  remove_finalizer = λ m f. record m { finalizers = [] };
  set_controller_reference = λ l wl. ok (record wl { owner = some l.metadata.name });
  spec_equal = λ a b. true;
  parse_duration = λ s. none;
}
