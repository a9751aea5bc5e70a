-- ===== src/Tests/AdvanceExamples.antt =====
-- A lease whose pod has become hot, before an API server, a Kueue and a pod that cooperate.
use gpu_lease.Common.{refl, none, some, pos, [], ◌∷◌, ◌≡◌}
use gpu_lease.Objects.{GpuLease, LeasePhase, admitted, activating, bound, Workload, Condition, text}
use gpu_lease.Exec.{ok, err, not_found, already_exists, State}
use gpu_lease.Client.Neutral.{Neutral}
use gpu_lease.LeaseController.Reconcile.Arrives.{reconcile-IsAt}
use gpu_lease.LeaseController.Reconcile.Stored.{Stores, Same, IsAt}
use gpu_lease.Exec.Known.{Advances}
use gpu_lease.PodClient.{StateResponse}
use gpu_lease.Client.{Api, Machinery}
use gpu_lease.Pods.{lease_orphan_reason, orphan_reason_of, deselected, is_pod_ready}
use gpu_lease.Kueue.{
  build_workload, workload_matches_spec, is_workload_admitted, condition_of, found_with,
}
use gpu_lease.LeaseController.Phases.{reports_hot}
use gpu_lease.LeaseController.Reconcile.{reconcile}
use gpu_lease.LeaseController.Reconcile.Advances.{
  WritesPhase, Cooperates, of_activating, reconcile-Advances,
}
use gpu_lease.Tests.Fixtures.{World, test_node, test_api, test_machinery, lease_on, pod_named}

abbrev warming_lease : GpuLease
warming_lease = lease_on "node-a" (pos 0) activating none

abbrev admitted_workload : Workload
admitted_workload = build_workload warming_lease

abbrev hot_answer : StateResponse
hot_answer = record { state = "hot"; lease_name = "lease"; node = "node-a"; gpu_id = pos 0 }

abbrev helpful_api : Api World
helpful_api = record test_api {
  get_lease = λ name w. (ok warming_lease, w);
  get_workload = λ ns name w. (ok admitted_workload, w);
  pod_state = λ ip w. (some hot_answer, w);
}

abbrev is_true : Condition
is_true = record {
  type = "Admitted";
  status = "True";
  observed_generation = 1;
  last_transition_time = 5;
  reason = "Admitted";
  message = text "";
}

abbrev helpful_machinery : Machinery
helpful_machinery = record test_machinery { find_status_condition = λ cs type. some is_true }

helpful_api-Cooperates : Cooperates helpful_api helpful_machinery warming_lease
unfolding workload_matches_spec is_workload_admitted condition_of found_with lease_orphan_reason
    orphan_reason_of deselected is_pod_ready reports_hot
helpful_api-Cooperates = record {
  workload = admitted_workload;
  pod = pod_named "pod-0" "node-a" 1;
  answer = hot_answer;
  gets_workload = λ w. refl;
  matches = refl;
  is_admitted = refl;
  gets_pod = λ w. refl;
  claims = refl;
  has_ip = refl;
  accepts = λ w. refl;
  reads_state = λ w. refl;
  is_hot = refl;
  patches = record { answer = λ w. (_, refl) };
  writes = λ l. record { answer = λ w. (l, refl) };
}

reconcile-Advances_example :
    Advances (WritesPhase warming_lease bound) (reconcile helpful_api helpful_machinery "lease")
reconcile-Advances_example =
    reconcile-Advances helpful_api helpful_machinery "lease" warming_lease bound (λ w. refl) refl
      refl of_activating helpful_api-Cooperates

-- An API server that has one lease, and puts the status into it that a write has.
abbrev one_lease : GpuLease → GpuLease → GpuLease
one_lease x w = record w {
  status = x.status;
  metadata = record (w.metadata) { resource_version = x.metadata.resource_version };
}

abbrev lease_server : Api GpuLease
lease_server = record {
  now = λ w. (100, w);
  get_lease = λ name w. (ok w, w);
  list_leases = λ w. (ok (w ∷ []), w);
  create_lease = λ l w. (err already_exists, w);
  update_lease = λ l w. (ok w, w);
  update_lease_status = λ l w. (ok (one_lease l w), one_lease l w);
  delete_lease = λ l w. (ok tt, w);
  get_workload = λ ns name w. (ok admitted_workload, w);
  create_workload = λ wl w. (ok tt, w);
  delete_workload = λ ns name w. (ok tt, w);
  list_flavors = λ w. (ok [], w);
  get_pod = λ ns name w. (ok (pod_named "pod-0" "node-a" 1), w);
  list_pods = λ ns sel w. (ok [], w);
  patch_pod = λ old new w. (ok new, w);
  get_node = λ name w. (ok test_node, w);
  list_nodes = λ w. (ok [], w);
  get_deployment = λ ns name w. (err not_found, w);
  pod_activate = λ ip req w. (none, w);
  pod_release = λ ip w. (none, w);
  pod_state = λ ip w. (some hot_answer, w);
}

abbrev new_lease : GpuLease
new_lease = lease_on "node-a" (pos 0) LeasePhase.unset none

lease_server-Neutral : (Q : GpuLease → Type 0) → Neutral (λ s. Q s.world) lease_server
lease_server-Neutral Q = record {
  now = λ s h. h;
  get_lease = λ n s h. h;
  list_leases = λ s h. h;
  get_workload = λ ns n s h. h;
  list_flavors = λ s h. h;
  get_pod = λ ns n s h. h;
  list_pods = λ ns sel s h. h;
  get_node = λ n s h. h;
  list_nodes = λ s h. h;
  get_deployment = λ ns n s h. h;
  pod_state = λ ip s h. h;
  create_workload = λ wl ns n s e h. h;
  delete_workload = λ ns n s e h. h;
  patch = λ old new s e h. h;
  activates = λ ip req s e h. h;
  releases = λ ip s e h. h;
  events = λ r s h. h;
  failures = λ d r s h. h;
  promotions = λ s h. h;
  node_gauges = λ g m s h. h;
  pool_gauges = λ ns d hot warm desired s h. h;
  demotions = λ s h. h;
}

lease_server-Stores : Stores lease_server "lease" (λ w. w)
lease_server-Stores = record {
  gets = λ w. refl;
  neutral = lease_server-Neutral;
  puts_status = λ l w. refl;
  keeps_rest =
      λ l w. record { version = l.metadata.resource_version; spec = refl; metadata = refl };
}

still_claimed :
    (m : GpuLease)
    → Same new_lease m
    → lease_orphan_reason (some (pod_named "pod-0" "node-a" 1)) m none ≡ ""
unfolding lease_orphan_reason orphan_reason_of deselected is_pod_ready
still_claimed m same = rw same.spec refl

lease_server-Cooperates :
    (m : GpuLease) → Same new_lease m → Cooperates lease_server helpful_machinery m
unfolding workload_matches_spec is_workload_admitted condition_of found_with reports_hot
lease_server-Cooperates m same = record {
  workload = admitted_workload;
  pod = pod_named "pod-0" "node-a" 1;
  answer = hot_answer;
  gets_workload = λ w. refl;
  matches = refl;
  is_admitted = refl;
  gets_pod = λ w. refl;
  claims = still_claimed m same;
  has_ip = refl;
  accepts = λ w. refl;
  reads_state = λ w. refl;
  is_hot = refl;
  patches = record { answer = λ w. (_, refl) };
  writes = λ l. record { answer = λ w. (one_lease l w, refl) };
}

abbrev at_first : State GpuLease
at_first = record { world = new_lease; trace = [] }

abbrev reconciled : State GpuLease → State GpuLease
reconciled s = (reconcile lease_server helpful_machinery "lease" s).1

reconcile-IsAt_example :
    IsAt admitted new_lease (reconciled at_first).world
    × IsAt activating new_lease (reconciled (reconciled at_first)).world
    × IsAt bound new_lease (reconciled (reconciled (reconciled at_first))).world
reconcile-IsAt_example =
    reconcile-IsAt lease_server helpful_machinery "lease" (λ w. w) lease_server-Stores new_lease
      lease_server-Cooperates at_first refl refl refl (λ v. refl)
