-- ===== src/Tests/StoreServer.antt =====
-- An API server that stores leases in a list. A deletion leaves a lease stored, as the finalizer has it.
use gpu_lease.Common.{
  true, false, Option, none, some, List, [], ◌∷◌, str_eq, if◌then◌else◌, put, empty,
}
use gpu_lease.Names.{annotation_managed}
use gpu_lease.Objects.{GpuLease, new_status, Pod, Deployment, new_meta}
use gpu_lease.Exec.{Result, ok, err, not_found, already_exists, other}
use gpu_lease.Client.{Api}
use gpu_lease.Tests.Fixtures.{test_node, pod_named}
use gpu_lease.Tests.StoredLeases.{current, latest, has_uid, at_names}

-- The answers, by what is stored at the name of the request.
unfoldable pub found : Option GpuLease → Result GpuLease
found none = err not_found
found (some l) = ok l

-- A new object has its name for UID, and is refused where an object with that UID was stored.
unfoldable pub add : GpuLease → List GpuLease → Result GpuLease × List GpuLease
unfolding has_uid current
add l w =
    let l' : GpuLease = record l {
      metadata = record (l.metadata) { uid = l.metadata.name };
      status = new_status;
    } in
    if has_uid l.metadata.name w then (err already_exists, w) else (ok (current l'), l' ∷ w)

unfoldable pub change : GpuLease → Option GpuLease → List GpuLease → Result GpuLease × List GpuLease
unfolding current
change l none w = (err not_found, w)
change l (some x) w =
    let l' : GpuLease = record l {
      metadata = record (l.metadata) { uid = x.metadata.uid };
      status = x.status;
    } in
    (ok (current l'), l' ∷ w)

-- The status is taken only with the resource version that is stored.
unfoldable pub change_status :
    GpuLease → Option GpuLease → List GpuLease → Result GpuLease × List GpuLease
unfolding current
change_status l none w = (err not_found, w)
change_status l (some x) w =
    if str_eq l.metadata.resource_version x.metadata.resource_version
    then (ok (current (record x { status = l.status })), record x { status = l.status } ∷ w)
    else (err other, w)

abbrev pub managed : Deployment
managed = record {
  metadata = record (new_meta "ns" "dep" []) { annotations = put empty annotation_managed "true" };
  selector = some (some (record { matches = λ labels. true; is_empty = false }));
}

abbrev pub warm : Pod
warm = pod_named "pod-0" "node-a" 1

abbrev pub store_server : Api (List GpuLease)
store_server = record {
  now = λ w. (100, w);
  get_lease = λ name w. (found (latest w name), w);
  list_leases = λ w. (ok (at_names w w), w);
  create_lease = λ l w. add l w;
  update_lease = λ l w. change l (latest w l.metadata.name) w;
  update_lease_status = λ l w. change_status l (latest w l.metadata.name) w;
  delete_lease = λ l w. (ok tt, w);
  get_workload = λ ns name w. (err not_found, w);
  create_workload = λ wl w. (ok tt, w);
  delete_workload = λ ns name w. (ok tt, w);
  list_flavors = λ w. (ok [], w);
  get_pod = λ ns name w. (ok warm, w);
  list_pods = λ ns sel w. (ok (warm ∷ []), w);
  patch_pod = λ old new w. (ok new, w);
  get_node = λ name w. (ok test_node, w);
  list_nodes = λ w. (ok (test_node ∷ []), w);
  get_deployment = λ ns name w. (ok managed, w);
  pod_activate = λ ip req w. (none, w);
  pod_release = λ ip w. (none, w);
  pod_state = λ ip w. (none, w);
}
