-- ===== src/Memory/KueueCopies.antt =====
-- internal/kueue/v1beta2/zz_generated.deepcopy.go
pub mod Kinds
use gpu_lease.Common.{Option}
use gpu_lease.Memory.{
  Addr, Kubernetes, AssignmentStruct, AdmissionStruct, PodSetStruct, WorkloadSpecStruct,
  WorkloadStatusStruct, WorkloadStruct, FlavorSpecStruct, FlavorStruct, ListStruct,
}
use gpu_lease.Memory.Command.{Command, return, ◌>>=◌, copy_at, copy_slice, copy_pointer}
use gpu_lease.Memory.MapCopies.{copy_entries}
use gpu_lease.Memory.Slots.{
  conditions_slot, entries_slot, assignments_slot, admissions_slot, pod_sets_slot,
  workload_specs_slot, workload_statuses_slot, workloads_slot, workload_lists_slot,
  flavor_specs_slot, flavors_slot, flavor_lists_slot,
}
use gpu_lease.Memory.Embedded.{Embedded}

module _ {K : Kubernetes} (api : Embedded K) where
  unfoldable pub deep_copy_into_assignment : AssignmentStruct → Command K AssignmentStruct
  deep_copy_into_assignment a = do
    flavors ← copy_at entries_slot copy_entries a.flavors
    return (record a { flavors = flavors })

  unfoldable pub deep_copy_into_admission : AdmissionStruct → Command K AdmissionStruct
  deep_copy_into_admission a = do
    assignments ← copy_slice assignments_slot deep_copy_into_assignment a.pod_set_assignments
    return (record a { pod_set_assignments = assignments })

  unfoldable pub deep_copy_into_pod_set : PodSetStruct K → Command K (PodSetStruct K)
  deep_copy_into_pod_set s = do
    template ← api.pod_template.copy s.template
    return (record s { template = template })

  unfoldable pub deep_copy_into_workload_spec : WorkloadSpecStruct → Command K WorkloadSpecStruct
  deep_copy_into_workload_spec s = do
    pod_sets ← copy_slice pod_sets_slot deep_copy_into_pod_set s.pod_sets
    return (record s { pod_sets = pod_sets })

  unfoldable pub deep_copy_admission : Option Addr → Command K (Option Addr)
  deep_copy_admission = copy_pointer admissions_slot deep_copy_into_admission

  unfoldable pub deep_copy_into_workload_status :
      WorkloadStatusStruct → Command K WorkloadStatusStruct
  deep_copy_into_workload_status s = do
    conditions ← copy_slice conditions_slot api.condition.copy s.conditions
    admission ← copy_pointer admissions_slot deep_copy_into_admission s.admission
    return (record s { conditions = conditions; admission = admission })

  unfoldable pub deep_copy_into_workload : WorkloadStruct K → Command K (WorkloadStruct K)
  deep_copy_into_workload w = do
    object_meta ← api.object_meta.copy w.object_meta
    spec ← deep_copy_into_workload_spec w.spec
    status ← deep_copy_into_workload_status w.status
    return (record w { object_meta = object_meta; spec = spec; status = status })

  unfoldable pub deep_copy_into_workload_list : ListStruct K → Command K (ListStruct K)
  deep_copy_into_workload_list l = do
    list_meta ← api.list_meta.copy l.list_meta
    items ← copy_slice workloads_slot deep_copy_into_workload l.items
    return (record l { list_meta = list_meta; items = items })

  unfoldable pub deep_copy_into_flavor_spec : FlavorSpecStruct → Command K FlavorSpecStruct
  deep_copy_into_flavor_spec s = do
    node_labels ← copy_at entries_slot copy_entries s.node_labels
    return (record s { node_labels = node_labels })

  unfoldable pub deep_copy_into_flavor : FlavorStruct K → Command K (FlavorStruct K)
  deep_copy_into_flavor f = do
    object_meta ← api.object_meta.copy f.object_meta
    spec ← deep_copy_into_flavor_spec f.spec
    return (record f { object_meta = object_meta; spec = spec })

  unfoldable pub deep_copy_into_flavor_list : ListStruct K → Command K (ListStruct K)
  deep_copy_into_flavor_list l = do
    list_meta ← api.list_meta.copy l.list_meta
    items ← copy_slice flavors_slot deep_copy_into_flavor l.items
    return (record l { list_meta = list_meta; items = items })

  unfoldable pub deep_copy_assignment : Option Addr → Command K (Option Addr)
  deep_copy_assignment = copy_pointer assignments_slot deep_copy_into_assignment

  unfoldable pub deep_copy_pod_set : Option Addr → Command K (Option Addr)
  deep_copy_pod_set = copy_pointer pod_sets_slot deep_copy_into_pod_set

  unfoldable pub deep_copy_workload_spec : Option Addr → Command K (Option Addr)
  deep_copy_workload_spec = copy_pointer workload_specs_slot deep_copy_into_workload_spec

  unfoldable pub deep_copy_workload_status : Option Addr → Command K (Option Addr)
  deep_copy_workload_status = copy_pointer workload_statuses_slot deep_copy_into_workload_status

  unfoldable pub deep_copy_workload : Option Addr → Command K (Option Addr)
  deep_copy_workload = copy_pointer workloads_slot deep_copy_into_workload

  unfoldable pub deep_copy_workload_list : Option Addr → Command K (Option Addr)
  deep_copy_workload_list = copy_pointer workload_lists_slot deep_copy_into_workload_list

  unfoldable pub deep_copy_flavor_spec : Option Addr → Command K (Option Addr)
  deep_copy_flavor_spec = copy_pointer flavor_specs_slot deep_copy_into_flavor_spec

  unfoldable pub deep_copy_flavor : Option Addr → Command K (Option Addr)
  deep_copy_flavor = copy_pointer flavors_slot deep_copy_into_flavor

  unfoldable pub deep_copy_flavor_list : Option Addr → Command K (Option Addr)
  deep_copy_flavor_list = copy_pointer flavor_lists_slot deep_copy_into_flavor_list
