-- ===== src/Memory/Slots.antt =====
-- How the cells hold what is of each type.
use gpu_lease.Common.{Option, none, some, List, refl}
use gpu_lease.Names.Settings.{DeploymentSettings}
use gpu_lease.Objects.{ObjectRef, LeaseSpec}
use gpu_lease.Memory.{
  Kubernetes, Cell, Entries, StatusStruct, ListStruct, LeaseStruct, AssignmentStruct,
  AdmissionStruct, PodSetStruct, WorkloadSpecStruct, WorkloadStatusStruct, WorkloadStruct,
  FlavorSpecStruct, FlavorStruct, conditions, settings, object_refs, lease_specs, statuses, leases,
  lease_lists, assignments, admissions, pod_sets, workload_specs, workload_statuses, workloads,
  workload_lists, flavor_specs, flavors, flavor_lists, entries,
}
use gpu_lease.Memory.Command.{Slot}

module _ {K : Kubernetes} where
  abbrev pub get_conditions : Cell K → Option (List (K.condition))
  get_conditions (conditions x) = some x
  get_conditions _ = none

  abbrev pub conditions_slot : Slot K (List (K.condition))
  conditions_slot = record { put = conditions; get = get_conditions; get-put = λ _. refl }

  abbrev pub get_settings : Cell K → Option (List (DeploymentSettings))
  get_settings (settings x) = some x
  get_settings _ = none

  abbrev pub settings_slot : Slot K (List (DeploymentSettings))
  settings_slot = record { put = settings; get = get_settings; get-put = λ _. refl }

  abbrev pub get_object_refs : Cell K → Option (List (ObjectRef))
  get_object_refs (object_refs x) = some x
  get_object_refs _ = none

  abbrev pub object_refs_slot : Slot K (List (ObjectRef))
  object_refs_slot = record { put = object_refs; get = get_object_refs; get-put = λ _. refl }

  abbrev pub get_lease_specs : Cell K → Option (List (LeaseSpec))
  get_lease_specs (lease_specs x) = some x
  get_lease_specs _ = none

  abbrev pub lease_specs_slot : Slot K (List (LeaseSpec))
  lease_specs_slot = record { put = lease_specs; get = get_lease_specs; get-put = λ _. refl }

  abbrev pub get_statuses : Cell K → Option (List (StatusStruct))
  get_statuses (statuses x) = some x
  get_statuses _ = none

  abbrev pub statuses_slot : Slot K (List (StatusStruct))
  statuses_slot = record { put = statuses; get = get_statuses; get-put = λ _. refl }

  abbrev pub get_leases : Cell K → Option (List (LeaseStruct K))
  get_leases (leases x) = some x
  get_leases _ = none

  abbrev pub leases_slot : Slot K (List (LeaseStruct K))
  leases_slot = record { put = leases; get = get_leases; get-put = λ _. refl }

  abbrev pub get_lease_lists : Cell K → Option (List (ListStruct K))
  get_lease_lists (lease_lists x) = some x
  get_lease_lists _ = none

  abbrev pub lease_lists_slot : Slot K (List (ListStruct K))
  lease_lists_slot = record { put = lease_lists; get = get_lease_lists; get-put = λ _. refl }

  abbrev pub get_assignments : Cell K → Option (List (AssignmentStruct))
  get_assignments (assignments x) = some x
  get_assignments _ = none

  abbrev pub assignments_slot : Slot K (List (AssignmentStruct))
  assignments_slot = record { put = assignments; get = get_assignments; get-put = λ _. refl }

  abbrev pub get_admissions : Cell K → Option (List (AdmissionStruct))
  get_admissions (admissions x) = some x
  get_admissions _ = none

  abbrev pub admissions_slot : Slot K (List (AdmissionStruct))
  admissions_slot = record { put = admissions; get = get_admissions; get-put = λ _. refl }

  abbrev pub get_pod_sets : Cell K → Option (List (PodSetStruct K))
  get_pod_sets (pod_sets x) = some x
  get_pod_sets _ = none

  abbrev pub pod_sets_slot : Slot K (List (PodSetStruct K))
  pod_sets_slot = record { put = pod_sets; get = get_pod_sets; get-put = λ _. refl }

  abbrev pub get_workload_specs : Cell K → Option (List (WorkloadSpecStruct))
  get_workload_specs (workload_specs x) = some x
  get_workload_specs _ = none

  abbrev pub workload_specs_slot : Slot K (List (WorkloadSpecStruct))
  workload_specs_slot = record {
    put = workload_specs;
    get = get_workload_specs;
    get-put = λ _. refl;
  }

  abbrev pub get_workload_statuses : Cell K → Option (List (WorkloadStatusStruct))
  get_workload_statuses (workload_statuses x) = some x
  get_workload_statuses _ = none

  abbrev pub workload_statuses_slot : Slot K (List (WorkloadStatusStruct))
  workload_statuses_slot = record {
    put = workload_statuses;
    get = get_workload_statuses;
    get-put = λ _. refl;
  }

  abbrev pub get_workloads : Cell K → Option (List (WorkloadStruct K))
  get_workloads (workloads x) = some x
  get_workloads _ = none

  abbrev pub workloads_slot : Slot K (List (WorkloadStruct K))
  workloads_slot = record { put = workloads; get = get_workloads; get-put = λ _. refl }

  abbrev pub get_workload_lists : Cell K → Option (List (ListStruct K))
  get_workload_lists (workload_lists x) = some x
  get_workload_lists _ = none

  abbrev pub workload_lists_slot : Slot K (List (ListStruct K))
  workload_lists_slot = record {
    put = workload_lists;
    get = get_workload_lists;
    get-put = λ _. refl;
  }

  abbrev pub get_flavor_specs : Cell K → Option (List (FlavorSpecStruct))
  get_flavor_specs (flavor_specs x) = some x
  get_flavor_specs _ = none

  abbrev pub flavor_specs_slot : Slot K (List (FlavorSpecStruct))
  flavor_specs_slot = record { put = flavor_specs; get = get_flavor_specs; get-put = λ _. refl }

  abbrev pub get_flavors : Cell K → Option (List (FlavorStruct K))
  get_flavors (flavors x) = some x
  get_flavors _ = none

  abbrev pub flavors_slot : Slot K (List (FlavorStruct K))
  flavors_slot = record { put = flavors; get = get_flavors; get-put = λ _. refl }

  abbrev pub get_flavor_lists : Cell K → Option (List (ListStruct K))
  get_flavor_lists (flavor_lists x) = some x
  get_flavor_lists _ = none

  abbrev pub flavor_lists_slot : Slot K (List (ListStruct K))
  flavor_lists_slot = record { put = flavor_lists; get = get_flavor_lists; get-put = λ _. refl }

  abbrev pub get_entries : Cell K → Option (Entries)
  get_entries (entries x) = some x
  get_entries _ = none

  abbrev pub entries_slot : Slot K (Entries)
  entries_slot = record { put = entries; get = get_entries; get-put = λ _. refl }
