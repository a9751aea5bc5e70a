-- ===== src/Memory/KueueCopies/Kinds.antt =====
-- What the structs of internal/kueue/v1beta2 read as, for the generated copies.
use gpu_lease.Common.{arith, ℕ, String, Option, List, Map, empty, refl}
use gpu_lease.Objects.{
  Meta, Condition, PodTemplate, PodSet, PodSetAssignment, Admission, WorkloadSpec, WorkloadStatus,
  Workload, ResourceFlavor,
}
use gpu_lease.Memory.{
  Addr, Kubernetes, TypeMeta, AssignmentStruct, AdmissionStruct, PodSetStruct, WorkloadSpecStruct,
  WorkloadStatusStruct, WorkloadStruct, FlavorSpecStruct, FlavorStruct, ListStruct,
}
use gpu_lease.Memory.Kind.{Kind, Deep, plain, Deep-plain, pair, Deep-pair, via, Deep-via}
use gpu_lease.Memory.Kind.Reference.{
  reference, Deep-reference, slice, pointer, Deep-slice, Deep-pointer,
}
use gpu_lease.Memory.MapCopies.{entries_kind, Deep-entries}
use gpu_lease.Memory.Slots.{
  conditions_slot, entries_slot, assignments_slot, admissions_slot, pod_sets_slot, workloads_slot,
  flavors_slot,
}
use gpu_lease.Memory.Embedded.{
  Embedded, Documented, Root, RootList, list_parts, list_values, build_list,
}
use gpu_lease.Memory.KueueCopies.{
  deep_copy_into_assignment, deep_copy_into_admission, deep_copy_into_pod_set,
  deep_copy_into_workload_spec, deep_copy_into_workload_status, deep_copy_into_workload,
  deep_copy_into_workload_list, deep_copy_into_flavor_spec, deep_copy_into_flavor,
  deep_copy_into_flavor_list,
}

-- map[string]string
module _ {K : Kubernetes} where
  abbrev pub map_kind : Kind K (Option Addr) (Map String)
  map_kind = reference entries_slot entries_kind empty (λ v. v)

  pub Deep-map : Deep map_kind
  Deep-map = Deep-reference entries_slot Deep-entries

module _ {K : Kubernetes} (api : Embedded K) where
  abbrev pub assignment_parts : AssignmentStruct → String × Option Addr
  assignment_parts s = (s.name, s.flavors)

  abbrev pub assignment_values : PodSetAssignment → String × Map String
  assignment_values v = (v.name, v.flavors)

  abbrev pub assignment_kind : Kind K AssignmentStruct PodSetAssignment
  assignment_kind =
      via (pair plain map_kind) assignment_parts assignment_values (deep_copy_into_assignment api)

  abbrev pub admission_parts : AdmissionStruct → String × Option Addr
  admission_parts s = (s.cluster_queue, s.pod_set_assignments)

  abbrev pub admission_values : Admission → String × List PodSetAssignment
  admission_values v = (v.cluster_queue, v.pod_set_assignments)

  abbrev pub admission_kind : Kind K AdmissionStruct Admission
  admission_kind =
      via (pair plain (slice assignments_slot assignment_kind)) admission_parts admission_values
        (deep_copy_into_admission api)

  abbrev pub pod_set_parts : PodSetStruct K → (String × ℕ) × K.pod_template
  pod_set_parts s = ((s.name, s.count), s.template)

  abbrev pub pod_set_values : PodSet → (String × ℕ) × PodTemplate
  pod_set_values v = ((v.name, v.count), v.template)

  abbrev pub pod_set_kind : Kind K (PodSetStruct K) PodSet
  pod_set_kind =
      via (pair plain api.pod_template) pod_set_parts pod_set_values (deep_copy_into_pod_set api)

  abbrev pub workload_spec_parts : WorkloadSpecStruct → (String × String) × Option Addr
  workload_spec_parts s = ((s.queue_name, s.priority_class_name), s.pod_sets)

  abbrev pub workload_spec_values : WorkloadSpec → (String × String) × List PodSet
  workload_spec_values v = ((v.queue_name, v.priority_class_name), v.pod_sets)

  abbrev pub workload_spec_kind : Kind K WorkloadSpecStruct WorkloadSpec
  workload_spec_kind =
      via (pair plain (slice pod_sets_slot pod_set_kind)) workload_spec_parts workload_spec_values
        (deep_copy_into_workload_spec api)

  abbrev pub workload_status_parts : WorkloadStatusStruct → Option Addr × Option Addr
  workload_status_parts s = (s.conditions, s.admission)

  abbrev pub workload_status_values : WorkloadStatus → List Condition × Option Admission
  workload_status_values v = (v.conditions, v.admission)

  abbrev pub workload_status_kind : Kind K WorkloadStatusStruct WorkloadStatus
  workload_status_kind =
      via (pair (slice conditions_slot api.condition) (pointer admissions_slot admission_kind))
        workload_status_parts workload_status_values (deep_copy_into_workload_status api)

  abbrev pub workload_parts :
      WorkloadStruct K → TypeMeta × (K.object_meta × (WorkloadSpecStruct × WorkloadStatusStruct))
  workload_parts s = (s.type_meta, (s.object_meta, (s.spec, s.status)))

  abbrev pub workload_values :
      TypeMeta × Workload → TypeMeta × ((Meta × Option String) × (WorkloadSpec × WorkloadStatus))
  workload_values v = (v.0, ((v.1.metadata, v.1.owner), (v.1.spec, v.1.status)))

  abbrev pub workload_kind : Kind K (WorkloadStruct K) (TypeMeta × Workload)
  workload_kind =
      via (pair plain (pair api.object_meta (pair workload_spec_kind workload_status_kind)))
        workload_parts workload_values (deep_copy_into_workload api)

  abbrev pub flavor_spec_parts : FlavorSpecStruct → Option Addr
  flavor_spec_parts s = s.node_labels

  abbrev pub flavor_spec_kind : Kind K FlavorSpecStruct (Map String)
  flavor_spec_kind = via map_kind flavor_spec_parts (λ v. v) (deep_copy_into_flavor_spec api)

  abbrev pub flavor_parts : FlavorStruct K → TypeMeta × (K.object_meta × FlavorSpecStruct)
  flavor_parts s = (s.type_meta, (s.object_meta, s.spec))

  abbrev pub flavor_values : Root ResourceFlavor → TypeMeta × ((Meta × Option String) × Map String)
  flavor_values v = (v.type_meta, ((v.object.metadata, v.owner), v.object.node_labels))

  abbrev pub flavor_kind : Kind K (FlavorStruct K) (Root ResourceFlavor)
  flavor_kind =
      via (pair plain (pair api.object_meta flavor_spec_kind)) flavor_parts flavor_values
        (deep_copy_into_flavor api)

  abbrev pub workload_list_kind : Kind K (ListStruct K) (RootList K (TypeMeta × Workload))
  workload_list_kind =
      via (pair plain (pair api.list_meta (slice workloads_slot workload_kind))) list_parts
        list_values (deep_copy_into_workload_list api)

  abbrev pub flavor_list_kind : Kind K (ListStruct K) (RootList K (Root ResourceFlavor))
  flavor_list_kind =
      via (pair plain (pair api.list_meta (slice flavors_slot flavor_kind))) list_parts list_values
        (deep_copy_into_flavor_list api)

  module _ (doc : Documented api) where
    pub Deep-assignment : Deep assignment_kind
    unfolding deep_copy_into_assignment pair
    Deep-assignment =
        Deep-via (pair plain map_kind) assignment_parts assignment_values
          (λ s a. record { name = a.0; flavors = a.1 }) (λ s a. refl) (λ s m. ground arith)
          (Deep-pair Deep-plain Deep-map)

    pub Deep-admission : Deep admission_kind
    unfolding deep_copy_into_admission pair
    Deep-admission =
        Deep-via (pair plain (slice assignments_slot assignment_kind)) admission_parts
          admission_values (λ s a. record { cluster_queue = a.0; pod_set_assignments = a.1 })
          (λ s a. refl) (λ s m. ground arith)
          (Deep-pair Deep-plain (Deep-slice assignments_slot Deep-assignment))

    pub Deep-pod_set : Deep pod_set_kind
    unfolding deep_copy_into_pod_set pair
    Deep-pod_set =
        Deep-via (pair plain api.pod_template) pod_set_parts pod_set_values
          (λ s a. record { name = a.0.0; count = a.0.1; template = a.1 }) (λ s a. refl)
          (λ s m. ground arith) (Deep-pair Deep-plain doc.pod_template)

    pub Deep-workload_spec : Deep workload_spec_kind
    unfolding deep_copy_into_workload_spec pair
    Deep-workload_spec =
        Deep-via (pair plain (slice pod_sets_slot pod_set_kind)) workload_spec_parts
          workload_spec_values
          (λ s a. record { queue_name = a.0.0; priority_class_name = a.0.1; pod_sets = a.1 })
          (λ s a. refl) (λ s m. ground arith)
          (Deep-pair Deep-plain (Deep-slice pod_sets_slot Deep-pod_set))

    pub Deep-workload_status : Deep workload_status_kind
    unfolding deep_copy_into_workload_status pair
    Deep-workload_status =
        Deep-via
          (pair (slice conditions_slot api.condition) (pointer admissions_slot admission_kind))
          workload_status_parts workload_status_values
          (λ s a. record { conditions = a.0; admission = a.1 }) (λ s a. refl) (λ s m. ground arith)
          (Deep-pair (Deep-slice conditions_slot doc.condition)
            (Deep-pointer admissions_slot Deep-admission))

    pub Deep-workload : Deep workload_kind
    unfolding deep_copy_into_workload pair
    Deep-workload =
        Deep-via (pair plain (pair api.object_meta (pair workload_spec_kind workload_status_kind)))
          workload_parts workload_values
          (λ s a. record { type_meta = a.0; object_meta = a.1.0; spec = a.1.1.0; status = a.1.1.1 })
          (λ s a. refl) (λ s m. ground arith)
          (Deep-pair Deep-plain
            (Deep-pair doc.object_meta (Deep-pair Deep-workload_spec Deep-workload_status)))

    pub Deep-flavor_spec : Deep flavor_spec_kind
    unfolding deep_copy_into_flavor_spec
    Deep-flavor_spec =
        Deep-via map_kind flavor_spec_parts (λ v. v) (λ s a. record { node_labels = a })
          (λ s a. refl) (λ s m. refl) Deep-map

    pub Deep-flavor : Deep flavor_kind
    unfolding deep_copy_into_flavor pair
    Deep-flavor =
        Deep-via (pair plain (pair api.object_meta flavor_spec_kind)) flavor_parts flavor_values
          (λ s a. record { type_meta = a.0; object_meta = a.1.0; spec = a.1.1 }) (λ s a. refl)
          (λ s m. ground arith) (Deep-pair Deep-plain (Deep-pair doc.object_meta Deep-flavor_spec))

    pub Deep-workload_list : Deep workload_list_kind
    unfolding deep_copy_into_workload_list pair
    Deep-workload_list =
        Deep-via (pair plain (pair api.list_meta (slice workloads_slot workload_kind))) list_parts
          list_values build_list (λ l a. refl) (λ l m. ground arith)
          (Deep-pair Deep-plain (Deep-pair doc.list_meta (Deep-slice workloads_slot Deep-workload)))

    pub Deep-flavor_list : Deep flavor_list_kind
    unfolding deep_copy_into_flavor_list pair
    Deep-flavor_list =
        Deep-via (pair plain (pair api.list_meta (slice flavors_slot flavor_kind))) list_parts
          list_values build_list (λ l a. refl) (λ l m. ground arith)
          (Deep-pair Deep-plain (Deep-pair doc.list_meta (Deep-slice flavors_slot Deep-flavor)))
