-- ===== src/Kueue.antt =====
-- internal/controller/kueue.go: the Workload that stands for a lease, and what its conditions say.
use gpu_lease.Common.{
  ℕ, String, Bool, false, Option, none, some, List, [], ◌∷◌, str_eq, ◌&&◌, get_or, if◌then◌else◌,
}
use gpu_lease.Names.{kueue_resource_name}
use gpu_lease.Objects.{
  GpuLease, Workload, WorkloadSpec, Condition, PodSetAssignment, ResourceFlavor, Message, text,
  condition_admitted, condition_quota_reserved, status_true, status_false, new_meta,
}
use gpu_lease.Exec.{Exec, other, pure, raise, read, ◌>>=◌}
use gpu_lease.Client.{Api, Machinery}

abbrev pub placeholder_container_image : String
placeholder_container_image = "registry.k8s.io/pause:3.9"

abbrev pub placeholder_container_name : String
placeholder_container_name = "main"

abbrev pub pod_set_name : String
pod_set_name = "main"

-- corev1.LabelHostname
abbrev pub label_hostname : String
label_hostname = "kubernetes.io/hostname"

abbrev pub kueue_reason_inadmissible : String
kueue_reason_inadmissible = "Inadmissible"

-- workloadName
unfoldable pub workload_name : GpuLease → String
workload_name lease = lease.metadata.name

unfoldable pub workload_spec_of : GpuLease → WorkloadSpec
workload_spec_of lease = record {
  queue_name = lease.spec.local_queue_name;
  pod_sets =
      record {
        name = pod_set_name;
        count = 1;
        template = record {
          restart_policy = "Never";
          node_selector = (label_hostname, lease.spec.node_name) ∷ [];
          containers =
              record {
                name = placeholder_container_name;
                image = placeholder_container_image;
                requests = (kueue_resource_name, 1) ∷ [];
              }
              ∷ [];
        };
      }
      ∷ [];
  priority_class_name = "";
}

-- buildWorkload
unfoldable pub build_workload : GpuLease → Workload
unfolding workload_spec_of workload_name
build_workload lease = record {
  metadata = new_meta lease.spec.claim_ref.namespace (workload_name lease) [];
  owner = none;
  spec = workload_spec_of lease;
  status = record { conditions = []; admission = none };
}

-- A nil test and a test of a found condition.
unfoldable pub found_with : Option Condition → (Condition → Bool) → Bool
found_with none test = false
found_with (some c) test = test c

first_flavor : List PodSetAssignment → Option String
first_flavor [] = none
first_flavor (a ∷ as') = a.flavors kueue_resource_name

-- assignedFlavor
unfoldable pub assigned_flavor : Workload → Option String
unfolding first_flavor
assigned_flavor wl = elim wl.status.admission [
  | none ↦ none
  | some a ↦ first_flavor a.pod_set_assignments
]

-- The loop of expectedFlavorForNode.
unfoldable pub flavor_for : String → List ResourceFlavor → Option String
flavor_for node [] = none
flavor_for node (rf ∷ rfs) =
    if str_eq (get_or (rf.node_labels label_hostname) "") node
    then some rf.metadata.name
    else flavor_for node rfs

module _ (k : Machinery) where
  -- workloadMatchesSpec
  unfoldable pub workload_matches_spec : Workload → Workload → Bool
  workload_matches_spec existing want = k.spec_equal existing.spec want.spec

  unfoldable pub condition_of : Workload → String → Option Condition
  condition_of wl type = k.find_status_condition wl.status.conditions type

  -- isWorkloadAdmitted
  unfoldable pub is_workload_admitted : Workload → Bool
  unfolding condition_of found_with
  is_workload_admitted wl =
      found_with (condition_of wl condition_admitted) (λ c. str_eq c.status status_true)

  -- workloadInadmissible: Kueue's message, where the Workload is inadmissible
  unfoldable pub workload_inadmissible : Workload → Option Message
  unfolding condition_of
  workload_inadmissible wl = elim (condition_of wl condition_quota_reserved) [
    | none ↦ none
    | some c ↦
        if str_eq c.status status_false && str_eq c.reason kueue_reason_inadmissible
        then some c.message
        else none
  ]

  -- quotaReservedMessage
  unfoldable pub quota_reserved_message : Workload → Message
  unfolding condition_of
  quota_reserved_message wl = elim (condition_of wl condition_quota_reserved) [
    | none ↦ text "Workload not yet observed by Kueue"
    | some c ↦ c.message
  ]

  -- admissionAnchor
  unfoldable pub admission_anchor : Workload → ℕ
  unfolding condition_of
  admission_anchor wl = elim (condition_of wl condition_quota_reserved) [
    | none ↦ wl.metadata.creation_timestamp
    | some c ↦ c.last_transition_time
  ]

module _ {W : Type 0} (api : Api W) where
  unfoldable pub found_flavor : Option String → Exec W String
  found_flavor none = raise other
  found_flavor (some name) = pure name

  -- expectedFlavorForNode
  unfoldable pub expected_flavor_for_node : String → Exec W String
  unfolding found_flavor
  expected_flavor_for_node node = do
    flavors ← read api.list_flavors
    found_flavor (flavor_for node flavors)
