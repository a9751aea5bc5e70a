-- ===== src/Objects.antt =====
-- The objects that the controllers read and write: api/v1alpha1/gpulease_types.go,
-- internal/kueue/v1beta2, and the fields they use of Kubernetes' own objects. Times are nanoseconds.
use gpu_lease.Common.{ℕ, ◌*◌, String, Bool, Option, none, List, [], ℤ, pos, Map, empty}
use gpu_lease.Names.{second}

-- metav1.ObjectMeta
pub record Meta : Type 0 where
  pub namespace : String
  pub name : String
  pub uid : String
  pub resource_version : String
  pub generation : ℕ
  pub creation_timestamp : ℕ
  pub deletion_timestamp : Option ℕ
  pub labels : Map String
  pub annotations : Map String
  pub finalizers : List String

-- The texts that the controllers render, one constructor for each format; `text` is another's.
pub data Message : Type 0 where
  text : String → Message
  inadmissible : (workload queue : String) (kueue : Message) → Message
  not_admitted_within : (workload : String) (timeout : ℤ) (kueue : Message) → Message
  admitted_with : (flavor : String) → Message
  admitted_unexpected : (flavor expected node : String) → Message
  claim_invalid_before_activation : (reason : String) → Message
  claim_invalid_during_activation : (reason : String) → Message
  claim_invalid_while_bound : (reason : String) → Message
  no_pod_ip : (namespace name : String) → Message
  rejected_node_mismatch : (namespace name : String) → Message
  post_failed : (namespace name pod_ip : String) → Message
  post_accepted : (namespace name : String) → Message
  not_hot_within : (namespace name : String) (timeout : ℤ) → Message
  reported_hot : (namespace name : String) → Message

-- metav1.Condition
pub record Condition : Type 0 where
  pub type : String
  pub status : String
  pub observed_generation : ℕ
  pub last_transition_time : ℕ
  pub reason : String
  pub message : Message

-- GPULeasePhase, with the empty string and the strings that are no constant of it.
pub data LeasePhase : Type 0 where
  unset pending admitted activating bound failed releasing : LeasePhase
  unknown : String → LeasePhase

abbrev pub condition_quota_reserved : String
condition_quota_reserved = "QuotaReserved"

abbrev pub condition_pod_activated : String
condition_pod_activated = "PodActivated"

abbrev pub condition_ready : String
condition_ready = "Ready"

abbrev pub condition_admitted : String
condition_admitted = "Admitted"

-- metav1.ConditionTrue and metav1.ConditionFalse
abbrev pub status_true : String
status_true = "True"

abbrev pub status_false : String
status_false = "False"

abbrev pub reason_quota_exhausted_on_node : String
reason_quota_exhausted_on_node = "QuotaExhaustedOnNode"

abbrev pub reason_no_free_gpu_on_any_pod_node : String
reason_no_free_gpu_on_any_pod_node = "NoFreeGPUOnAnyPodNode"

abbrev pub reason_pod_unreachable : String
reason_pod_unreachable = "PodUnreachable"

abbrev pub reason_activation_timeout : String
reason_activation_timeout = "ActivationTimeout"

abbrev pub reason_pod_gone : String
reason_pod_gone = "PodGone"

abbrev pub reason_node_mismatch : String
reason_node_mismatch = "NodeMismatch"

abbrev pub reason_queue_misconfigured : String
reason_queue_misconfigured = "QueueMisconfigured"

abbrev pub default_failed_lease_retention : ℤ
default_failed_lease_retention = pos (60 * second)

pub record ObjectRef : Type 0 where
  pub namespace : String
  pub name : String
  pub uid : String

pub record LeaseSpec : Type 0 where
  pub node_name : String
  pub gpu_id : ℤ
  pub gpu_model : String
  pub claim_ref : ObjectRef
  pub deployment_ref : ObjectRef
  pub local_queue_name : String

pub record LeaseStatus : Type 0 where
  pub phase : LeasePhase
  pub workload_name : String
  pub message : Message
  pub admitted_at : Option ℕ
  pub bound_at : Option ℕ
  pub conditions : List Condition

-- GPULease
pub record GpuLease : Type 0 where
  pub metadata : Meta
  pub spec : LeaseSpec
  pub status : LeaseStatus

-- The status of an object that is created without one.
abbrev pub new_status : LeaseStatus
new_status = record {
  phase = unset;
  workload_name = "";
  message = text "";
  admitted_at = none;
  bound_at = none;
  conditions = [];
}

-- What the program sets of a pod template.
pub record Container : Type 0 where
  pub name : String
  pub image : String
  pub requests : List (String × ℕ)

pub record PodTemplate : Type 0 where
  pub restart_policy : String
  pub node_selector : List (String × String)
  pub containers : List Container

pub record PodSet : Type 0 where
  pub name : String
  pub count : ℕ
  pub template : PodTemplate

pub record WorkloadSpec : Type 0 where
  pub queue_name : String
  pub pod_sets : List PodSet
  pub priority_class_name : String

pub record PodSetAssignment : Type 0 where
  pub name : String
  pub flavors : Map String

pub record Admission : Type 0 where
  pub cluster_queue : String
  pub pod_set_assignments : List PodSetAssignment

pub record WorkloadStatus : Type 0 where
  pub conditions : List Condition
  pub admission : Option Admission

pub record Workload : Type 0 where
  pub metadata : Meta
  pub owner : Option String  -- the controller owner reference, by name
  pub spec : WorkloadSpec
  pub status : WorkloadStatus

pub record ResourceFlavor : Type 0 where
  pub metadata : Meta
  pub node_labels : Map String

pub record PodCondition : Type 0 where
  pub type : String
  pub status : String

-- corev1.Pod
pub record Pod : Type 0 where
  pub metadata : Meta
  pub node_name : String
  pub phase : String
  pub conditions : List PodCondition
  pub pod_ip : String

-- corev1.Node
pub record Node : Type 0 where
  pub metadata : Meta

-- labels.Selector: an interface, of which the program uses two methods.
pub record Selector : Type 0 where
  pub matches : Map String → Bool
  pub is_empty : Bool

-- appsv1.Deployment. `selector` is spec.selector through LabelSelectorAsSelector: `none` where it is
-- nil, `some none` where it is invalid.
pub record Deployment : Type 0 where
  pub metadata : Meta
  pub selector : Option (Option Selector)

-- The metadata of a new object.
abbrev pub new_meta : String → String → List String → Meta
new_meta namespace name finalizers = record {
  namespace = namespace;
  name = name;
  uid = "";
  resource_version = "";
  generation = 0;
  creation_timestamp = 0;
  deletion_timestamp = none;
  labels = empty;
  annotations = empty;
  finalizers = finalizers;
}
