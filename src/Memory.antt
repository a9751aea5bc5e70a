-- ===== src/Memory.antt =====
-- The structs of the two API packages as they lie in Go's memory, for the generated deep copies:
-- a pointer, a slice or a map is an address, and `none` is nil. The values of Objects are what these
-- structs read as. api/v1alpha1 and internal/kueue/v1beta2.
pub mod Command
pub mod Kind
pub mod MapCopies
pub mod Slots
pub mod Embedded
pub mod LeaseCopies
pub mod KueueCopies
pub mod ObjectCopies
pub mod Isolation
use gpu_lease.Common.{ℕ, String, Option, List}
use gpu_lease.Names.Settings.{DeploymentSettings}
use gpu_lease.Objects.{LeasePhase, Message, ObjectRef, LeaseSpec}

abbrev pub Addr : Type 0
Addr = ℕ

-- The types of k8s.io/apimachinery and k8s.io/api that the structs embed, with references of their
-- own, and what other cells the memory has.
pub record Kubernetes : Type 1 where
  pub object_meta : Type 0
  pub list_meta : Type 0
  pub list_meta_value : Type 0
  pub condition : Type 0
  pub pod_template : Type 0
  pub other : Type 0

-- metav1.TypeMeta
pub record TypeMeta : Type 0 where
  pub kind : String
  pub api_version : String

-- The entries of a map, in the order in which a loop over it meets them.
abbrev pub Entries : Type 0
Entries = List (String × String)

pub record StatusStruct : Type 0 where
  pub phase : LeasePhase
  pub workload_name : String
  pub message : Message
  pub admitted_at : Option Addr
  pub bound_at : Option Addr
  pub conditions : Option Addr

pub record ListStruct (K : Kubernetes) : Type 0 where
  pub type_meta : TypeMeta
  pub list_meta : K.list_meta
  pub items : Option Addr

pub record LeaseStruct (K : Kubernetes) : Type 0 where
  pub type_meta : TypeMeta
  pub object_meta : K.object_meta
  pub spec : LeaseSpec
  pub status : StatusStruct

pub record AssignmentStruct : Type 0 where
  pub name : String
  pub flavors : Option Addr

pub record AdmissionStruct : Type 0 where
  pub cluster_queue : String
  pub pod_set_assignments : Option Addr

pub record PodSetStruct (K : Kubernetes) : Type 0 where
  pub name : String
  pub count : ℕ
  pub template : K.pod_template

pub record WorkloadSpecStruct : Type 0 where
  pub queue_name : String
  pub pod_sets : Option Addr
  pub priority_class_name : String

pub record WorkloadStatusStruct : Type 0 where
  pub conditions : Option Addr
  pub admission : Option Addr

pub record WorkloadStruct (K : Kubernetes) : Type 0 where
  pub type_meta : TypeMeta
  pub object_meta : K.object_meta
  pub spec : WorkloadSpecStruct
  pub status : WorkloadStatusStruct

pub record FlavorSpecStruct : Type 0 where
  pub node_labels : Option Addr

pub record FlavorStruct (K : Kubernetes) : Type 0 where
  pub type_meta : TypeMeta
  pub object_meta : K.object_meta
  pub spec : FlavorSpecStruct

-- An allocation: the elements of an array, of which a single struct is one element.
pub data Cell (K : Kubernetes) : Type 0 where
  conditions : List K.condition → Cell K
  settings : List DeploymentSettings → Cell K
  object_refs : List ObjectRef → Cell K
  lease_specs : List LeaseSpec → Cell K
  statuses : List StatusStruct → Cell K
  leases : List (LeaseStruct K) → Cell K
  lease_lists : List (ListStruct K) → Cell K
  entries : Entries → Cell K
  assignments : List AssignmentStruct → Cell K
  admissions : List AdmissionStruct → Cell K
  pod_sets : List (PodSetStruct K) → Cell K
  workload_specs : List WorkloadSpecStruct → Cell K
  workload_statuses : List WorkloadStatusStruct → Cell K
  workloads : List (WorkloadStruct K) → Cell K
  workload_lists : List (ListStruct K) → Cell K
  flavor_specs : List FlavorSpecStruct → Cell K
  flavors : List (FlavorStruct K) → Cell K
  flavor_lists : List (ListStruct K) → Cell K
  other : K.other → Cell K

abbrev pub Cells : Kubernetes → Type 0
Cells K = Addr → Option (Cell K)

-- Allocations take the addresses in order.
pub record Memory (K : Kubernetes) : Type 0 where
  pub next : Addr
  pub cells : Cells K
