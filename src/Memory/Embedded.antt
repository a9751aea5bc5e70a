-- ===== src/Memory/Embedded.antt =====
-- k8s.io/apimachinery and k8s.io/api, as far as the deep copies call them.
use gpu_lease.Common.{ℕ, String, Option, List}
use gpu_lease.Objects.{Meta, Condition, PodTemplate}
use gpu_lease.Memory.{Addr, Kubernetes, TypeMeta, ListStruct}
use gpu_lease.Memory.Kind.{Kind, Deep}

-- How their types read, with their DeepCopyInto. A `time` is a pointer to a metav1.Time, with
-- DeepCopy; object metadata reads as what Objects keeps of it, with the owner.
pub record Embedded (K : Kubernetes) : Type 1 where
  pub object_meta : Kind K K.object_meta (Meta × Option String)
  pub list_meta : Kind K K.list_meta K.list_meta_value
  pub time : Kind K Addr ℕ
  pub condition : Kind K K.condition Condition
  pub pod_template : Kind K K.pod_template PodTemplate

-- What their documentation says of DeepCopyInto: the target is a deep copy.
pub record Documented {K : Kubernetes} (api : Embedded K) : Type 0 where
  pub object_meta : Deep api.object_meta
  pub list_meta : Deep api.list_meta
  pub time : Deep api.time
  pub condition : Deep api.condition
  pub pod_template : Deep api.pod_template

-- An object with what Objects leaves out of it.
pub record Root (A : Type 0) : Type 0 where
  pub type_meta : TypeMeta
  pub owner : Option String
  pub object : A

pub record RootList (K : Kubernetes) (A : Type 0) : Type 0 where
  pub type_meta : TypeMeta
  pub list_meta : K.list_meta_value
  pub items : List A

-- The parts of a list, for the three kinds of lists.
module _ {K : Kubernetes} where
  abbrev pub list_parts : ListStruct K → TypeMeta × (K.list_meta × Option Addr)
  list_parts l = (l.type_meta, (l.list_meta, l.items))

  abbrev pub list_values : {A : Type 0} → RootList K A → TypeMeta × (K.list_meta_value × List A)
  list_values v = (v.type_meta, (v.list_meta, v.items))

  abbrev pub build_list : ListStruct K → TypeMeta × (K.list_meta × Option Addr) → ListStruct K
  build_list l a = record { type_meta = a.0; list_meta = a.1.0; items = a.1.1 }
