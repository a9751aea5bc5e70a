-- ===== src/Memory/ObjectCopies.antt =====
-- DeepCopyObject of the six types that the two packages register: the objects that the API server's
-- client copies without knowing their type.
use gpu_lease.Common.{Option, none, some}
use gpu_lease.Memory.{Addr, Kubernetes}
use gpu_lease.Memory.Command.{Command, return, ◌>>=◌}
use gpu_lease.Memory.Embedded.{Embedded}
use gpu_lease.Memory.LeaseCopies.{deep_copy_lease, deep_copy_lease_list}
use gpu_lease.Memory.KueueCopies.{
  deep_copy_workload, deep_copy_workload_list, deep_copy_flavor, deep_copy_flavor_list,
}

-- A runtime.Object: its dynamic type, and the pointer.
pub data Object : Type 0 where
  lease lease_list workload workload_list flavor flavor_list : Option Addr → Object

module _ {K : Kubernetes} where
  -- if c := in.DeepCopy(); c != nil { return c }; return nil
  abbrev pub as_object : (Addr → Object) → Option Addr → Command K (Option Object)
  as_object tag none = return none
  as_object tag (some c) = return (some (tag c))

module _ {K : Kubernetes} (api : Embedded K) where
  unfoldable pub deep_copy_object_lease : Option Addr → Command K (Option Object)
  deep_copy_object_lease p = do c ← deep_copy_lease api p; as_object (λ q. lease (some q)) c

  unfoldable pub deep_copy_object_lease_list : Option Addr → Command K (Option Object)
  deep_copy_object_lease_list p = do
    c ← deep_copy_lease_list api p
    as_object (λ q. lease_list (some q)) c

  unfoldable pub deep_copy_object_workload : Option Addr → Command K (Option Object)
  deep_copy_object_workload p = do
    c ← deep_copy_workload api p
    as_object (λ q. workload (some q)) c

  unfoldable pub deep_copy_object_workload_list : Option Addr → Command K (Option Object)
  deep_copy_object_workload_list p = do
    c ← deep_copy_workload_list api p
    as_object (λ q. workload_list (some q)) c

  unfoldable pub deep_copy_object_flavor : Option Addr → Command K (Option Object)
  deep_copy_object_flavor p = do c ← deep_copy_flavor api p; as_object (λ q. flavor (some q)) c

  unfoldable pub deep_copy_object_flavor_list : Option Addr → Command K (Option Object)
  deep_copy_object_flavor_list p = do
    c ← deep_copy_flavor_list api p
    as_object (λ q. flavor_list (some q)) c

  -- The method of the dynamic type.
  unfoldable pub deep_copy_object : Object → Command K (Option Object)
  deep_copy_object (lease p) = deep_copy_object_lease p
  deep_copy_object (lease_list p) = deep_copy_object_lease_list p
  deep_copy_object (workload p) = deep_copy_object_workload p
  deep_copy_object (workload_list p) = deep_copy_object_workload_list p
  deep_copy_object (flavor p) = deep_copy_object_flavor p
  deep_copy_object (flavor_list p) = deep_copy_object_flavor_list p
