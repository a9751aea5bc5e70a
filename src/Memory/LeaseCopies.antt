-- ===== src/Memory/LeaseCopies.antt =====
-- api/v1alpha1/zz_generated.deepcopy.go
pub mod Kinds
use gpu_lease.Common.{String, Option, none, some, List, []}
use gpu_lease.Names.Settings.{DeploymentSettings}
use gpu_lease.Objects.{LeaseStatus, GpuLease, ObjectRef, LeaseSpec}
use gpu_lease.Memory.{Addr, Kubernetes, StatusStruct, LeaseStruct, ListStruct}
use gpu_lease.Memory.Command.{Command, return, ◌>>=◌, copy_option, copy_slice, copy_pointer}
use gpu_lease.Memory.Slots.{
  conditions_slot, settings_slot, object_refs_slot, lease_specs_slot, statuses_slot, leases_slot,
  lease_lists_slot,
}
use gpu_lease.Memory.Embedded.{Embedded}

module _ {K : Kubernetes} (api : Embedded K) where
  unfoldable pub deep_copy_into_settings : DeploymentSettings → Command K DeploymentSettings
  deep_copy_into_settings s = return s

  unfoldable pub deep_copy_into_object_ref : ObjectRef → Command K ObjectRef
  deep_copy_into_object_ref r = return r

  unfoldable pub deep_copy_into_lease_spec : LeaseSpec → Command K LeaseSpec
  deep_copy_into_lease_spec s =
      return (record s { claim_ref = s.claim_ref; deployment_ref = s.deployment_ref })

  unfoldable pub deep_copy_into_lease_status : StatusStruct → Command K StatusStruct
  deep_copy_into_lease_status s = do
    admitted_at ← copy_option api.time.copy s.admitted_at
    bound_at ← copy_option api.time.copy s.bound_at
    conditions ← copy_slice conditions_slot api.condition.copy s.conditions
    return (record s { admitted_at = admitted_at; bound_at = bound_at; conditions = conditions })

  unfoldable pub deep_copy_into_lease : LeaseStruct K → Command K (LeaseStruct K)
  deep_copy_into_lease l = do
    object_meta ← api.object_meta.copy l.object_meta
    status ← deep_copy_into_lease_status l.status
    return (record l { object_meta = object_meta; status = status })

  unfoldable pub deep_copy_into_lease_list : ListStruct K → Command K (ListStruct K)
  deep_copy_into_lease_list l = do
    list_meta ← api.list_meta.copy l.list_meta
    items ← copy_slice leases_slot deep_copy_into_lease l.items
    return (record l { list_meta = list_meta; items = items })

  unfoldable pub deep_copy_settings : Option Addr → Command K (Option Addr)
  deep_copy_settings = copy_pointer settings_slot deep_copy_into_settings

  unfoldable pub deep_copy_object_ref : Option Addr → Command K (Option Addr)
  deep_copy_object_ref = copy_pointer object_refs_slot deep_copy_into_object_ref

  unfoldable pub deep_copy_lease_spec : Option Addr → Command K (Option Addr)
  deep_copy_lease_spec = copy_pointer lease_specs_slot deep_copy_into_lease_spec

  unfoldable pub deep_copy_lease_status : Option Addr → Command K (Option Addr)
  deep_copy_lease_status = copy_pointer statuses_slot deep_copy_into_lease_status

  unfoldable pub deep_copy_lease : Option Addr → Command K (Option Addr)
  deep_copy_lease = copy_pointer leases_slot deep_copy_into_lease

  unfoldable pub deep_copy_lease_list : Option Addr → Command K (Option Addr)
  deep_copy_lease_list = copy_pointer lease_lists_slot deep_copy_into_lease_list
