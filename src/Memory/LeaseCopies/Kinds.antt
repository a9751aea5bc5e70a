-- ===== src/Memory/LeaseCopies/Kinds.antt =====
-- What the structs of api/v1alpha1 read as, for the generated copies.
use gpu_lease.Common.{arith, ℕ, String, Option, List, refl}
use gpu_lease.Objects.{LeasePhase, Message, Condition, Meta, LeaseSpec, LeaseStatus, GpuLease}
use gpu_lease.Memory.{Addr, Kubernetes, StatusStruct, LeaseStruct, ListStruct, TypeMeta}
use gpu_lease.Memory.Kind.{Kind, Deep, plain, Deep-plain, pair, Deep-pair, via, Deep-via}
use gpu_lease.Memory.Kind.Optional.{optional, Deep-optional}
use gpu_lease.Memory.Kind.Reference.{slice, Deep-slice}
use gpu_lease.Memory.Slots.{conditions_slot, leases_slot}
use gpu_lease.Memory.Embedded.{
  Embedded, Documented, Root, RootList, list_parts, list_values, build_list,
}
use gpu_lease.Memory.LeaseCopies.{
  deep_copy_into_lease_status, deep_copy_into_lease, deep_copy_into_lease_list,
}

module _ {K : Kubernetes} (api : Embedded K) where
  -- What a status has without references, and its references.
  abbrev pub Parts : Type 0 → Type 0 → Type 0
  Parts T C = (LeasePhase × String × Message) × (Option T × (Option T × C))

  abbrev pub status_parts : StatusStruct → Parts Addr (Option Addr)
  status_parts s =
      ((s.phase, s.workload_name, s.message), (s.admitted_at, (s.bound_at, s.conditions)))

  abbrev pub status_values : LeaseStatus → Parts ℕ (List Condition)
  status_values v =
      ((v.phase, v.workload_name, v.message), (v.admitted_at, (v.bound_at, v.conditions)))

  abbrev pub build_status : StatusStruct → Parts Addr (Option Addr) → StatusStruct
  build_status s a = record {
    phase = a.0.0;
    workload_name = a.0.1;
    message = a.0.2;
    admitted_at = a.1.0;
    bound_at = a.1.1.0;
    conditions = a.1.1.1;
  }

  abbrev pub parts_kind : Kind K (Parts Addr (Option Addr)) (Parts ℕ (List Condition))
  parts_kind =
      pair plain
        (pair (optional api.time) (pair (optional api.time) (slice conditions_slot api.condition)))

  abbrev pub lease_status_kind : Kind K StatusStruct LeaseStatus
  lease_status_kind = via parts_kind status_parts status_values (deep_copy_into_lease_status api)

  abbrev pub lease_parts : LeaseStruct K → (TypeMeta × LeaseSpec) × (K.object_meta × StatusStruct)
  lease_parts l = ((l.type_meta, l.spec), (l.object_meta, l.status))

  abbrev pub lease_values :
      Root GpuLease → (TypeMeta × LeaseSpec) × ((Meta × Option String) × LeaseStatus)
  lease_values v = ((v.type_meta, v.object.spec), ((v.object.metadata, v.owner), v.object.status))

  abbrev pub lease_kind : Kind K (LeaseStruct K) (Root GpuLease)
  lease_kind =
      via (pair plain (pair api.object_meta lease_status_kind)) lease_parts lease_values
        (deep_copy_into_lease api)

  abbrev pub lease_list_kind : Kind K (ListStruct K) (RootList K (Root GpuLease))
  lease_list_kind =
      via (pair plain (pair api.list_meta (slice leases_slot lease_kind))) list_parts list_values
        (deep_copy_into_lease_list api)

  module _ (doc : Documented api) where
    pub Deep-lease_status : Deep lease_status_kind
    unfolding deep_copy_into_lease_status pair
    Deep-lease_status =
        Deep-via parts_kind status_parts status_values build_status (λ s a. refl)
          (λ s m. ground arith)
          (Deep-pair Deep-plain (
            Deep-pair (Deep-optional doc.time)
              (Deep-pair (Deep-optional doc.time) (Deep-slice conditions_slot doc.condition))))

    pub Deep-lease : Deep lease_kind
    unfolding deep_copy_into_lease pair
    Deep-lease =
        Deep-via (pair plain (pair api.object_meta lease_status_kind)) lease_parts lease_values
          (λ l a. record { type_meta = a.0.0; spec = a.0.1; object_meta = a.1.0; status = a.1.1 })
          (λ l a. refl) (λ l m. ground arith)
          (Deep-pair Deep-plain (Deep-pair doc.object_meta Deep-lease_status))

    pub Deep-lease_list : Deep lease_list_kind
    unfolding deep_copy_into_lease_list pair
    Deep-lease_list =
        Deep-via (pair plain (pair api.list_meta (slice leases_slot lease_kind))) list_parts
          list_values build_list (λ l a. refl) (λ l m. ground arith)
          (Deep-pair Deep-plain (Deep-pair doc.list_meta (Deep-slice leases_slot Deep-lease)))
