-- ===== src/Memory/Isolation.antt =====
-- What it means that the deep copy of an object shares nothing with the object.
use gpu_lease.Common.{Option, none, some, List, [], ◌∷◌, ◌≤◌, ◌<◌, ◌≡◌, ◌≢◌, refl, arith, ◌∙◌}
use gpu_lease.Objects.{GpuLease, Workload, ResourceFlavor}
use gpu_lease.Memory.{Addr, Kubernetes, Cell, Cells, Memory, TypeMeta}
use gpu_lease.Memory.Command.{Slot, copy_pointer, update, and_then}
use gpu_lease.Memory.Kind.{Kind, Copied, copied, Deep}
use gpu_lease.Memory.Kind.Reference.{reads_nil, pointer, Deep-pointer}
use gpu_lease.Memory.Embedded.{Embedded, Documented, Root, RootList}
use gpu_lease.Memory.Slots.{
  leases_slot, lease_lists_slot, workloads_slot, workload_lists_slot, flavors_slot,
  flavor_lists_slot,
}
use gpu_lease.Memory.LeaseCopies.{deep_copy_lease, deep_copy_lease_list}
use gpu_lease.Memory.LeaseCopies.Kinds.{lease_kind, Deep-lease, lease_list_kind, Deep-lease_list}
use gpu_lease.Memory.KueueCopies.{
  deep_copy_workload, deep_copy_workload_list, deep_copy_flavor, deep_copy_flavor_list,
}
use gpu_lease.Memory.KueueCopies.Kinds.{
  workload_kind, Deep-workload, workload_list_kind, Deep-workload_list, flavor_kind, Deep-flavor,
  flavor_list_kind, Deep-flavor_list,
}
use gpu_lease.Memory.ObjectCopies.{
  Object, lease, lease_list, workload, workload_list, flavor, flavor_list, as_object,
  deep_copy_object, deep_copy_object_lease, deep_copy_object_lease_list, deep_copy_object_workload,
  deep_copy_object_workload_list, deep_copy_object_flavor, deep_copy_object_flavor_list,
}

-- What an object reads as.
pub data Value (K : Kubernetes) : Type 0 where
  lease_value : Root GpuLease → Value K
  lease_list_value : RootList K (Root GpuLease) → Value K
  workload_value : TypeMeta × Workload → Value K
  workload_list_value : RootList K (TypeMeta × Workload) → Value K
  flavor_value : Root ResourceFlavor → Value K
  flavor_list_value : RootList K (Root ResourceFlavor) → Value K

-- Writes to memory, in any order and to any address, with any content.
abbrev pub Writes : Kubernetes → Type 0
Writes K = List (Addr × Cell K)

module _ {K : Kubernetes} where
  unfoldable pub write_all : Writes K → Cells K → Cells K
  write_all [] f = f
  write_all ((p, c) ∷ rest) f = write_all rest (update f p c)

  -- Each write is to an address with P.
  pub data AllAt (P : Addr → Type 0) : Writes K → Type 0 where
    all_nil : AllAt P []
    all_cons :
        {p : Addr} {c : Cell K} {rest : Writes K} → P p → AllAt P rest → AllAt P ((p, c) ∷ rest)

  write_all-other :
      (ws : Writes K) (f : Cells K) (q : Addr) {P : Addr → Type 0}
      → AllAt P ws
      → ((p : Addr) → P p → p ≢ q)
      → write_all ws f q ≡ f q
  unfolding write_all
  write_all-other [] f q all_nil apart = refl
  write_all-other ((p, c) ∷ rest) f q (all_cons h hs) apart =
      write_all-other rest (update f p c) q hs apart ∙ ground (arith, apart p h)

  module _ (api : Embedded K) where
    pub data ReadsObject (lo hi : Addr) (f : Cells K) : Object → Value K → Type 0 where
      reads_lease :
          {p : Addr} {v : Root GpuLease}
          → (pointer leases_slot (lease_kind api)).Reads lo hi f (some p) (some v)
          → ReadsObject lo hi f (lease (some p)) (lease_value v)
      reads_lease_list :
          {p : Addr} {v : RootList K (Root GpuLease)}
          → (pointer lease_lists_slot (lease_list_kind api)).Reads lo hi f (some p) (some v)
          → ReadsObject lo hi f (lease_list (some p)) (lease_list_value v)
      reads_workload :
          {p : Addr} {v : TypeMeta × Workload}
          → (pointer workloads_slot (workload_kind api)).Reads lo hi f (some p) (some v)
          → ReadsObject lo hi f (workload (some p)) (workload_value v)
      reads_workload_list :
          {p : Addr} {v : RootList K (TypeMeta × Workload)}
          → (pointer workload_lists_slot (workload_list_kind api)).Reads lo hi f (some p) (some v)
          → ReadsObject lo hi f (workload_list (some p)) (workload_list_value v)
      reads_flavor :
          {p : Addr} {v : Root ResourceFlavor}
          → (pointer flavors_slot (flavor_kind api)).Reads lo hi f (some p) (some v)
          → ReadsObject lo hi f (flavor (some p)) (flavor_value v)
      reads_flavor_list :
          {p : Addr} {v : RootList K (Root ResourceFlavor)}
          → (pointer flavor_lists_slot (flavor_list_kind api)).Reads lo hi f (some p) (some v)
          → ReadsObject lo hi f (flavor_list (some p)) (flavor_list_value v)

    -- The copy of an object reads as the object after any writes to what was in the memory before
    -- the copy, and the object still reads as it did after any writes to the copy.
    pub data Isolated (m : Memory K) (o : Object) (v : Value K) (to_copy to_old : Writes K)
        : Option (Option Object × Memory K) → Type 0 where
      isolated :
          {c : Object} {n : Memory K}
          → ReadsObject m.next n.next (write_all to_old n.cells) c v
          → ReadsObject 0 m.next (write_all to_copy n.cells) o v
          → Isolated m o v to_copy to_old (some (some c, n))

    -- one dynamic type
    module _ {A V : Type 0} (s : Slot K (List A)) {k : Kind K A V} (tag : Addr → Object)
        (value : V → Value K)
        (reads : (lo hi : Addr) (f : Cells K) (p : Addr) (v : V)
          → (pointer s k).Reads lo hi f (some p) (some v)
          → ReadsObject lo hi f (tag p) (value v)) where
      Copied-Isolated :
          {m : Memory K} {p : Addr} {v : V} (to_copy to_old : Writes K)
          {r : Option (Option Addr × Memory K)}
          → Deep k
          → AllAt (λ a. m.next ≤ a) to_copy
          → AllAt (λ a. a < m.next) to_old
          → (pointer s k).Reads 0 m.next m.cells (some p) (some v)
          → Copied (pointer s k) m (some v) r
          → Isolated m (tag p) (value v) to_copy to_old (and_then r (as_object tag))
      Copied-Isolated to_copy to_old d hc ho rp (copied {a = none} g (reads_nil e)) =
          absurd (grind arith)
      Copied-Isolated {m} to_copy to_old d hc ho rp (copied {a = some q} {n} g rq) =
          isolated
            (reads _ _ _ _ _ (
              (Deep-pointer s d).frame (λ x l u. write_all-other to_old n.cells x ho (ground arith))
                rq))
            (reads _ _ _ _ _ (
              (Deep-pointer s d).frame
                (λ x l u. write_all-other to_copy n.cells x hc (ground arith) ∙ g.same x l u) rp))

      deep_copy-Isolated :
          (m : Memory K) {p : Addr} {v : V} (to_copy to_old : Writes K)
          → Deep k
          → AllAt (λ a. m.next ≤ a) to_copy
          → AllAt (λ a. a < m.next) to_old
          → (pointer s k).Reads 0 m.next m.cells (some p) (some v)
          → Isolated m
              (tag p)
              (value v)
              to_copy
              to_old
              (and_then (copy_pointer s k.copy (some p) m) (as_object tag))
      deep_copy-Isolated m to_copy to_old d hc ho r =
          Copied-Isolated to_copy to_old d hc ho r ((Deep-pointer s d).copies m r)

    -- DeepCopyObject of an object of any of the six registered types ends without a fault and gives an
    -- object, which reads as the object did after any writes to the allocations that were there
    -- before it; the object itself reads as it did after any writes to the other allocations. The
    -- deep copies of Kubernetes' own types have to be deep.
    pub deep_copy_object-Isolated :
        (m : Memory K) (o : Object) (v : Value K) (to_copy to_old : Writes K)
        → Documented api
        → ReadsObject 0 m.next m.cells o v
        → AllAt (λ a. m.next ≤ a) to_copy
        → AllAt (λ a. a < m.next) to_old
        → Isolated m o v to_copy to_old (deep_copy_object api o m)
    unfolding deep_copy_object deep_copy_object_lease deep_copy_object_lease_list
        deep_copy_object_workload deep_copy_object_workload_list deep_copy_object_flavor
        deep_copy_object_flavor_list deep_copy_lease deep_copy_lease_list deep_copy_workload
        deep_copy_workload_list deep_copy_flavor deep_copy_flavor_list
    deep_copy_object-Isolated m _ _ to_copy to_old doc (reads_lease r) hc ho =
        deep_copy-Isolated leases_slot (λ q. lease (some q)) lease_value
          (λ _ _ _ _ _ r. reads_lease r) m to_copy to_old (Deep-lease api doc) hc ho r
    deep_copy_object-Isolated m _ _ to_copy to_old doc (reads_lease_list r) hc ho =
        deep_copy-Isolated lease_lists_slot (λ q. lease_list (some q)) lease_list_value
          (λ _ _ _ _ _ r. reads_lease_list r) m to_copy to_old (Deep-lease_list api doc) hc ho r
    deep_copy_object-Isolated m _ _ to_copy to_old doc (reads_workload r) hc ho =
        deep_copy-Isolated workloads_slot (λ q. workload (some q)) workload_value
          (λ _ _ _ _ _ r. reads_workload r) m to_copy to_old (Deep-workload api doc) hc ho r
    deep_copy_object-Isolated m _ _ to_copy to_old doc (reads_workload_list r) hc ho =
        deep_copy-Isolated workload_lists_slot (λ q. workload_list (some q)) workload_list_value
          (λ _ _ _ _ _ r. reads_workload_list r) m to_copy to_old (Deep-workload_list api doc) hc ho
          r
    deep_copy_object-Isolated m _ _ to_copy to_old doc (reads_flavor r) hc ho =
        deep_copy-Isolated flavors_slot (λ q. flavor (some q)) flavor_value
          (λ _ _ _ _ _ r. reads_flavor r) m to_copy to_old (Deep-flavor api doc) hc ho r
    deep_copy_object-Isolated m _ _ to_copy to_old doc (reads_flavor_list r) hc ho =
        deep_copy-Isolated flavor_lists_slot (λ q. flavor_list (some q)) flavor_list_value
          (λ _ _ _ _ _ r. reads_flavor_list r) m to_copy to_old (Deep-flavor_list api doc) hc ho r
