-- ===== src/Inventory/Free.antt =====
-- The ids that FreeGPUIDs and AllocateID of inventory.go return.
use native.Mathlib.Nat.{le_refl}
use gpu_lease.Common.{
  ℕ, zero, suc, ◌+◌, ◌≤◌, ◌<◌, ◌≡◌, ◌≢◌, ◌↔◌, ◌⊎◌, inl, inr, refl, String, false, some, List, [],
  ◌∷◌, eq_iff, ℤ, pos, negsuc, eqb_ℤ_iff, In, arith,
}
use gpu_lease.Names.{node_label_gpu_count}
use gpu_lease.Objects.{GpuLease, Node}
use gpu_lease.Exec.{State, Result, ok, err, exhausted, read, ◌>>=◌}
use gpu_lease.Client.{Api}
use gpu_lease.Inventory.{
  used_ids, is_used, free_from, parse_count, capacity_of, node_capacity, used_gpu_ids, free_gpu_ids,
  allocate_id,
}

-- No lease of the list is for this GPU of this node.
abbrev pub Unleased : String → ℤ → List GpuLease → Type 0
Unleased node id [] = Unit
Unleased node id (l ∷ ls) = ((l.spec.node_name ≢ node) ⊎ (l.spec.gpu_id ≢ id)) × Unleased node id ls

is_used-used_ids :
    (node : String) (id : ℤ) (ls : List GpuLease)
    → (is_used (used_ids node ls) id ≡ false) ↔ Unleased node id ls
unfolding is_used used_ids
is_used-used_ids node id [] = (λ h. tt, λ h. refl)
is_used-used_ids node id (l ∷ ls) =
    ground
      (arith, eq_iff l.spec.node_name node, eqb_ℤ_iff l.spec.gpu_id id, is_used-used_ids node id ls)

-- Membership in the list of free ids, by the bounds and the test.
In-free_from :
    (i : ℕ) (id n : ℕ) (used : List ℤ)
    → In (pos i) (free_from id n used) ↔ ((id ≤ i) × (i < id + n) × (is_used used (pos i) ≡ false))
unfolding free_from
In-free_from i id zero used = (λ h. absurd h, λ h. absurd (omega arith))
In-free_from i id (suc n) used = ground (arith, In-free_from i (id + 1) n used)

-- Strictly ascending ids, none of them negative, from a bound on.
abbrev pub Ascending : ℕ → List ℤ → Type 0
Ascending lo [] = Unit
Ascending lo (pos i ∷ ids) = (lo ≤ i) × Ascending (i + 1) ids
Ascending lo (negsuc i ∷ ids) = ⊥

Ascending-mono : (lo hi : ℕ) (ids : List ℤ) → lo ≤ hi → Ascending hi ids → Ascending lo ids
Ascending-mono lo hi [] h a = tt
Ascending-mono lo hi (pos i ∷ ids) h a = (omega arith, a.1)
Ascending-mono lo hi (negsuc i ∷ ids) h a = a

free_from-Ascending : (id n : ℕ) (used : List ℤ) → Ascending id (free_from id n used)
unfolding free_from
free_from-Ascending id zero used = tt
free_from-Ascending id (suc n) used = ground (
  arith,
  free_from-Ascending (id + 1) n used,
  Ascending-mono id (id + 1) (free_from (id + 1) n used),
)

In-Ascending : (lo i : ℕ) (ids : List ℤ) → Ascending lo ids → In (pos i) ids → lo ≤ i
In-Ascending lo i [] a h = absurd h
In-Ascending lo i (pos j ∷ ids) a (inl e) = ground arith
In-Ascending lo i (pos j ∷ ids) a (inr h) = omega (arith, In-Ascending (j + 1) i ids a.1 h)
In-Ascending lo i (negsuc j ∷ ids) a h = absurd a

-- The free ids of a node with `count` GPUs and the leases `ls`.
abbrev pub IsFree : String → ℕ → List GpuLease → ℕ → Type 0
IsFree node count ls i = (i < count) × Unleased node (pos i) ls

pub In-IsFree :
    (node : String) (count : ℕ) (ls : List GpuLease) (i : ℕ)
    → In (pos i) (free_from 0 count (used_ids node ls)) ↔ IsFree node count ls i
In-IsFree node count ls i =
    ground (arith, In-free_from i 0 count (used_ids node ls), is_used-used_ids node (pos i) ls)

first_of_ids : List ℤ → Result ℤ
first_of_ids [] = err exhausted
first_of_ids (id ∷ ids) = ok id

-- The head of an ascending list of the free ids is the lowest of them.
lowest_cases :
    (node : String) (count : ℕ) (ls : List GpuLease) (ids : List ℤ) (r : Result ℤ)
    → Ascending 0 ids
    → ((i : ℕ) → In (pos i) ids ↔ IsFree node count ls i)
    → r ≡ first_of_ids ids
    → ((r ≡ err exhausted) × ((i : ℕ) → ¬ IsFree node count ls i))
      ⊎ ((i : ℕ) × (r ≡ ok (pos i))
          × IsFree node count ls i
          × ((j : ℕ) → j < i → ¬ IsFree node count ls j))
unfolding first_of_ids
lowest_cases node count ls [] r a iff e = inl (e, λ i h. (iff i).1 h)
lowest_cases node count ls (negsuc i ∷ ids) r a iff e = absurd a
lowest_cases node count ls (pos i ∷ ids) r a iff e = inr (
  i,
  e,
  (iff i).0 (inl refl),
  λ j lt h. absurd (omega (arith, In-Ascending i j (pos i ∷ ids) (le_refl i, a.1) ((iff j).1 h))),
)

module _ {W : Type 0} (api : Api W) (node label : String) (count : ℕ) (n : Node)
    (ls : List GpuLease) (s : State W) (got : (api.get_node node s.world).0 ≡ ok n)
    (labelled : n.metadata.labels node_label_gpu_count ≡ some label)
    (parsed : parse_count label ≡ some count)
    (listed : (api.list_leases (api.get_node node s.world).1).0 ≡ ok ls) where
  free_gpu_ids-eq : (free_gpu_ids api node s).0 ≡ ok (free_from 0 count (used_ids node ls))
  unfolding free_gpu_ids node_capacity used_gpu_ids capacity_of read ◌>>=◌
  free_gpu_ids-eq = ground arith

  -- When the reads succeed, FreeGPUIDs returns in ascending order exactly the ids below the node's
  -- count for which the node has no lease.
  pub free_gpu_ids_exact :
      (ids : List ℤ) × ((free_gpu_ids api node s).0 ≡ ok ids)
      × Ascending 0 ids
      × ((i : ℕ) → In (pos i) ids ↔ IsFree node count ls i)
  free_gpu_ids_exact = (
    free_from 0 count (used_ids node ls),
    free_gpu_ids-eq,
    free_from-Ascending 0 count (used_ids node ls),
    In-IsFree node count ls,
  )

  allocate_id-eq :
      (ids : List ℤ)
      → (free_gpu_ids api node s).0 ≡ ok ids
      → (allocate_id api node s).0 ≡ first_of_ids ids
  unfolding allocate_id first_of_ids ◌>>=◌
  allocate_id-eq ids e = ground arith

  -- When the reads succeed, AllocateID returns the lowest free id, and ErrExhausted exactly when
  -- every id below the node's count is leased.
  pub allocate_id_lowest :
      (((allocate_id api node s).0 ≡ err exhausted) × ((i : ℕ) → ¬ IsFree node count ls i))
      ⊎ ((i : ℕ) × ((allocate_id api node s).0 ≡ ok (pos i))
          × IsFree node count ls i
          × ((j : ℕ) → j < i → ¬ IsFree node count ls j))
  allocate_id_lowest =
      lowest_cases node count ls _ (allocate_id api node s).0
        (free_from-Ascending 0 count (used_ids node ls)) (In-IsFree node count ls)
        (allocate_id-eq (free_from 0 count (used_ids node ls)) free_gpu_ids-eq)
