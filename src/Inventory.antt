-- ===== src/Inventory.antt =====
-- internal/controller/inventory/inventory.go: which GPUs a node has, and which are free. The answers
-- derive from the node's labels and from the leases that exist, whatever their phase.
pub mod Free
pub mod Counts
use gpu_lease.Common.{
  ℕ, zero, suc, ◌+◌, String, Bool, true, false, Option, none, some, List, [], ◌∷◌, str_eq, ℤ, pos,
  negsuc, eqb_ℤ, ◌||◌, Map, empty, put, get_or, if◌then◌else◌,
}
use gpu_lease.Decimal.{parse_int32}
use gpu_lease.Names.{node_label_gpu_count, node_label_gpu_model}
use gpu_lease.Objects.{GpuLease, Node}
use gpu_lease.Exec.{
  Error, node_not_found, exhausted, other, Result, ok, err, Exec, pure, raise, read, ◌>>=◌,
}
use gpu_lease.Client.{Api}

-- A gpu-count label: strconv.ParseInt, and the test on the sign.
unfoldable pub not_negative : Option ℤ → Option ℕ
not_negative none = none
not_negative (some (pos n)) = some n
not_negative (some (negsuc n)) = none

unfoldable pub parse_count : String → Option ℕ
unfolding not_negative
parse_count label = not_negative (parse_int32 label)

-- What NodeCapacity makes of a node's labels.
unfoldable pub capacity_of : Option String → Option String → Result (ℕ × String)
capacity_of none model = err node_not_found
capacity_of (some label) model = elim (parse_count label) [
  | none ↦ err other
  | some count ↦ ok (count, get_or model "")
]

-- The used set of usedGPUIDs.
unfoldable pub used_ids : String → List GpuLease → List ℤ
used_ids node [] = []
used_ids node (l ∷ ls) =
    let rest = used_ids node ls in
    if str_eq l.spec.node_name node then l.spec.gpu_id ∷ rest else rest

-- used[id]
unfoldable pub is_used : List ℤ → ℤ → Bool
is_used [] id = false
is_used (u ∷ us) id = eqb_ℤ u id || is_used us id

-- The loop of FreeGPUIDs over the ids from `id` on, `n` of them.
unfoldable pub free_from : ℕ → ℕ → List ℤ → List ℤ
unfolding is_used
free_from id zero used = []
free_from id (suc n) used =
    let rest = free_from (id + 1) n used in if is_used used (pos id) then rest else pos id ∷ rest

-- The counting loop of NodeFreeCounts.
unfoldable pub count_from : ℕ → ℕ → List ℤ → ℕ → ℕ
unfolding is_used
count_from id zero used free = free
count_from id (suc n) used free =
    count_from (id + 1) n used (if is_used used (pos id) then free else free + 1)

-- usedByNode, and its lookup, where an absent node has no used id.
unfoldable pub used_by_node : Map (List ℤ) → List GpuLease → Map (List ℤ)
used_by_node m [] = m
used_by_node m (l ∷ ls) =
    used_by_node (put m l.spec.node_name (l.spec.gpu_id ∷ get_or (m l.spec.node_name) [])) ls

unfoldable pub count_label : Option String → Option ℕ
count_label none = none
count_label (some label) = parse_count label

-- The body of the loop of NodeFreeCounts over the nodes; `out` is the map so far.
unfoldable pub count_node : Map (List ℤ) → Map ℕ → Node → Map ℕ
count_node used out n = elim (count_label (n.metadata.labels node_label_gpu_count)) [
  | none ↦ out
  | some count ↦ put out n.metadata.name (count_from 0 count (get_or (used n.metadata.name) []) 0)
]

unfoldable pub free_counts : Map (List ℤ) → Map ℕ → List Node → Map ℕ
unfolding count_node
free_counts used out [] = out
free_counts used out (n ∷ ns) = free_counts used (count_node used out n) ns

module _ {W : Type 0} (api : Api W) where
  unfoldable pub lift : Result (ℕ × String) → Exec W (ℕ × String)
  lift (ok c) = pure c
  lift (err e) = raise e

  -- Any error of the Get is reported as ErrNodeNotFound.
  unfoldable pub as_node_not_found : (W → Result Node × W) → W → Result Node × W
  as_node_not_found f w =
      let (r, w') = f w in (elim r [ ok n ↦ ok n | err e ↦ err node_not_found ], w')

  -- NodeCapacity
  unfoldable pub node_capacity : String → Exec W (ℕ × String)
  unfolding lift as_node_not_found
  node_capacity node = do
    n ← read (as_node_not_found (api.get_node node))
    lift (
        capacity_of (n.metadata.labels node_label_gpu_count)
          (n.metadata.labels node_label_gpu_model))

  -- usedGPUIDs
  unfoldable pub used_gpu_ids : String → Exec W (List ℤ)
  used_gpu_ids node = do all ← read api.list_leases; pure (used_ids node all)

  -- FreeGPUIDs
  unfoldable pub free_gpu_ids : String → Exec W (List ℤ)
  free_gpu_ids node = do
    capacity ← node_capacity node
    used ← used_gpu_ids node
    pure (free_from 0 capacity.0 used)

  lowest : List ℤ → Exec W ℤ
  lowest [] = raise exhausted
  lowest (id ∷ ids) = pure id

  -- AllocateID
  unfoldable pub allocate_id : String → Exec W ℤ
  unfolding lowest
  allocate_id node = do free ← free_gpu_ids node; lowest free

  -- NodeFreeCounts
  unfoldable pub node_free_counts : Exec W (Map ℕ)
  node_free_counts = do
    nodes ← read api.list_nodes
    leases ← read api.list_leases
    pure (free_counts (used_by_node empty leases) empty nodes)
