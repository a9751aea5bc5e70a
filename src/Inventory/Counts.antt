-- ===== src/Inventory/Counts.antt =====
-- NodeFreeCounts and FreeGPUIDs of inventory.go: two loops over the same objects.
use text.Mathlib.TextPositions.{eq_refl}
use gpu_lease.Common.{
  Option-cases, ℕ, zero, suc, ◌+◌, ◌≡◌, ◌≢◌, inl, inr, refl, sym, ap, subst, ◌∙◌, String, Option,
  none, some, List, [], ◌∷◌, eq_iff, ℤ, pos, ◌||◌, Map, empty, put, get_or, In, length, arith,
}
use gpu_lease.Names.{node_label_gpu_count}
use gpu_lease.Objects.{GpuLease, Node}
use gpu_lease.Exec.{State, ok, read, ◌>>=◌}
use gpu_lease.Client.{Api}
use gpu_lease.Inventory.{
  used_ids, is_used, free_from, count_from, used_by_node, count_label, count_node, free_counts,
  node_free_counts,
}

count_from-length :
    (id n : ℕ) (used : List ℤ) (free : ℕ)
    → count_from id n used free ≡ free + length (free_from id n used)
unfolding count_from free_from
count_from-length id zero used free = omega arith
count_from-length id (suc n) used free =
    ground
      (arith, count_from-length (id + 1) n used free, count_from-length (id + 1) n used (free + 1))

-- Only which ids are used matters.
free_from-cong :
    (id n : ℕ) (u v : List ℤ)
    → ((i : ℤ) → is_used u i ≡ is_used v i)
    → free_from id n u ≡ free_from id n v
unfolding free_from
free_from-cong id zero u v h = refl
free_from-cong id (suc n) u v h = ground (arith, free_from-cong (id + 1) n u v h, h (pos id))

-- The map that NodeFreeCounts builds in one pass holds, at each node, the ids of usedGPUIDs.
used_by_node-is_used :
    (m : Map (List ℤ)) (ls : List GpuLease) (node : String) (i : ℤ)
    → is_used (get_or (used_by_node m ls node) []) i
      ≡ (is_used (used_ids node ls) i || is_used (get_or (m node) []) i)
unfolding used_by_node used_ids is_used
used_by_node-is_used m [] node i = refl
used_by_node-is_used m (l ∷ ls) node i = ground (
  arith,
  used_by_node-is_used (put m l.spec.node_name (l.spec.gpu_id ∷ get_or (m l.spec.node_name) [])) ls
      node i,
  eq_iff l.spec.node_name node,
)

-- No node of the list has the name.
abbrev pub Unnamed : String → List Node → Type 0
Unnamed name [] = Unit
Unnamed name (n ∷ ns) = (n.metadata.name ≢ name) × Unnamed name ns

-- The names of the nodes differ, as the API server sees to.
abbrev pub Distinct : List Node → Type 0
Distinct [] = Unit
Distinct (n ∷ ns) = Unnamed n.metadata.name ns × Distinct ns

count_node-other :
    (used : Map (List ℤ)) (out : Map ℕ) (n : Node) (name : String)
    → n.metadata.name ≢ name
    → count_node used out n name ≡ out name
unfolding count_node
count_node-other used out n name h = ground (arith, eq_iff n.metadata.name name)

free_counts-Unnamed :
    (used : Map (List ℤ)) (out : Map ℕ) (ns : List Node) (name : String)
    → Unnamed name ns
    → free_counts used out ns name ≡ out name
unfolding free_counts
free_counts-Unnamed used out [] name h = refl
free_counts-Unnamed used out (n ∷ ns) name h =
    free_counts-Unnamed used (count_node used out n) ns name h.1
    ∙ count_node-other used out n name h.0

-- What the map says of a node by its labels and its leases: the length of FreeGPUIDs.
unfoldable pub expected_count : Node → List GpuLease → Option ℕ
expected_count n ls = elim (count_label (n.metadata.labels node_label_gpu_count)) [
  | none ↦ none
  | some count ↦ some (length (free_from 0 count (used_ids n.metadata.name ls)))
]

used_by_node-empty :
    (ls : List GpuLease) (node : String) (i : ℤ)
    → is_used (get_or (used_by_node empty ls node) []) i ≡ is_used (used_ids node ls) i
unfolding is_used
used_by_node-empty ls node i = used_by_node-is_used empty ls node i ∙ ground arith

free_length :
    (count : ℕ) (node : String) (ls : List GpuLease)
    → count_from 0 count (get_or (used_by_node empty ls node) []) 0
      ≡ length (free_from 0 count (used_ids node ls))
free_length count node ls =
    count_from-length 0 count _ 0
    ∙ ap (λ us. 0 + length us) (free_from-cong 0 count _ _ (used_by_node-empty ls node))
    ∙ omega arith

count_node_self :
    (out : Map ℕ) (n : Node) (ls : List GpuLease)
    → out n.metadata.name ≡ none
    → count_node (used_by_node empty ls) out n n.metadata.name ≡ expected_count n ls
unfolding count_node expected_count
count_node_self out n ls h =
    elim (Option-cases (count_label (n.metadata.labels node_label_gpu_count))) [
      | inl e ↦ rw (e, count_node, expected_count) h
      | inr (count, e) ↦
          rw (e, count_node, expected_count)
            (rw eq_refl (ap some (free_length count n.metadata.name ls)))
    ]

free_counts-head :
    (out : Map ℕ) (x : Node) (ns : List Node) (ls : List GpuLease)
    → Unnamed x.metadata.name ns
    → out x.metadata.name ≡ none
    → free_counts (used_by_node empty ls) out (x ∷ ns) x.metadata.name ≡ expected_count x ls
unfolding free_counts
free_counts-head out x ns ls u o =
    free_counts-Unnamed (used_by_node empty ls) (count_node (used_by_node empty ls) out x) ns
      x.metadata.name u
    ∙ count_node_self out x ls o

Unnamed-In :
    (name : String) (ns : List Node) (n : Node) → Unnamed name ns → In n ns → name ≢ n.metadata.name
Unnamed-In name [] n u h = absurd h
Unnamed-In name (x ∷ ns) n u (inl e) = λ p. u.0 (ap (λ (y : Node). y.metadata.name) e ∙ sym p)
Unnamed-In name (x ∷ ns) n u (inr h) = Unnamed-In name ns n u.1 h

free_counts-In :
    (ns : List Node) (out : Map ℕ) (ls : List GpuLease) (n : Node)
    → Distinct ns
    → In n ns
    → out n.metadata.name ≡ none
    → free_counts (used_by_node empty ls) out ns n.metadata.name ≡ expected_count n ls
unfolding free_counts
free_counts-In [] out ls n d h o = absurd h
free_counts-In (x ∷ ns) out ls n d (inl e) o =
    subst
      (λ (y : Node).
        out y.metadata.name ≡ none
        → free_counts (used_by_node empty ls) out (x ∷ ns) y.metadata.name ≡ expected_count y ls)
      e (free_counts-head out x ns ls d.0) o
free_counts-In (x ∷ ns) out ls n d (inr h) o =
    free_counts-In ns (count_node (used_by_node empty ls) out x) ls n d.1 h (
      count_node-other (used_by_node empty ls) out x n.metadata.name
        (Unnamed-In x.metadata.name ns n d.0 h)
      ∙ o)

-- When the reads succeed, NodeFreeCounts says of every node that carries a valid gpu-count label how
-- many ids FreeGPUIDs would return for it, and has no entry for a node without one.
pub node_free_counts_agree :
    {W : Type 0} (api : Api W) (s : State W) (ns : List Node) (ls : List GpuLease)
    → (api.list_nodes s.world).0 ≡ ok ns
    → (api.list_leases (api.list_nodes s.world).1).0 ≡ ok ls
    → Distinct ns
    → (m : Map ℕ) × ((node_free_counts api s).0 ≡ ok m)
      × ((n : Node) → In n ns → m n.metadata.name ≡ expected_count n ls)
unfolding node_free_counts read ◌>>=◌
node_free_counts_agree api s ns ls e e' d = (
  free_counts (used_by_node empty ls) empty ns,
  ground arith,
  λ n h. free_counts-In ns empty ls n d h refl,
)
