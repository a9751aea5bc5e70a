-- ===== src/Pods/Candidates.antt =====
-- The orders in which pods are promoted and demoted.
use mathlib.Core.List.{Perm}
use gpu_lease.Common.{
  ℕ, ◌≤◌, ◌<◌, ◌≡◌, ◌⊎◌, Bool, false, List, [], ◌∷◌, Map, All, filter, get_or, ltb,
  stable_sort-perm, stable_sort-IsOrdered, IsOrdered, IsWeakOrder, arith,
}
use gpu_lease.Objects.{Pod}
use gpu_lease.Pods.{
  promotes_before, demotes_before, is_eligible, free_on, sort_promotion_candidates,
  sort_demotion_candidates,
}

promotes_before-IsWeakOrder : (free : Map ℕ) → IsWeakOrder (promotes_before free)
unfolding promotes_before free_on
promotes_before-IsWeakOrder free = record {
  asym = λ p q. ground arith;
  negative_trans = λ p q r. ground arith;
}

demotes_before-IsWeakOrder : IsWeakOrder demotes_before
unfolding demotes_before
demotes_before-IsWeakOrder = record {
  asym = λ p q. ground arith;
  negative_trans = λ p q r. ground arith;
}

-- `p` comes no later than `q` by node free count, and by age on a tie.
abbrev pub PromotesFirst : Map ℕ → Pod → Pod → Type 0
PromotesFirst free p q =
    (get_or (free q.node_name) 0 < get_or (free p.node_name) 0)
    ⊎ ((get_or (free q.node_name) 0 ≡ get_or (free p.node_name) 0)
        × (p.metadata.creation_timestamp ≤ q.metadata.creation_timestamp))

-- `r` holds of every element with every later one.
abbrev pub Pairs : (Pod → Pod → Type 0) → List Pod → Type 0
Pairs r [] = Unit
Pairs r (p ∷ ps) = All (r p) ps × Pairs r ps

All-map : (P Q : Pod → Type 0) (ps : List Pod) → ((p : Pod) → P p → Q p) → All P ps → All Q ps
All-map P Q [] f h = tt
All-map P Q (p ∷ ps) f h = (f p h.0, All-map P Q ps f h.1)

IsOrdered-Pairs :
    (less : Pod → Pod → Bool) (r : Pod → Pod → Type 0) (ps : List Pod)
    → ((p q : Pod) → less q p ≡ false → r p q)
    → IsOrdered less ps
    → Pairs r ps
IsOrdered-Pairs less r [] f h = tt
IsOrdered-Pairs less r (p ∷ ps) f h =
    (All-map (λ q. less q p ≡ false) (r p) ps (f p) h.0, IsOrdered-Pairs less r ps f h.1)

not_before : (free : Map ℕ) (p q : Pod) → promotes_before free q p ≡ false → PromotesFirst free p q
unfolding promotes_before free_on
not_before free p q h = ground arith

sort_promotion_candidates_order :
    (pods : List Pod) (free : Map ℕ)
    → Perm
        (sort_promotion_candidates pods free)
        (filter (λ p. ltb 0 (get_or (free p.node_name) 0)) pods)
      × Pairs (PromotesFirst free) (sort_promotion_candidates pods free)
unfolding sort_promotion_candidates is_eligible free_on
sort_promotion_candidates_order pods free = (
  stable_sort-perm (promotes_before free) (filter (is_eligible free) pods),
  IsOrdered-Pairs (promotes_before free) (PromotesFirst free) _ (not_before free) (
      stable_sort-IsOrdered (promotes_before free) (promotes_before-IsWeakOrder free)
        (filter (is_eligible free) pods)),
)

sort_demotion_candidates_order :
    (pods : List Pod)
    → Perm (sort_demotion_candidates pods) pods
      × Pairs
          (λ p q. q.metadata.creation_timestamp ≤ p.metadata.creation_timestamp)
          (sort_demotion_candidates pods)
unfolding sort_demotion_candidates
sort_demotion_candidates_order pods = (
  stable_sort-perm demotes_before pods,
  IsOrdered-Pairs demotes_before _ _ (λ p q h. unfold demotes_before in ground arith)
      (stable_sort-IsOrdered demotes_before demotes_before-IsWeakOrder pods),
)

-- The candidates for a promotion are the given pods whose node has a free GPU, each once; a pod on a
-- node with more free GPUs comes first, and of two on equal terms the older one. Those for a
-- demotion are the given pods, each once, the newest first.
pub sort_candidates_order :
    (pods : List Pod) (free : Map ℕ)
    → Perm
        (sort_promotion_candidates pods free)
        (filter (λ p. ltb 0 (get_or (free p.node_name) 0)) pods)
      × Pairs (PromotesFirst free) (sort_promotion_candidates pods free)
      × Perm (sort_demotion_candidates pods) pods
      × Pairs
          (λ p q. q.metadata.creation_timestamp ≤ p.metadata.creation_timestamp)
          (sort_demotion_candidates pods)
sort_candidates_order pods free =
    let (p, r) = sort_promotion_candidates_order pods free in
    let (q, s) = sort_demotion_candidates_order pods in (p, r, q, s)
