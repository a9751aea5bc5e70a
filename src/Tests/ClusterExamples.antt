-- ===== src/Tests/ClusterExamples.antt =====
-- The theorems on nodes, names, annotations and pods at work.
use mathlib.Core.List.{Perm}
use gpu_lease.Common.{
  ℕ, ◌+◌, ◌≡◌, ◌≢◌, refl, ◌↔◌, ◌⊎◌, ◌≤◌, ◌<◌, none, some, List, [], ◌∷◌, ℤ, pos, ◌+ℤ◌, arith,
  String, Option, Map, empty, put, remove, In, filter, get_or, ltb, eq_iff,
}
use gpu_lease.Decimal.{parse_int32}
use gpu_lease.Names.{annotation_warm_replicas, annotation_local_queue}
use gpu_lease.Names.Injective.{lease_name-injective}
use gpu_lease.Names.Settings.{parse_deployment_settings}
use gpu_lease.Names.Settings.Bounds.{
  InRange, parse_deployment_settings-InRange, parse_deployment_settings_malformed,
}
use gpu_lease.Objects.{GpuLease, LeasePhase, Pod, Node, reason_node_mismatch, reason_pod_gone}
use gpu_lease.Exec.{ok, err, exhausted}
use gpu_lease.Inventory.{parse_count, free_gpu_ids, allocate_id, node_free_counts}
use gpu_lease.Inventory.Free.{Ascending, IsFree, free_gpu_ids_exact, allocate_id_lowest}
use gpu_lease.Inventory.Counts.{expected_count, node_free_counts_agree}
use gpu_lease.Pods.{
  target_hot, sort_promotion_candidates, sort_demotion_candidates, orphan_reason_of,
}
use gpu_lease.Pods.Target.{target_hot_exact}
use gpu_lease.Pods.Candidates.{PromotesFirst, Pairs, sort_candidates_order}
use gpu_lease.Pods.Orphans.{StillClaims, orphan_reason_of_exact}
use gpu_lease.Tests.Fixtures.{test_api, test_state, test_world, test_node, lease_on, pod_named}

two_gpus : parse_count "2" ≡ some 2
unfolding parse_count parse_int32
two_gpus = refl

allocate_id_lowest_example :
    (((allocate_id test_api "node-a" test_state).0 ≡ err exhausted)
      × ((i : ℕ) → ¬ IsFree "node-a" 2 test_world.leases i))
    ⊎ ((i : ℕ) × ((allocate_id test_api "node-a" test_state).0 ≡ ok (pos i))
        × IsFree "node-a" 2 test_world.leases i
        × ((j : ℕ) → j < i → ¬ IsFree "node-a" 2 test_world.leases j))
allocate_id_lowest_example =
    allocate_id_lowest test_api "node-a" "2" 2 test_node test_world.leases test_state refl refl
      two_gpus refl

free_gpu_ids_exact_example :
    (ids : List ℤ) × ((free_gpu_ids test_api "node-a" test_state).0 ≡ ok ids)
    × Ascending 0 ids
    × ((i : ℕ) → In (pos i) ids ↔ IsFree "node-a" 2 test_world.leases i)
free_gpu_ids_exact_example =
    free_gpu_ids_exact test_api "node-a" "2" 2 test_node test_world.leases test_state refl refl
      two_gpus refl

node_free_counts_agree_example :
    (m : Map ℕ) × ((node_free_counts test_api test_state).0 ≡ ok m)
    × ((n : Node) → In n test_world.nodes → m n.metadata.name ≡ expected_count n test_world.leases)
node_free_counts_agree_example =
    node_free_counts_agree test_api test_state test_world.nodes test_world.leases refl refl (tt, tt)

abbrev node_a : String
node_a = "node-a"

lease_name-injective_example : (node_a ≡ node_a) × (pos 1 ≡ pos 1)
lease_name-injective_example = lease_name-injective node_a node_a (pos 1) (pos 1) refl

abbrev annotations : Map String
annotations = put empty annotation_warm_replicas "3"

abbrev no_durations : String → Option ℤ
no_durations s = none

parse_deployment_settings-InRange_example :
    InRange (parse_deployment_settings no_durations annotations "dep")
parse_deployment_settings-InRange_example =
    parse_deployment_settings-InRange no_durations annotations "dep"

not_the_queue : annotation_warm_replicas ≢ annotation_local_queue
not_the_queue = ground (arith, eq_iff annotation_warm_replicas annotation_local_queue)

malformed : parse_int32 "many" ≡ none
unfolding parse_int32
malformed = refl

parse_deployment_settings_malformed_example :
    parse_deployment_settings no_durations (put annotations annotation_warm_replicas "many") "dep"
    ≡ parse_deployment_settings no_durations (remove annotations annotation_warm_replicas) "dep"
parse_deployment_settings_malformed_example =
    parse_deployment_settings_malformed no_durations annotations "dep" annotation_warm_replicas
      "many" not_the_queue malformed refl

target_hot_exact_example :
    ((1 + 2 ≤ 5) × (target_hot 5 (pos 2) (pos 1) +ℤ pos 2 ≡ pos 5))
    ⊎ ((5 < 1 + 2)
        × (((1 ≤ 5) × (target_hot 5 (pos 2) (pos 1) ≡ pos 1))
            ⊎ ((5 < 1) × (target_hot 5 (pos 2) (pos 1) ≡ pos 5))))
target_hot_exact_example = target_hot_exact 5 2 1

abbrev free : Map ℕ
free = put (put empty "node-a" 1) "node-b" 3

abbrev warm_pods : List Pod
warm_pods = pod_named "p" "node-a" 1 ∷ pod_named "q" "node-b" 2 ∷ pod_named "r" "node-b" 1 ∷ []

sort_candidates_order_example :
    Perm
      (sort_promotion_candidates warm_pods free)
      (filter (λ p. ltb 0 (get_or (free p.node_name) 0)) warm_pods)
    × Pairs (PromotesFirst free) (sort_promotion_candidates warm_pods free)
    × Perm (sort_demotion_candidates warm_pods) warm_pods
    × Pairs
        (λ p q. q.metadata.creation_timestamp ≤ p.metadata.creation_timestamp)
        (sort_demotion_candidates warm_pods)
sort_candidates_order_example = sort_candidates_order warm_pods free

abbrev claim_pod : Pod
claim_pod = pod_named "pod-0" "node-b" 1

abbrev bound_lease : GpuLease
bound_lease = lease_on "node-a" (pos 0) LeasePhase.bound none

orphan_reason_of_exact_example :
    (StillClaims claim_pod bound_lease none
      × (claim_pod.node_name ≡ bound_lease.spec.node_name)
      × (orphan_reason_of claim_pod bound_lease none ≡ ""))
    ⊎ ((StillClaims claim_pod bound_lease none
          × (claim_pod.node_name ≢ bound_lease.spec.node_name)
          × (orphan_reason_of claim_pod bound_lease none ≡ reason_node_mismatch))
        ⊎ ((¬ StillClaims claim_pod bound_lease none)
            × (orphan_reason_of claim_pod bound_lease none ≡ reason_pod_gone)))
orphan_reason_of_exact_example = orphan_reason_of_exact claim_pod bound_lease none
