-- ===== src/Pods/Orphans.antt =====
-- Which claims of a lease are still valid.
use gpu_lease.Common.{◌≡◌, ◌≢◌, ◌⊎◌, true, false, Option, none, eq_iff, arith}
use gpu_lease.Objects.{Pod, GpuLease, Selector, reason_pod_gone, reason_node_mismatch}
use gpu_lease.Pods.{is_pod_ready, orphan_reason_of, deselected}

-- The pod is the one that the lease was made for, it is not going away, and it is ready and selected.
pub record StillClaims (pod : Pod) (lease : GpuLease) (sel : Option Selector) : Type 0 where
  pub same_pod : (lease.spec.claim_ref.uid ≡ "") ⊎ (pod.metadata.uid ≡ lease.spec.claim_ref.uid)
  pub stays : pod.metadata.deletion_timestamp ≡ none
  pub ready : is_pod_ready pod ≡ true
  pub selected : deselected sel pod.metadata.labels ≡ false

-- The reason is empty exactly for a claiming pod on the lease's node, it is NodeMismatch exactly for
-- a claiming pod on another node, and it is PodGone in every other case.
pub orphan_reason_of_exact :
    (pod : Pod) (lease : GpuLease) (sel : Option Selector)
    → (StillClaims pod lease sel
        × (pod.node_name ≡ lease.spec.node_name)
        × (orphan_reason_of pod lease sel ≡ ""))
      ⊎ ((StillClaims pod lease sel
            × (pod.node_name ≢ lease.spec.node_name)
            × (orphan_reason_of pod lease sel ≡ reason_node_mismatch))
          ⊎ ((¬ StillClaims pod lease sel) × (orphan_reason_of pod lease sel ≡ reason_pod_gone)))
unfolding orphan_reason_of
orphan_reason_of_exact pod lease sel = ground (
  arith,
  eq_iff lease.spec.claim_ref.uid "",
  eq_iff pod.metadata.uid lease.spec.claim_ref.uid,
  eq_iff pod.node_name lease.spec.node_name,
)
