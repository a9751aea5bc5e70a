-- ===== src/WarmPool.antt =====
-- internal/controller/warmpool_controller.go: which pods get a lease and which give theirs back.
pub mod Orphans
pub mod Reconcile
pub mod Setup
pub mod Decision
pub mod Durations
use gpu_lease.Common.{
  ℕ, zero, suc, ◌+◌, String, Bool, true, false, Option, none, some, List, [], ◌∷◌, str_eq, not,
  ◌&&◌, ◌||◌, ltb, leb, ℤ, pos, ◌-ℤ◌, leb_ℤ, ltb_ℤ, filter, find, if◌then◌else◌, ◌*◌, Map,
}
use gpu_lease.Names.{second, finalizer, lease_name, state_activating, state_releasing}
use gpu_lease.Names.Settings.{DeploymentSettings}
use gpu_lease.Objects.{
  GpuLease, Pod, Deployment, new_meta, new_status, default_failed_lease_retention,
  reason_no_free_gpu_on_any_pod_node,
}
use gpu_lease.Exec.{
  Exec, Error, not_found, already_exists, exhausted, node_not_found, other, Result, ok, err, Call,
  event, count_failure, count_promotion, count_demotion, pure, raise, read, perform, try, note,
  ◌>>=◌, ◌>>◌,
}
use gpu_lease.Client.{Api, Machinery}
use gpu_lease.Inventory.{free_gpu_ids, node_capacity}
use gpu_lease.Pods.{sort_promotion_candidates, sort_demotion_candidates, patch_pod_state_label}
use gpu_lease.LeaseController.{tolerate_not_found}

-- ResyncPeriod and FailedLeaseRetention of WarmPoolReconciler
pub record Config : Type 0 where
  pub resync_period : ℤ
  pub failed_lease_retention : ℤ

abbrev pub event_reason_promoted : String
event_reason_promoted = "PromotedToHot"

abbrev pub event_reason_demoted : String
event_reason_demoted = "DemotedToWarm"

abbrev pub event_reason_warm_deficit : String
event_reason_warm_deficit = "WarmDeficit"

abbrev pub event_reason_orphan_lease_reclaimed : String
event_reason_orphan_lease_reclaimed = "OrphanLeaseReclaimed"

abbrev pub event_reason_failed_lease_reclaimed : String
event_reason_failed_lease_reclaimed = "FailedLeaseReclaimed"

-- minPositiveDuration
unfoldable pub min_positive_duration : ℤ → ℤ → ℤ
min_positive_duration a b =
    if leb_ℤ a (pos 0) then b else if leb_ℤ b (pos 0) then a else if ltb_ℤ a b then a else b

-- The lease that acquireLeaseOnNode creates for an id.
unfoldable pub new_lease : Deployment → DeploymentSettings → Pod → String → String → ℤ → GpuLease
new_lease dep settings pod node model id = record {
  metadata = new_meta "" (lease_name node id) (finalizer ∷ []);
  spec = record {
    node_name = node;
    gpu_id = id;
    gpu_model = model;
    claim_ref = record {
      namespace = pod.metadata.namespace;
      name = pod.metadata.name;
      uid = pod.metadata.uid;
    };
    deployment_ref = record {
      namespace = dep.metadata.namespace;
      name = dep.metadata.name;
      uid = dep.metadata.uid;
    };
    local_queue_name = settings.local_queue_name;
  };
  status = new_status;
}

unfoldable pub belongs_to : Deployment → GpuLease → Bool
belongs_to dep l =
    str_eq l.spec.deployment_ref.namespace dep.metadata.namespace
    && str_eq l.spec.deployment_ref.name dep.metadata.name

unfoldable pub claims_pod : Pod → GpuLease → Bool
claims_pod pod l =
    str_eq l.spec.claim_ref.namespace pod.metadata.namespace
    && str_eq l.spec.claim_ref.name pod.metadata.name
    && (str_eq l.spec.claim_ref.uid "" || str_eq l.spec.claim_ref.uid pod.metadata.uid)

-- findLeaseForPod
unfoldable pub find_lease_for_pod : List GpuLease → Pod → Option GpuLease
unfolding claims_pod
find_lease_for_pod leases pod = find (claims_pod pod) leases

module _ {W : Type 0} (api : Api W) where
  -- The branches on the error of Create; `next` goes on with the ids that are left.
  unfoldable pub after_create : Result GpuLease → Exec W GpuLease → Exec W GpuLease
  after_create (ok lease) next = pure lease
  after_create (err already_exists) next = next
  after_create (err e) next = raise e

  -- The loop of acquireLeaseOnNode over the free ids; `lease_for` is the lease of an id.
  unfoldable pub acquire_first : (lease_for : ℤ → GpuLease) → List ℤ → Exec W GpuLease
  acquire_first lease_for [] = raise exhausted
  acquire_first lease_for (id ∷ ids) = do
    r ← try (perform (Call.create_lease (lease_for id)) (api.create_lease (lease_for id)))
    after_create r (acquire_first lease_for ids)

  -- acquireLeaseOnNode after FreeGPUIDs
  unfoldable pub acquire_free :
      Deployment → DeploymentSettings → Pod → String → List ℤ → Exec W GpuLease
  acquire_free dep settings pod node [] = raise exhausted
  acquire_free dep settings pod node (id ∷ ids) = do
    capacity ← node_capacity api node
    acquire_first (new_lease dep settings pod node capacity.1) (id ∷ ids)

  -- acquireLeaseOnNode
  unfoldable pub acquire_lease_on_node :
      Deployment → DeploymentSettings → Pod → String → Exec W GpuLease
  acquire_lease_on_node dep settings pod node = do
    free ← free_gpu_ids api node
    acquire_free dep settings pod node free

  -- The body of promote's loop, by the result of the acquisition; `next` goes on with the
  -- candidates that are left and the number promoted so far.
  unfoldable pub after_acquire : Pod → ℕ → Result GpuLease → (ℕ → Exec W ℕ) → Exec W ℕ
  after_acquire pod promoted (err exhausted) next = next promoted
  after_acquire pod promoted (err e) next = raise e
  after_acquire pod promoted (ok lease) next = do
    patch_pod_state_label api pod state_activating
    note count_promotion
    note (event event_reason_promoted)
    next (promoted + 1)

  -- The loop of promote
  unfoldable pub promote_each :
      Deployment → DeploymentSettings → (need : ℕ) → List Pod → (promoted : ℕ) → Exec W ℕ
  promote_each dep settings need [] promoted = pure promoted
  promote_each dep settings need (pod ∷ pods) promoted =
      if leb need promoted then pure promoted else do
        r ← try (acquire_lease_on_node dep settings pod pod.node_name)
        after_acquire pod promoted r (promote_each dep settings need pods)

  -- The report of a shortfall at the end of promote
  unfoldable pub report_shortfall : Deployment → ℕ → ℕ → Exec W ℕ
  report_shortfall dep need promoted =
      if ltb promoted need
      then (do
        note (count_failure dep.metadata.name reason_no_free_gpu_on_any_pod_node)
        note (event reason_no_free_gpu_on_any_pod_node)
        pure promoted)
      else pure promoted

  -- promote
  unfoldable pub promote :
      Deployment → DeploymentSettings → List Pod → (need : ℕ) → Map ℕ → Exec W ℕ
  promote dep settings warm_pods need free_by_node = do
    promoted ←
        promote_each dep settings need (sort_promotion_candidates warm_pods free_by_node) zero
    report_shortfall dep need promoted

  -- leasesForDeployment
  unfoldable pub leases_for_deployment : Deployment → Exec W (List GpuLease)
  leases_for_deployment dep = do all ← read api.list_leases; pure (filter (belongs_to dep) all)

  -- A deletion of a lease, for which NotFound is success
  unfoldable pub delete_lease : GpuLease → Exec W (Unit {0})
  delete_lease lease =
      perform (Call.delete_lease lease)
        (λ w. let (r, w') = api.delete_lease lease w in (tolerate_not_found r, w'))

  unfoldable pub delete_found : Option GpuLease → Exec W (Unit {0})
  delete_found none = pure tt
  delete_found (some lease) = delete_lease lease

  -- The loop of demote
  unfoldable pub demote_each :
      List GpuLease → (need : ℕ) → List Pod → (demoted : ℕ) → Exec W (Unit {0})
  demote_each leases need [] demoted = pure tt
  demote_each leases need (pod ∷ pods) demoted = if leb need demoted then pure tt else do
    patch_pod_state_label api pod state_releasing
    delete_found (find_lease_for_pod leases pod)
    note count_demotion
    note (event event_reason_demoted)
    demote_each leases need pods (demoted + 1)

  -- demote
  unfoldable pub demote : Deployment → List Pod → (need : ℕ) → Exec W (Unit {0})
  demote dep hot_pods need = do
    leases ← leases_for_deployment dep
    demote_each leases need (sort_demotion_candidates hot_pods) zero
