-- ===== src/LeaseController/Reconcile/Cleanup.antt =====
-- What the exits of gpulease_controller.go guarantee: transitionToFailed and reconcileDeletion.
use gpu_lease.Common.{ℕ, ◌≡◌, refl, ◌∙◌, true, Option, none, some, String}
use gpu_lease.Names.{finalizer}
use gpu_lease.Objects.{GpuLease, failed, releasing, Pod, Message}
use gpu_lease.Exec.{Result, ok, err, Call, Exec, pure, read, perform, ◌>>=◌}
use gpu_lease.Exec.Keeps.{Yields, Yields-if, Yields-pure}
use gpu_lease.Exec.Succeeds.{Succeeds, Answers, succeeds_rules}
use gpu_lease.Exec.Makes.{
  Grows, Makes, Makes-then, grows_rules, Makes-perform, Makes-note, Makes-left, Makes-right,
}
use gpu_lease.Kueue.{workload_name}
use gpu_lease.Client.{Api, Machinery}
use gpu_lease.LeaseController.{
  set_lease_condition, set_condition, with_phase, clock, update_status, delete_workload,
  get_claim_pod, revert_pod_to_warm, tolerate_not_found,
}
use gpu_lease.LeaseController.Release.{
  transition_to_failed, release_claim_pod, release_found, release_pod, call_release, tear_down,
  to_releasing, is_releasing, reconcile_deletion, update_lease, without_finalizer,
}

-- A write of the phase Failed.
abbrev pub IsFailedWrite : Call → Type 0
IsFailedWrite (Call.update_status l) = l.status.phase ≡ failed
IsFailedWrite c = ⊥

-- The same lease: its name and its spec.
abbrev pub IsSame : GpuLease → GpuLease → Type 0
IsSame lease l = (l.metadata.name ≡ lease.metadata.name) × (l.spec ≡ lease.spec)

-- An update of the lease that takes away its finalizer.
abbrev pub IsUnfinalizing : Machinery → GpuLease → Call → Type 0
IsUnfinalizing k lease (Call.update_lease l) =
    (old : GpuLease) × IsSame lease old
    × (l ≡ record old { metadata = k.remove_finalizer old.metadata finalizer })
IsUnfinalizing k lease c = ⊥

module _ {W : Type 0} (api : Api W) (k : Machinery) where
  Succeeds-release_found :
      (lease : GpuLease) (r : Result (Option Pod)) → Succeeds (release_found api k lease r)
  unfolding release_found release_pod
  Succeeds-release_found lease (err e) = search succeeds_rules
  Succeeds-release_found lease (ok none) = search succeeds_rules
  Succeeds-release_found lease (ok (some pod)) = search succeeds_rules depth 10

  -- releaseClaimPod never fails, whatever the API server answers and whether the pod is reachable.
  pub release_claim_pod-Succeeds : (lease : GpuLease) → Succeeds (release_claim_pod api k lease)
  unfolding release_claim_pod
  release_claim_pod-Succeeds lease = search (succeeds_rules, Succeeds-release_found)

  Answers-delete :
      (lease : GpuLease)
      → ((namespace name : String)
          → Answers (λ w.
            let (r, w') = api.delete_workload namespace name w in (tolerate_not_found r, w')))
      → Succeeds (delete_workload api k lease)
  unfolding delete_workload
  Answers-delete lease h = search (succeeds_rules, h)

  -- Where the API server answers the three writes of reconcileDeletion (a NotFound for the Workload
  -- counts as an answer), the deletion of a lease ends without an error: neither a missing pod nor
  -- one that refuses DELETE /lease, nor a failed patch, keeps the lease.
  pub reconcile_deletion-Succeeds :
      (lease : GpuLease)
      → ((l : GpuLease) → Answers (api.update_lease_status l))
      → ((l : GpuLease) → Answers (api.update_lease l))
      → ((namespace name : String)
          → Answers (λ w.
            let (r, w') = api.delete_workload namespace name w in (tolerate_not_found r, w')))
      → Succeeds (reconcile_deletion api k lease)
  unfolding reconcile_deletion tear_down to_releasing update_status update_lease
  reconcile_deletion-Succeeds lease hs hu hd =
      search (succeeds_rules, hs, hu, hd, Answers-delete, release_claim_pod-Succeeds) depth 14

module _ {W : Type 0} (api : Api W) (k : Machinery) where
  Grows-release_found :
      (lease : GpuLease) (r : Result (Option Pod)) → Grows (release_found api k lease r)
  unfolding release_found release_pod call_release revert_pod_to_warm
  Grows-release_found lease (err e) = search grows_rules
  Grows-release_found lease (ok none) = search grows_rules
  Grows-release_found lease (ok (some pod)) = search grows_rules depth 12

  Grows-release_claim_pod : (lease : GpuLease) → Grows (release_claim_pod api k lease)
  unfolding release_claim_pod get_claim_pod
  Grows-release_claim_pod lease = search (grows_rules, Grows-release_found) depth 10

  Makes-delete_workload :
      {P : Call → Type 0}
      → (lease : GpuLease)
      → P (Call.delete_workload lease.spec.claim_ref.namespace (workload_name lease))
      → Makes P (delete_workload api k lease)
  unfolding delete_workload
  Makes-delete_workload lease p = search (Makes-perform)

  transition_to_failed-Deletes :
      (lease : GpuLease) (reason : String) (message : Message)
      → Makes
          (λ c. c ≡ Call.delete_workload lease.spec.claim_ref.namespace (workload_name lease))
          (transition_to_failed api k lease reason message)
  unfolding transition_to_failed set_lease_condition clock update_status
  transition_to_failed-Deletes lease reason message =
      Makes-left (delete_workload api k lease) _ (Makes-delete_workload lease refl)
        (λ u. search (grows_rules, Grows-release_claim_pod) depth 16)

  pub Makes-set_lease_condition :
      {P : Call → Type 0} {B : Type 0}
      → (lease : GpuLease) (type status reason : String) (message : Message)
      → (f : GpuLease → Exec W B)
      → ((now : ℕ) → Makes P (f (set_condition api k lease type status reason message now)))
      → Makes P (set_lease_condition api k lease type status reason message >>= f)
  unfolding set_lease_condition ◌>>=◌ clock pure read
  Makes-set_lease_condition lease type status reason message f h = record {
    made = λ s a. (h (api.now s.world).0).made (record s { world = (api.now s.world).1 }) a;
  }

  transition_to_failed-Fails :
      (lease : GpuLease) (reason : String) (message : Message)
      → Makes IsFailedWrite (transition_to_failed api k lease reason message)
  unfolding transition_to_failed update_status set_condition with_phase
  transition_to_failed-Fails lease reason message =
      search (Makes-set_lease_condition, Makes-right, Makes-left, Makes-perform, grows_rules) depth
        16

  transition_to_failed-Counts :
      (lease : GpuLease) (reason : String) (message : Message)
      → Makes
          (λ c. c ≡ Call.count_failure lease.spec.deployment_ref.name reason)
          (transition_to_failed api k lease reason message)
  unfolding transition_to_failed update_status
  transition_to_failed-Counts lease reason message =
      search (Makes-set_lease_condition, Makes-right, Makes-left, Makes-note, grows_rules) depth 16

  transition_to_failed-Tells :
      (lease : GpuLease) (reason : String) (message : Message)
      → Makes (λ c. c ≡ Call.event reason) (transition_to_failed api k lease reason message)
  unfolding transition_to_failed update_status
  transition_to_failed-Tells lease reason message =
      search (Makes-set_lease_condition, Makes-right, Makes-left, Makes-note, grows_rules) depth 16

  -- transitionToFailed ends without an error only where the lease's Workload has been deleted or was
  -- not there, a write of the phase Failed has succeeded, the failure has been counted for the
  -- Deployment and the reason, and the event has been recorded.
  pub transition_to_failed-Frees :
      (lease : GpuLease) (reason : String) (message : Message)
      → Makes
          (λ c. c ≡ Call.delete_workload lease.spec.claim_ref.namespace (workload_name lease))
          (transition_to_failed api k lease reason message)
        × Makes IsFailedWrite (transition_to_failed api k lease reason message)
        × Makes
            (λ c. c ≡ Call.count_failure lease.spec.deployment_ref.name reason)
            (transition_to_failed api k lease reason message)
        × Makes (λ c. c ≡ Call.event reason) (transition_to_failed api k lease reason message)
  transition_to_failed-Frees lease reason message = (
    transition_to_failed-Deletes lease reason message,
    transition_to_failed-Fails lease reason message,
    transition_to_failed-Counts lease reason message,
    transition_to_failed-Tells lease reason message,
  )

  Grows-update_lease : (lease : GpuLease) → Grows (update_lease api k lease)
  unfolding update_lease
  Grows-update_lease lease = search grows_rules

  Makes-update_lease :
      (lease old : GpuLease)
      → IsSame lease old
      → Makes (IsUnfinalizing k lease) (update_lease api k (without_finalizer api k old))
  unfolding update_lease without_finalizer
  Makes-update_lease lease old same =
      Makes-perform (Call.update_lease (without_finalizer api k old))
        (api.update_lease (without_finalizer api k old)) (old, same, refl)

  module _ (lease : GpuLease)
      (returns : (l : GpuLease) (w : W) (l' : GpuLease)
        → (api.update_lease_status l w).0 ≡ ok l'
        → IsSame l l') where
    Yields-update_status :
        (l : GpuLease)
        → IsSame lease l
        → Yields (λ s. Unit {0}) (IsSame lease) (update_status api k l)
    unfolding update_status perform
    Yields-update_status l (n, e) = record {
      yields = λ s l' i h. let (n', e') = returns l s.world l' h in (n' ∙ n, e' ∙ e);
    }

    Yields-to_releasing : Yields (λ s. Unit {0}) (IsSame lease) (to_releasing api k lease)
    unfolding to_releasing pure with_phase
    Yields-to_releasing =
        Yields-if (is_releasing lease.status.phase) (pure lease) _
          (λ e. Yields-pure lease (refl, refl))
          (λ e. Yields-update_status (with_phase lease releasing lease.status.message) (refl, refl))

    -- Where a status write that succeeds returns the lease that was written, under its name and with
    -- its spec: the deletion of a lease that has the finalizer ends without an error only where the
    -- lease's own Workload has been deleted or was not there, and where the API server has taken an
    -- update of this lease that takes away the finalizer.
    pub reconcile_deletion-Frees :
        k.contains_finalizer lease.metadata finalizer ≡ true
        → Makes
            (λ c. c ≡ Call.delete_workload lease.spec.claim_ref.namespace lease.metadata.name)
            (reconcile_deletion api k lease)
          × Makes (IsUnfinalizing k lease) (reconcile_deletion api k lease)
    unfolding reconcile_deletion tear_down workload_name
    reconcile_deletion-Frees h = rw h (
      Makes-then _ _ Yields-to_releasing (λ l same.
          Makes-left (delete_workload api k l) _ (Makes-delete_workload l (cc))
            (λ u. search (grows_rules, Grows-release_claim_pod, Grows-update_lease) depth 12)),
      Makes-then _ _ Yields-to_releasing (λ l same. Makes-right _ _ (λ u.
          Makes-right _ _
            (λ v. Makes-left _ _ (Makes-update_lease lease l same) (λ x. search grows_rules)))),
    )
