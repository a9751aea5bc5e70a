-- ===== src/LeaseController/Reconcile/Keeps/Calls.antt =====
-- The calls that the phases of gpulease_controller.go share keep what every single call keeps.
use gpu_lease.Common.{ℕ, String, Option, none, some}
use gpu_lease.Objects.{Meta, LeaseSpec, GpuLease, LeasePhase, failed, Message, Pod}
use gpu_lease.Exec.{
  Exec, Result, ok, err, State, Call, pure, read, ◌>>=◌, event, count_failure, note,
}
use gpu_lease.Exec.Keeps.{Keeps, OnCall, keeps_rules, Keeps-read, Keeps-perform, Keeps-note}
use gpu_lease.Client.{Api, Machinery}
use gpu_lease.Client.Neutral.{Neutral}
use gpu_lease.LeaseController.{
  update_status, delete_workload, get_claim_pod, revert_pod_to_warm, mark_pod_hot,
  set_lease_condition, clock, with_phase, set_condition, deployment_settings,
}
use gpu_lease.LeaseController.Release.{
  release_claim_pod, release_found, release_pod, call_release, transition_to_failed,
}

module _ {W : Type 0} (api : Api W) (k : Machinery) (I : State W → Type 0) (v : Neutral I api) where
  pub Keeps-event : (reason : String) → Keeps I (note (event reason))
  Keeps-event reason = Keeps-note _ (v.events reason)

  pub Keeps-failure :
      (deployment reason : String) → Keeps I (note (count_failure deployment reason))
  Keeps-failure deployment reason = Keeps-note _ (v.failures deployment reason)

  pub Keeps-clock : Keeps I (clock api k)
  unfolding clock
  Keeps-clock = Keeps-read _ v.now

  pub Keeps-get_claim_pod : (lease : GpuLease) → Keeps I (get_claim_pod api k lease)
  unfolding get_claim_pod
  Keeps-get_claim_pod lease =
      Keeps-read _ (v.get_pod lease.spec.claim_ref.namespace lease.spec.claim_ref.name)

  pub Keeps-deployment_settings : (lease : GpuLease) → Keeps I (deployment_settings api k lease)
  unfolding deployment_settings
  Keeps-deployment_settings lease =
      Keeps-read _
        (v.get_deployment lease.spec.deployment_ref.namespace lease.spec.deployment_ref.name)

  pub Keeps-delete_workload : (lease : GpuLease) → Keeps I (delete_workload api k lease)
  unfolding delete_workload
  Keeps-delete_workload lease = Keeps-perform _ _ (v.delete_workload _ _)

  pub Keeps-mark_pod_hot : (pod : Pod) (lease : GpuLease) → Keeps I (mark_pod_hot api k pod lease)
  unfolding mark_pod_hot
  Keeps-mark_pod_hot pod lease = Keeps-perform _ _ (v.patch pod _)

  Keeps-revert_pod_to_warm : (pod : Pod) → Keeps I (revert_pod_to_warm api k pod)
  unfolding revert_pod_to_warm
  Keeps-revert_pod_to_warm pod = Keeps-perform _ _ (v.patch pod _)

  Keeps-call_release : (pod : Pod) → Keeps I (call_release api k pod)
  unfolding call_release
  Keeps-call_release pod = Keeps-perform _ _ (v.releases pod.pod_ip)

  Keeps-release_found :
      (lease : GpuLease) (r : Result (Option Pod)) → Keeps I (release_found api k lease r)
  unfolding release_found release_pod
  Keeps-release_found lease (err e) = search keeps_rules
  Keeps-release_found lease (ok none) = search keeps_rules
  Keeps-release_found lease (ok (some pod)) =
      search (keeps_rules, Keeps-call_release, Keeps-revert_pod_to_warm) depth 10

  pub Keeps-release_claim_pod : (lease : GpuLease) → Keeps I (release_claim_pod api k lease)
  unfolding release_claim_pod
  Keeps-release_claim_pod lease = search (keeps_rules, Keeps-get_claim_pod, Keeps-release_found)

  -- The lease that set_lease_condition passes on has the phase that it was given.
  pub Keeps-set_lease_condition :
      {B : Type 0}
      → (lease : GpuLease) (type status reason : String) (message : Message)
      → (f : GpuLease → Exec W B)
      → ((now : ℕ) → Keeps I (f (set_condition api k lease type status reason message now)))
      → Keeps I (set_lease_condition api k lease type status reason message >>= f)
  unfolding set_lease_condition ◌>>=◌ clock pure read
  Keeps-set_lease_condition lease type status reason message f h = record {
    keeps =
        λ s i. (h (api.now s.world).0).keeps (record s { world = (api.now s.world).1 }) (v.now s i);
  }

-- The calls that take no status.
pub ruleset call_rules = (
  Keeps-event, Keeps-failure, Keeps-clock, Keeps-get_claim_pod, Keeps-deployment_settings,
  Keeps-mark_pod_hot, Keeps-delete_workload, Keeps-release_claim_pod,
)

module _ {W : Type 0} (api : Api W) (k : Machinery) (I : State W → Type 0) (v : Neutral I api)
    (Q : Meta → LeaseSpec → LeasePhase → Type 0)
    (write : (l : GpuLease)
      → Q l.metadata l.spec l.status.phase
      → OnCall I (Call.update_status l) (api.update_lease_status l)) where
  pub Keeps-update_status :
      (lease : GpuLease)
      → Q lease.metadata lease.spec lease.status.phase
      → Keeps I (update_status api k lease)
  unfolding update_status
  Keeps-update_status lease e = Keeps-perform _ _ (write lease e)

  pub Keeps-transition_to_failed :
      (lease : GpuLease) (reason : String) (message : Message)
      → Q lease.metadata lease.spec failed
      → Keeps I (transition_to_failed api k lease reason message)
  unfolding transition_to_failed set_condition with_phase
  Keeps-transition_to_failed lease reason message e =
      search (Keeps-set_lease_condition api k I v, keeps_rules, Keeps-update_status, call_rules)
        depth 12
