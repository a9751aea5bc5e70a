-- ===== src/LeaseController/Reconcile/Keeps/Phases.antt =====
-- The phases of gpulease_controller.go after the admission keep what every single call keeps.
use gpu_lease.Common.{ℕ, String, Option, none, some}
use gpu_lease.Objects.{
  Meta, LeaseSpec, GpuLease, LeasePhase, activating, bound, failed, Message, Pod,
}
use gpu_lease.Exec.{Exec, State, Call}
use gpu_lease.Exec.Keeps.{Keeps, OnCall, keeps_rules, Keeps-read, Keeps-perform}
use gpu_lease.Client.Neutral.{Neutral}
use gpu_lease.Client.{Api, Machinery}
use gpu_lease.Names.Settings.{DeploymentSettings}
use gpu_lease.PodClient.{PodError, node_mismatch}
use gpu_lease.PodClient
use gpu_lease.LeaseController.{with_phase, set_condition, Requeue}
use gpu_lease.LeaseController.Phases.{
  after_post, call_activate, activate_pod, if_claimed, reconcile_admitted, bind_lease, await_hot,
  poll_pod, reconcile_activating, reconcile_bound,
}
use gpu_lease.LeaseController.Reconcile.Keeps.Calls.{
  call_rules, Keeps-set_lease_condition, Keeps-update_status, Keeps-transition_to_failed,
}

module _ {W : Type 0} (api : Api W) (k : Machinery) (I : State W → Type 0) (v : Neutral I api)
    (Q : Meta → LeaseSpec → LeasePhase → Type 0)
    (write : (l : GpuLease)
      → Q l.metadata l.spec l.status.phase
      → OnCall I (Call.update_status l) (api.update_lease_status l)) where
  Keeps-after_post :
      (lease : GpuLease) (pod : Pod) (r : Option PodError)
      → Q lease.metadata lease.spec activating
      → Q lease.metadata lease.spec failed
      → Keeps I (after_post api k lease pod r)
  unfolding after_post set_condition with_phase
  Keeps-after_post lease pod none a e =
      search
        (
          Keeps-set_lease_condition api k I v,
          keeps_rules,
          call_rules,
          Keeps-update_status api k I v Q write,
        )
        depth 12
  Keeps-after_post lease pod (some node_mismatch) a e =
      search (keeps_rules, call_rules, Keeps-transition_to_failed api k I v Q write) depth 12
  Keeps-after_post lease pod (some PodClient.failed) a e =
      search (keeps_rules, call_rules, Keeps-transition_to_failed api k I v Q write) depth 12

  Keeps-activate_pod :
      (lease : GpuLease) (pod : Pod)
      → Q lease.metadata lease.spec activating
      → Q lease.metadata lease.spec failed
      → Keeps I (activate_pod api k lease pod)
  unfolding activate_pod call_activate
  Keeps-activate_pod lease pod a e =
      search
        (
          keeps_rules,
          call_rules,
          Keeps-perform,
          v.activates,
          Keeps-after_post,
          Keeps-transition_to_failed api k I v Q write,
        )
        depth 12

  Keeps-if_claimed :
      (lease : GpuLease) (message : String → Message) (next : Pod → Exec W Requeue) (r : Option Pod)
      → Q lease.metadata lease.spec failed
      → ((pod : Pod) → Keeps I (next pod))
      → Keeps I (if_claimed api k lease message next r)
  unfolding if_claimed
  Keeps-if_claimed lease message next none e h =
      search (keeps_rules, call_rules, Keeps-transition_to_failed api k I v Q write)
  Keeps-if_claimed lease message next (some pod) e h =
      search (keeps_rules, call_rules, Keeps-transition_to_failed api k I v Q write) depth 10

  Keeps-bind_lease :
      (lease : GpuLease) (pod : Pod)
      → Q lease.metadata lease.spec bound
      → Keeps I (bind_lease api k lease pod)
  unfolding bind_lease set_condition with_phase
  Keeps-bind_lease lease pod e =
      search
        (
          Keeps-set_lease_condition api k I v,
          keeps_rules,
          call_rules,
          Keeps-update_status api k I v Q write,
        )
        depth 12

  Keeps-await_hot :
      (lease : GpuLease) (pod : Pod) (s : DeploymentSettings) (now : ℕ)
      → Q lease.metadata lease.spec failed
      → Keeps I (await_hot api k lease pod s now)
  unfolding await_hot
  Keeps-await_hot lease pod s now e =
      search (keeps_rules, call_rules, Keeps-transition_to_failed api k I v Q write) depth 12

  Keeps-poll_pod :
      (lease : GpuLease) (pod : Pod)
      → Q lease.metadata lease.spec bound
      → Q lease.metadata lease.spec failed
      → Keeps I (poll_pod api k lease pod)
  unfolding poll_pod
  Keeps-poll_pod lease pod b e =
      search (keeps_rules, call_rules, Keeps-read, v.pod_state, Keeps-bind_lease, Keeps-await_hot)
        depth 12

  pub Keeps-reconcile_admitted :
      (lease : GpuLease)
      → Q lease.metadata lease.spec activating
      → Q lease.metadata lease.spec failed
      → Keeps I (reconcile_admitted api k lease)
  unfolding reconcile_admitted
  Keeps-reconcile_admitted lease a e =
      search (keeps_rules, call_rules, Keeps-if_claimed, Keeps-activate_pod) depth 10

  pub Keeps-reconcile_activating :
      (lease : GpuLease)
      → Q lease.metadata lease.spec bound
      → Q lease.metadata lease.spec failed
      → Keeps I (reconcile_activating api k lease)
  unfolding reconcile_activating
  Keeps-reconcile_activating lease b e =
      search (keeps_rules, call_rules, Keeps-if_claimed, Keeps-poll_pod) depth 10

  pub Keeps-reconcile_bound :
      (lease : GpuLease)
      → Q lease.metadata lease.spec failed
      → Keeps I (reconcile_bound api k lease)
  unfolding reconcile_bound
  Keeps-reconcile_bound lease e = search (keeps_rules, call_rules, Keeps-if_claimed) depth 10
