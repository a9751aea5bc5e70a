-- ===== src/LeaseController/Reconcile/Keeps/Admission.antt =====
-- The admission of gpulease_controller.go keeps what every single call keeps.
use gpu_lease.Common.{ℕ, String, Option, none, some}
use gpu_lease.Objects.{Meta, LeaseSpec, GpuLease, LeasePhase, admitted, failed, Message, Workload}
use gpu_lease.Exec.{
  not_found, already_exists, exhausted, node_not_found, other, Result, ok, err, State, Call,
}
use gpu_lease.Exec.Keeps.{Keeps, OnCall, keeps_rules, Keeps-read, Keeps-perform}
use gpu_lease.Client.Neutral.{Neutral}
use gpu_lease.Client.{Api, Machinery}
use gpu_lease.Names.Settings.{DeploymentSettings}
use gpu_lease.Kueue.{found_flavor, expected_flavor_for_node}
use gpu_lease.LeaseController.{with_phase, set_condition}
use gpu_lease.LeaseController.Admission.{
  record_workload_name, create_owned, create_workload, admit_lease, await_admission,
  evaluate_admission, evaluate_waiting, replace_workload, pending_with, reconcile_pending,
  note_mismatch,
}
use gpu_lease.LeaseController.Reconcile.Keeps.Calls.{
  call_rules, Keeps-set_lease_condition, Keeps-update_status, Keeps-transition_to_failed,
}

module _ {W : Type 0} (api : Api W) (k : Machinery) (I : State W → Type 0) (v : Neutral I api)
    (Q : Meta → LeaseSpec → LeasePhase → Type 0)
    (write : (l : GpuLease)
      → Q l.metadata l.spec l.status.phase
      → OnCall I (Call.update_status l) (api.update_lease_status l)) where
  Keeps-note_mismatch : (m : Message) → Keeps I (note_mismatch api k m)
  unfolding note_mismatch
  Keeps-note_mismatch m = search (keeps_rules, call_rules) depth 8

  Keeps-found_flavor : (o : Option String) → Keeps I (found_flavor api o)
  unfolding found_flavor
  Keeps-found_flavor none = search (keeps_rules, call_rules)
  Keeps-found_flavor (some f) = search (keeps_rules, call_rules)

  Keeps-create_owned :
      (lease : GpuLease) (want : Result Workload)
      → Q lease.metadata lease.spec lease.status.phase
      → Keeps I (create_owned api k lease want)
  unfolding create_owned record_workload_name
  Keeps-create_owned lease (err x) e = search (keeps_rules, call_rules)
  Keeps-create_owned lease (ok want) e =
      search
        (
          keeps_rules,
          call_rules,
          Keeps-perform,
          v.create_workload,
          Keeps-update_status api k I v Q write,
        )
        depth 12

  Keeps-create_workload :
      (lease : GpuLease) (want : Workload)
      → Q lease.metadata lease.spec lease.status.phase
      → Keeps I (create_workload api k lease want)
  unfolding create_workload
  Keeps-create_workload lease want e = Keeps-create_owned lease _ e

  Keeps-admit_lease :
      (lease : GpuLease) (wl : Workload)
      → Q lease.metadata lease.spec admitted
      → Keeps I (admit_lease api k lease wl)
  unfolding admit_lease set_condition with_phase expected_flavor_for_node
  Keeps-admit_lease lease wl e =
      search
        (
          Keeps-set_lease_condition api k I v,
          keeps_rules,
          call_rules,
          Keeps-update_status api k I v Q write,
          Keeps-read,
          v.list_flavors,
          Keeps-note_mismatch,
          Keeps-found_flavor,
        )
        depth 12

  Keeps-await_admission :
      (lease : GpuLease) (wl : Workload) (s : DeploymentSettings) (now : ℕ)
      → Q lease.metadata lease.spec failed
      → Keeps I (await_admission api k lease wl s now)
  unfolding await_admission
  Keeps-await_admission lease wl s now e =
      search (keeps_rules, call_rules, Keeps-transition_to_failed api k I v Q write) depth 12

  Keeps-evaluate_waiting :
      (lease : GpuLease) (wl : Workload) (m : Option Message)
      → Q lease.metadata lease.spec failed
      → Keeps I (evaluate_waiting api k lease wl m)
  unfolding evaluate_waiting
  Keeps-evaluate_waiting lease wl none e =
      search (keeps_rules, call_rules, Keeps-await_admission) depth 10
  Keeps-evaluate_waiting lease wl (some m) e =
      search (keeps_rules, call_rules, Keeps-transition_to_failed api k I v Q write)

  Keeps-evaluate_admission :
      (lease : GpuLease) (wl : Workload)
      → Q lease.metadata lease.spec admitted
      → Q lease.metadata lease.spec failed
      → Keeps I (evaluate_admission api k lease wl)
  unfolding evaluate_admission
  Keeps-evaluate_admission lease wl a e =
      search (keeps_rules, call_rules, Keeps-admit_lease, Keeps-evaluate_waiting)

  Keeps-pending_with :
      (lease : GpuLease) (want : Workload) (r : Result Workload)
      → Q lease.metadata lease.spec lease.status.phase
      → Q lease.metadata lease.spec admitted
      → Q lease.metadata lease.spec failed
      → Keeps I (pending_with api k lease want r)
  unfolding pending_with replace_workload
  Keeps-pending_with lease want (err not_found) s a e =
      search (keeps_rules, call_rules, Keeps-create_workload)
  Keeps-pending_with lease want (err already_exists) s a e = search (keeps_rules, call_rules)
  Keeps-pending_with lease want (err exhausted) s a e = search (keeps_rules, call_rules)
  Keeps-pending_with lease want (err node_not_found) s a e = search (keeps_rules, call_rules)
  Keeps-pending_with lease want (err other) s a e = search (keeps_rules, call_rules)
  Keeps-pending_with lease want (ok existing) s a e =
      search (keeps_rules, call_rules, Keeps-perform, v.delete_workload, Keeps-evaluate_admission)
        depth 10

  pub Keeps-reconcile_pending :
      (lease : GpuLease)
      → Q lease.metadata lease.spec lease.status.phase
      → Q lease.metadata lease.spec admitted
      → Q lease.metadata lease.spec failed
      → Keeps I (reconcile_pending api k lease)
  unfolding reconcile_pending
  Keeps-reconcile_pending lease s a e =
      search (keeps_rules, call_rules, Keeps-read, v.get_workload, Keeps-pending_with) depth 10
