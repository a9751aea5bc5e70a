-- ===== src/LeaseController/Reconcile/Advances.antt =====
-- The way of a lease to Bound, where the API server, Kueue and the pod cooperate.
use gpu_lease.Common.{ℕ, ◌≡◌, refl, true, false, Option, none, some, String, str_eq, is_some, ap}
use gpu_lease.Names.{finalizer}
use gpu_lease.Objects.{
  GpuLease, LeasePhase, unset, pending, admitted, activating, bound, Pod, Workload, Message,
}
use gpu_lease.Exec.{ok, Call, Exec, pure, read, ◌>>=◌}
use gpu_lease.Exec.Succeeds.{Succeeds-perform, Succeeds, Answers, succeeds_rules}
use gpu_lease.Exec.Makes.{Grows, Makes, grows_rules, Makes-perform, Makes-left, Makes-right}
use gpu_lease.Exec.Known.{
  Known, Known-read, Known-perform, Known-try, Succeeds-read, Advances, Advances-Known,
  Advances-over,
}
use gpu_lease.PodClient.{StateResponse, PodError}
use gpu_lease.Client.{Api, Machinery}
use gpu_lease.Pods.{lease_orphan_reason}
use gpu_lease.Kueue.{build_workload, workload_matches_spec, is_workload_admitted}
use gpu_lease.LeaseController.{
  Requeue, hot_pod, absent_as_none, clock, set_lease_condition, set_condition, update_status,
  with_phase, get_claim_pod, mark_pod_hot,
}
use gpu_lease.LeaseController.Admission.{
  reconcile_pending, pending_with, evaluate_admission, admit_lease, note_mismatch,
}
use gpu_lease.LeaseController.Phases.{
  activate_request, reports_hot, reconcile_admitted, reconcile_activating, if_claimed, activate_pod,
  call_activate, after_post, poll_pod, bind_lease,
}
use gpu_lease.Inventory.{node_free_counts}
use gpu_lease.LeaseController.Reconcile.{
  refresh_metrics, give, then_refresh, reconcile_phase, reconcile_found, reconcile_lease, reconcile,
}
use gpu_lease.LeaseController.Reconcile.Cleanup.{Makes-set_lease_condition}

-- A write of a phase into the status of the lease.
abbrev pub WritesPhase : GpuLease → LeasePhase → Call → Type 0
WritesPhase lease phase (Call.update_status l) =
    (l.status.phase ≡ phase) × (l.spec ≡ lease.spec) × (l.metadata ≡ lease.metadata)
WritesPhase lease phase c = ⊥

-- The outside cooperates on the lease: Kueue has admitted its Workload, the claim pod is there, keeps
-- its claim, takes the lease and reports hot, and the writes are answered.
pub record Cooperates {W : Type 0} (api : Api W) (k : Machinery) (lease : GpuLease) : Type 0 where
  pub workload : Workload
  pub pod : Pod
  pub answer : StateResponse
  pub gets_workload :
      (w : W)
      → (api.get_workload
          (build_workload lease).metadata.namespace
          (build_workload lease).metadata.name
          w).0
        ≡ ok workload
  pub matches : workload_matches_spec k workload (build_workload lease) ≡ true
  pub is_admitted : is_workload_admitted k workload ≡ true
  pub gets_pod :
      (w : W) → (api.get_pod lease.spec.claim_ref.namespace lease.spec.claim_ref.name w).0 ≡ ok pod
  pub claims : lease_orphan_reason (some pod) lease none ≡ ""
  pub has_ip : str_eq pod.pod_ip "" ≡ false
  pub accepts : (w : W) → (api.pod_activate pod.pod_ip (activate_request lease) w).0 ≡ none
  pub reads_state : (w : W) → (api.pod_state pod.pod_ip w).0 ≡ some answer
  pub is_hot : reports_hot (some answer) ≡ true
  pub patches : Answers (api.patch_pod pod (hot_pod pod lease))
  pub writes : (l : GpuLease) → Answers (api.update_lease_status l)

module _ {W : Type 0} (api : Api W) (k : Machinery) where
  pub Succeeds-clock : Succeeds (clock api k)
  unfolding clock
  Succeeds-clock = Succeeds-read _ λ w. ((api.now w).0, refl)

  Succeeds-set_lease_condition :
      (lease : GpuLease) (type status reason : String) (message : Message)
      → Succeeds (set_lease_condition api k lease type status reason message)
  unfolding set_lease_condition clock
  Succeeds-set_lease_condition lease type status reason message =
      search (succeeds_rules, Succeeds-clock) depth 6

  module _ (lease : GpuLease) (c : Cooperates api k lease) where
    pub Known-get_claim_pod : Known (get_claim_pod api k lease) (some c.pod)
    unfolding get_claim_pod absent_as_none
    Known-get_claim_pod = Known-read _ _ λ w. ap absent_as_none (c.gets_pod w)

    Succeeds-update_status : (l : GpuLease) → Succeeds (update_status api k l)
    unfolding update_status
    Succeeds-update_status l = Succeeds-perform _ _ (c.writes l)

    Succeeds-bind_lease : Succeeds (bind_lease api k lease c.pod)
    unfolding bind_lease mark_pod_hot
    Succeeds-bind_lease =
        search
          (
            succeeds_rules, c.patches, Succeeds-clock, Succeeds-set_lease_condition,
            Succeeds-update_status,
          )
          depth 16

    Makes-bind_lease : Makes (WritesPhase lease bound) (bind_lease api k lease c.pod)
    unfolding bind_lease mark_pod_hot update_status set_condition with_phase
    Makes-bind_lease =
        search (Makes-set_lease_condition, Makes-right, Makes-left, Makes-perform, grows_rules)
          depth 20

    pub Known-pod_state :
        Known (read (λ w. let (r, w') = api.pod_state c.pod.pod_ip w in (ok r, w'))) (some c.answer)
    Known-pod_state = Known-read _ _ λ w. ap (λ (r : Option StateResponse). ok r) (c.reads_state w)

    pub Known-call_activate : Known (call_activate api k lease c.pod) none
    unfolding call_activate
    Known-call_activate = Known-perform _ _ _ λ w. ap (λ (r : Option PodError). ok r) (c.accepts w)

    Advances-after_post :
        Advances (WritesPhase lease activating) (after_post api k lease c.pod none)
    unfolding after_post set_condition with_phase update_status
    Advances-after_post = record {
      succeeds =
          search (succeeds_rules, Succeeds-set_lease_condition, Succeeds-update_status) depth 16;
      makes =
          search (Makes-set_lease_condition, Makes-right, Makes-left, Makes-perform, grows_rules)
            depth 16;
    }

    -- what follows a pod that keeps its claim
    Advances-claimed :
        {P : Call → Type 0} (message : String → Message) (next : Pod → Exec W Requeue)
        → Advances P (next c.pod)
        → Advances P (get_claim_pod api k lease >>= if_claimed api k lease message next)
    unfolding if_claimed
    Advances-claimed message next a = Advances-Known _ _ _ Known-get_claim_pod (rw c.claims a)

    reconcile_activating-Advances :
        Advances (WritesPhase lease bound) (reconcile_activating api k lease)
    unfolding reconcile_activating poll_pod
    reconcile_activating-Advances = Advances-claimed _ _ (
        Advances-Known _ _ _ Known-pod_state
          (rw c.is_hot (record { succeeds = Succeeds-bind_lease; makes = Makes-bind_lease })))

    reconcile_admitted-Advances :
        Advances (WritesPhase lease activating) (reconcile_admitted api k lease)
    unfolding reconcile_admitted activate_pod
    reconcile_admitted-Advances =
        Advances-claimed _ _
          (rw c.has_ip (Advances-Known _ _ _ Known-call_activate Advances-after_post))

    Advances-admit_lease :
        (wl : Workload) → Advances (WritesPhase lease admitted) (admit_lease api k lease wl)
    unfolding admit_lease note_mismatch set_condition with_phase update_status
    Advances-admit_lease wl = record {
      succeeds =
          search
            (succeeds_rules, Succeeds-clock, Succeeds-set_lease_condition, Succeeds-update_status)
            depth 20;
      makes =
          search (Makes-set_lease_condition, Makes-right, Makes-left, Makes-perform, grows_rules)
            depth 20;
    }

    reconcile_pending-Advances :
        Advances (WritesPhase lease admitted) (reconcile_pending api k lease)
    unfolding reconcile_pending pending_with evaluate_admission
    reconcile_pending-Advances =
        Advances-Known _ _ _ (Known-try _ _ (Known-read _ _ c.gets_workload))
          (rw (c.matches, c.is_admitted) (Advances-admit_lease c.workload))

-- The phases on the way, each with the one that comes after it.
pub data Next : LeasePhase → LeasePhase → Type 0 where
  of_unset : Next unset admitted
  of_pending : Next pending admitted
  of_admitted : Next admitted activating
  of_activating : Next activating bound

module _ {W : Type 0} (api : Api W) (k : Machinery) where
  pub Grows-refresh_metrics : Grows (refresh_metrics api k)
  unfolding refresh_metrics node_free_counts
  Grows-refresh_metrics = search grows_rules depth 12

  reconcile_phase-Advances :
      (phase next : LeasePhase) (lease : GpuLease)
      → Next phase next
      → Cooperates api k lease
      → Advances (WritesPhase lease next) (reconcile_phase api k phase lease)
  unfolding reconcile_phase
  reconcile_phase-Advances _ _ lease of_unset c = reconcile_pending-Advances api k lease c
  reconcile_phase-Advances _ _ lease of_pending c = reconcile_pending-Advances api k lease c
  reconcile_phase-Advances _ _ lease of_admitted c = reconcile_admitted-Advances api k lease c
  reconcile_phase-Advances _ _ lease of_activating c = reconcile_activating-Advances api k lease c

  -- Where the lease is read, is not being deleted and has the finalizer, and the outside cooperates,
  -- Reconcile of a lease that is on its way to Bound ends without an error, whatever becomes of the
  -- metrics, and has written the next phase into its status, with the spec and the metadata read.
  pub reconcile-Advances :
      (name : String) (lease : GpuLease) (next : LeasePhase)
      → ((w : W) → (api.get_lease name w).0 ≡ ok lease)
      → lease.metadata.deletion_timestamp ≡ none
      → k.contains_finalizer lease.metadata finalizer ≡ true
      → Next lease.status.phase next
      → Cooperates api k lease
      → Advances (WritesPhase lease next) (reconcile api k name)
  unfolding reconcile reconcile_found reconcile_lease then_refresh give pure
  reconcile-Advances name lease next found live has step c =
      Advances-Known _ _ _ (Known-try _ _ (Known-read _ _ found)) (
        rw (ap (λ (t : Option ℕ). is_some t) live, has)
          (Advances-over _ _ _ (reconcile_phase-Advances _ next lease step c) Grows-refresh_metrics
            (λ a s. refl)))
