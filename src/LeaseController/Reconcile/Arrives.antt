-- ===== src/LeaseController/Reconcile/Arrives.antt =====
-- A lease that is stored, over the Reconciles that bring it to Bound.
use gpu_lease.Common.{ℕ, ◌≡◌, refl, subst, sym, ap, ◌∙◌, true, Option, none, some, String, is_some}
use gpu_lease.Names.{finalizer}
use gpu_lease.Objects.{
  GpuLease, LeasePhase, Meta, unset, admitted, activating, bound, Workload, Message, Pod,
}
use gpu_lease.Exec.{Result, ok, Exec, State, pure, read, try, ◌>>=◌}
use gpu_lease.Exec.Keeps.{
  Keeps, keeps_rules, Keeps-read, Keeps-perform, Keeps-bind, Keeps-try, Keeps-pure, Keeps-raise,
}
use gpu_lease.Exec.Succeeds.{Succeeds, Succeeds-try, Succeeds-perform, Answers, succeeds_rules}
use gpu_lease.Exec.Known.{Known-read, Known-try}
use gpu_lease.Exec.Brings.{Brings, Brings-bind, Brings-value, Brings-Known, Brings-over}
use gpu_lease.Client.{Api, Machinery}
use gpu_lease.Client.Neutral.{Neutral}
use gpu_lease.LeaseController.{
  hot_pod, Requeue, set_condition, with_phase, get_claim_pod, mark_pod_hot,
}
use gpu_lease.LeaseController.Phases.{
  bind_lease, after_post, if_claimed, poll_pod, activate_pod, call_activate, reconcile_admitted,
  reconcile_activating,
}
use gpu_lease.Kueue.{flavor_for, found_flavor, expected_flavor_for_node}
use gpu_lease.LeaseController.Admission.{
  admit_lease, note_mismatch, evaluate_admission, pending_with, reconcile_pending,
}
use gpu_lease.LeaseController.Reconcile.{
  reconcile_phase, then_refresh, give, reconcile_found, reconcile_lease, reconcile,
}
use gpu_lease.LeaseController.Reconcile.Stored.{
  Stores, Same, IsAt, Same-refl, Same-trans, Brings-set_lease_condition, Brings-write,
}
use gpu_lease.LeaseController.Reconcile.Keeps.{Keeps-refresh_metrics}
use gpu_lease.LeaseController.Reconcile.Keeps.Calls.{
  Keeps-event, Keeps-clock, Keeps-get_claim_pod, Keeps-mark_pod_hot,
}
use gpu_lease.LeaseController.Reconcile.Advances.{
  Cooperates, Next, of_unset, of_pending, of_admitted, of_activating, Succeeds-clock,
  Known-get_claim_pod, Known-pod_state, Known-call_activate,
}

Succeeds-mark :
    {W : Type 0} (api : Api W) (k : Machinery) (pod : Pod) (l : GpuLease)
    → Answers (api.patch_pod pod (hot_pod pod l))
    → Succeeds (mark_pod_hot api k pod l)
unfolding mark_pod_hot
Succeeds-mark api k pod l h = Succeeds-perform _ _ h

module _ {W : Type 0} (api : Api W) (k : Machinery) (name : String) (stored : W → GpuLease)
    (st : Stores api name stored) (l : GpuLease) (c : Cooperates api k l) where
  -- the lease as it was read, at its phase and at the next one
  abbrev Read : State W → Type 0
  Read s = stored s.world ≡ l

  abbrev At : LeasePhase → State W → Type 0
  At next s = IsAt next l (stored s.world)

  reads : Neutral Read api
  reads = st.neutral (λ x. x ≡ l)

  bind_lease-Brings : Brings Read (At bound) (bind_lease api k l c.pod)
  unfolding bind_lease set_condition with_phase
  bind_lease-Brings =
      Brings-bind _ _ (Succeeds-mark api k _ _ c.patches) (Keeps-mark_pod_hot api k Read reads _ _)
        λ _. Brings-bind _ _ (Succeeds-clock api k) (Keeps-clock api k Read reads) λ now.
          Brings-set_lease_condition api k name stored st l bound c.writes _ _ _ _ _ _ λ now1.
            Brings-set_lease_condition api k name stored st l bound c.writes _ _ _ _ _ _
              λ now2. Brings-write api k name stored st l bound c.writes _ _ _ refl

  after_post-Brings : Brings Read (At activating) (after_post api k l c.pod none)
  unfolding after_post set_condition with_phase
  after_post-Brings =
      Brings-set_lease_condition api k name stored st l activating c.writes _ _ _ _ _ _
        λ now. Brings-write api k name stored st l activating c.writes _ _ _ refl

  claimed-Brings :
      {J : State W → Type 0} (message : String → Message) (next : Pod → Exec W Requeue)
      → Brings Read J (next c.pod)
      → Brings Read J (get_claim_pod api k l >>= if_claimed api k l message next)
  unfolding if_claimed
  claimed-Brings message next b =
      Brings-Known _ _ _ (Known-get_claim_pod api k l c) (Keeps-get_claim_pod api k Read reads l)
        (rw c.claims b)

  reconcile_activating-Brings : Brings Read (At bound) (reconcile_activating api k l)
  unfolding reconcile_activating poll_pod
  reconcile_activating-Brings = claimed-Brings _ _ (
      Brings-Known _ _ _ (Known-pod_state api k l c) (Keeps-read _ (reads.pod_state _))
        (rw c.is_hot bind_lease-Brings))

  reconcile_admitted-Brings : Brings Read (At activating) (reconcile_admitted api k l)
  unfolding reconcile_admitted activate_pod call_activate
  reconcile_admitted-Brings = claimed-Brings _ _ (
      rw c.has_ip (
        Brings-Known _ _ _ (Known-call_activate api k l c) (Keeps-perform _ _ (reads.activates _ _))
          after_post-Brings))

  Keeps-found_flavor : (r : Option String) → Keeps Read (found_flavor api r)
  unfolding found_flavor
  Keeps-found_flavor none = Keeps-raise _
  Keeps-found_flavor (some f) = Keeps-pure f

  Keeps-expected_flavor : (node : String) → Keeps Read (expected_flavor_for_node api node)
  unfolding expected_flavor_for_node
  Keeps-expected_flavor node =
      Keeps-bind _ _ (Keeps-read _ reads.list_flavors)
        λ flavors. Keeps-found_flavor (flavor_for node flavors)

  admit_lease-Brings : (wl : Workload) → Brings Read (At admitted) (admit_lease api k l wl)
  unfolding admit_lease note_mismatch set_condition with_phase
  admit_lease-Brings wl =
      Brings-bind _ _ (Succeeds-try _) (Keeps-try _ (Keeps-expected_flavor l.spec.node_name)) λ f.
        Brings-bind _ _ (search succeeds_rules) (search (keeps_rules, Keeps-event api k Read reads))
          λ _. Brings-bind _ _ (Succeeds-clock api k) (Keeps-clock api k Read reads) λ now.
            Brings-set_lease_condition api k name stored st l admitted c.writes _ _ _ _ _ _
              λ now1. Brings-write api k name stored st l admitted c.writes _ _ _ refl

  reconcile_pending-Brings : Brings Read (At admitted) (reconcile_pending api k l)
  unfolding reconcile_pending pending_with evaluate_admission
  reconcile_pending-Brings =
      Brings-Known _ _ _ (Known-try _ _ (Known-read _ _ c.gets_workload))
        (Keeps-try _ (Keeps-read _ (reads.get_workload _ _)))
        (rw (c.matches, c.is_admitted) (admit_lease-Brings c.workload))

  reconcile_phase-Brings :
      {next : LeasePhase} (phase : LeasePhase)
      → Next phase next
      → Brings Read (At next) (reconcile_phase api k phase l)
  unfolding reconcile_phase
  reconcile_phase-Brings _ of_unset = reconcile_pending-Brings
  reconcile_phase-Brings _ of_pending = reconcile_pending-Brings
  reconcile_phase-Brings _ of_admitted = reconcile_admitted-Brings
  reconcile_phase-Brings _ of_activating = reconcile_activating-Brings

  reads_lease : (s : State W) → Read s → (try (read (api.get_lease name)) s).0 ≡ ok (ok l)
  unfolding try read
  reads_lease s i =
      ap (λ (r : Result GpuLease). ok r) (st.gets s.world) ∙ ap (λ (x : GpuLease). ok (ok x)) i

  reconcile-Brings :
      {next : LeasePhase}
      → l.metadata.deletion_timestamp ≡ none
      → k.contains_finalizer l.metadata finalizer ≡ true
      → Next l.status.phase next
      → Brings Read (At next) (reconcile api k name)
  unfolding reconcile reconcile_found reconcile_lease then_refresh give pure
  reconcile-Brings {next} live has step =
      Brings-value _ _ (ok l) reads_lease (Keeps-try _ (Keeps-read _ (reads.get_lease name))) (
        rw (ap (λ (t : Option ℕ). is_some t) live, has)
          (Brings-over _ _ _ (reconcile_phase-Brings _ step)
            (Keeps-refresh_metrics api k _ (st.neutral (IsAt next l))) (λ a s. refl)))

module _ {W : Type 0} (api : Api W) (k : Machinery) (name : String) (stored : W → GpuLease)
    (st : Stores api name stored) (l : GpuLease)
    (works : (m : GpuLease) → Same l m → Cooperates api k m) where
  one_step :
      {next : LeasePhase} (s : State W)
      → l.metadata.deletion_timestamp ≡ none
      → ((v : String)
          → k.contains_finalizer (record (l.metadata) { resource_version = v }) finalizer ≡ true)
      → Same l (stored s.world)
      → Next (stored s.world).status.phase next
      → IsAt next l (stored (reconcile api k name s).1.world)
  one_step s live has same step =
      let (a, e, at) =
        (reconcile-Brings api k name stored st (stored s.world) (works (stored s.world) same)
            (ap (λ (x : Meta). x.deletion_timestamp) same.metadata ∙ live)
            (ap (λ (x : Meta). k.contains_finalizer x finalizer) same.metadata ∙ has same.version)
            step).brings
          s refl in
      record { at_phase = at.at_phase; same = Same-trans l (stored s.world) _ same at.same }

  -- The API server keeps the lease under its name, and of all calls only a write of the status changes
  -- it, in the status and the resource version. The lease is new and not being deleted, and it has the
  -- finalizer, whatever its resource version. Its workload is admitted, its pod ready, the pod accepts the
  -- activation and reports hot, and the writes pass, whatever status and resource version the lease has.
  -- Then the first Reconcile leaves the lease stored as Admitted, the second as Activating and the third
  -- as Bound, each with the spec it had and its metadata but the resource version.
  pub reconcile-IsAt :
      (s : State W)
      → stored s.world ≡ l
      → l.status.phase ≡ unset
      → l.metadata.deletion_timestamp ≡ none
      → ((v : String)
          → k.contains_finalizer (record (l.metadata) { resource_version = v }) finalizer ≡ true)
      → (let s1 = (reconcile api k name s).1 in
          let s2 = (reconcile api k name s1).1 in
          let s3 = (reconcile api k name s2).1 in
          IsAt admitted l (stored s1.world)
          × IsAt activating l (stored s2.world)
          × IsAt bound l (stored s3.world))
  reconcile-IsAt s i new live has =
      let s1 = (reconcile api k name s).1 in
      let s2 = (reconcile api k name s1).1 in
      let a = one_step s live has (subst (Same l) (sym i) (Same-refl l)) (
        subst (λ (p : LeasePhase). Next p admitted)
          (sym (ap (λ (x : GpuLease). x.status.phase) i ∙ new)) of_unset) in
      let b =
        one_step s1 live has a.same
          (subst (λ (p : LeasePhase). Next p activating) (sym a.at_phase) of_admitted) in
      let c =
        one_step s2 live has b.same
          (subst (λ (p : LeasePhase). Next p bound) (sym b.at_phase) of_activating) in
      (a, b, c)
