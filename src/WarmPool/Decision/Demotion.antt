-- ===== src/WarmPool/Decision/Demotion.antt =====
-- What the single calls keep, demote and reconcileOrphans of warmpool_controller.go keep.
use gpu_lease.Common.{
  ℕ, ◌+◌, leb, Bool, Option, none, some, List, [], ◌∷◌, ℤ, pos, All, All-filter, filter, is_some,
}
use gpu_lease.Objects.{GpuLease, Pod, Deployment, Selector}
use gpu_lease.Exec.{
  State, not_found, already_exists, exhausted, node_not_found, other, Result, ok, err, Call, pure,
  read,
}
use gpu_lease.Exec.Keeps.{
  Keeps, Yields, Yields-map, OnCall, keeps_rules, Keeps-bind, Keeps-then, Keeps-pure, Keeps-if,
  Keeps-read, Keeps-perform, Keeps-note,
}
use gpu_lease.Client.Neutral.{Neutral}
use gpu_lease.Client.{Api, Machinery}
use gpu_lease.Pods.{patch_pod_state_label}
use gpu_lease.LeaseController.Release.{update_lease, without_finalizer}
use gpu_lease.LeaseController.Reconcile.Keeps.Calls.{Keeps-clock, Keeps-get_claim_pod}
use gpu_lease.WarmPool.{
  Config, demote, demote_each, delete_found, delete_lease, leases_for_deployment,
  find_lease_for_pod, belongs_to,
}
use gpu_lease.WarmPool.Orphans.{
  after_delete, delete_failed, after_strip, strip_and_delete, reclaim_at, reclaim_failed_lease,
  delete_orphan, check_claim, visit_failed, visit_lease, is_failed, visit_leases, reconcile_orphans,
}
use gpu_lease.WarmPool.Reconcile.{demote_excess}

module _ {W : Type 0} (api : Api W) (k : Machinery) (cfg : Config) (I : State W → Type 0)
    (v : Neutral I api)
    (delete : (l : GpuLease) → OnCall I (Call.delete_lease l) (api.delete_lease l)) where
  Keeps-delete_lease : (lease : GpuLease) → Keeps I (delete_lease api lease)
  unfolding delete_lease
  Keeps-delete_lease lease = Keeps-perform _ _ (delete lease)

  Keeps-delete_found : (o : Option GpuLease) → Keeps I (delete_found api o)
  unfolding delete_found
  Keeps-delete_found none = search keeps_rules
  Keeps-delete_found (some l) = Keeps-delete_lease l

  Keeps-demote_each :
      (leases : List GpuLease) (need : ℕ) (pods : List Pod) (demoted : ℕ)
      → Keeps I (demote_each api leases need pods demoted)
  unfolding demote_each patch_pod_state_label
  Keeps-demote_each leases need [] demoted = search keeps_rules
  Keeps-demote_each leases need (pod ∷ pods) demoted =
      Keeps-if (leb need demoted) (pure tt) _ (λ e. search keeps_rules)
        (λ e. Keeps-bind _ _ (Keeps-perform _ _ (v.patch pod _)) (λ a.
          Keeps-bind _ _ (Keeps-delete_found (find_lease_for_pod leases pod)) (λ b.
            Keeps-bind _ _ (Keeps-note _ v.demotions) (λ c.
              Keeps-bind _ _ (Keeps-note _ (v.events _))
                (λ d. Keeps-demote_each leases need pods (demoted + 1))))))

  pub Keeps-demote_excess :
      (dep : Deployment) (considered : List Pod) (need : ℕ)
      → Keeps I (demote_excess api k cfg dep considered need)
  unfolding demote_excess demote leases_for_deployment
  Keeps-demote_excess dep considered need =
      search (keeps_rules, Keeps-read, v.list_leases, Keeps-demote_each) depth 10

  Keeps-after_delete : (r : Result (Unit {0})) → Keeps I (after_delete api k cfg r)
  unfolding after_delete
  Keeps-after_delete (ok u) = search (keeps_rules, Keeps-note, v.events)
  Keeps-after_delete (err already_exists) = search keeps_rules
  Keeps-after_delete (err not_found) = search keeps_rules
  Keeps-after_delete (err exhausted) = search keeps_rules
  Keeps-after_delete (err node_not_found) = search keeps_rules
  Keeps-after_delete (err other) = search keeps_rules

  Keeps-delete_failed : (lease : GpuLease) → Keeps I (delete_failed api k cfg lease)
  unfolding delete_failed
  Keeps-delete_failed lease =
      search (keeps_rules, Keeps-perform, delete, Keeps-after_delete) depth 8

  Keeps-after_strip : (r : Result GpuLease) → Keeps I (after_strip api k cfg r)
  unfolding after_strip
  Keeps-after_strip (ok l) = Keeps-delete_failed l
  Keeps-after_strip (err already_exists) = search keeps_rules
  Keeps-after_strip (err not_found) = search keeps_rules
  Keeps-after_strip (err exhausted) = search keeps_rules
  Keeps-after_strip (err node_not_found) = search keeps_rules
  Keeps-after_strip (err other) = search keeps_rules

  Keeps-check_claim :
      (lease : GpuLease) (sel : Selector) → Keeps I (check_claim api k cfg lease sel)
  unfolding check_claim delete_orphan
  Keeps-check_claim lease sel =
      search (keeps_rules, Keeps-get_claim_pod, Keeps-delete_lease, Keeps-note, v.events) depth 12

  Keeps-visit_failed :
      (lease : GpuLease) (sel : Selector) (acc : ℤ) (r : Bool × ℤ)
      → Keeps I (visit_failed api k cfg lease sel acc r)
  unfolding visit_failed
  Keeps-visit_failed lease sel acc r = search (keeps_rules, Keeps-check_claim) depth 8

-- `U` is what is known of the leases that the list of leases returns.
module _ {W : Type 0} (api : Api W) (k : Machinery) (cfg : Config) (I : State W → Type 0)
    (v : Neutral I api)
    (delete : (l : GpuLease) → OnCall I (Call.delete_lease l) (api.delete_lease l))
    (U : GpuLease → Type 0) (listed : Yields I (All U) (read api.list_leases))
    (update : (l : GpuLease)
      → U l
      → (let l' = without_finalizer api k l in
          OnCall I (Call.update_lease l') (api.update_lease l'))) where
  Keeps-reclaim_failed_lease :
      (lease : GpuLease) → U lease → Keeps I (reclaim_failed_lease api k cfg lease)
  unfolding reclaim_failed_lease reclaim_at strip_and_delete update_lease
  Keeps-reclaim_failed_lease lease u =
      search
        (
          keeps_rules,
          v,
          delete,
          Keeps-clock,
          Keeps-perform,
          update lease u,
          Keeps-delete_failed,
          Keeps-after_strip,
        )
        depth 14

  Keeps-visit_lease :
      (lease : GpuLease) (sel : Selector) (acc : ℤ)
      → U lease
      → Keeps I (visit_lease api k cfg lease sel acc)
  unfolding visit_lease
  Keeps-visit_lease lease sel acc u =
      Keeps-if (is_some lease.metadata.deletion_timestamp) _ _ (λ e. Keeps-pure acc)
        (λ e.
          Keeps-if (is_failed lease.status.phase) _ _
            (λ e'.
              Keeps-bind _ _ (Keeps-reclaim_failed_lease lease u)
                (λ r. Keeps-visit_failed api k cfg I v delete lease sel acc r))
            (λ e'.
              Keeps-bind _ _ (Keeps-check_claim api k cfg I v delete lease sel)
                (λ r. Keeps-pure acc)))

  Keeps-visit_leases :
      (leases : List GpuLease) (sel : Selector) (acc : ℤ)
      → All U leases
      → Keeps I (visit_leases api k cfg leases sel acc)
  unfolding visit_leases
  Keeps-visit_leases [] sel acc us = search keeps_rules
  Keeps-visit_leases (l ∷ ls) sel acc (u, us) =
      Keeps-bind _ _ (Keeps-visit_lease l sel acc u) (λ q. Keeps-visit_leases ls sel q us)

  pub Keeps-reconcile_orphans :
      (dep : Deployment) (sel : Selector) → Keeps I (reconcile_orphans api k cfg dep sel)
  unfolding reconcile_orphans leases_for_deployment
  Keeps-reconcile_orphans dep sel =
      Keeps-then _ _ (search (keeps_rules, Keeps-read, v.list_leases) depth 8)
        (Yields-map (All U) _ (filter (belongs_to dep)) listed
          (λ ls us. All-filter U (belongs_to dep) ls us))
        (λ ls us. Keeps-visit_leases ls sel (pos 0) us)
