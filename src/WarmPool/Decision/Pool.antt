-- ===== src/WarmPool/Decision/Pool.antt =====
-- What the single calls keep, Reconcile of warmpool_controller.go keeps.
use gpu_lease.Common.{ℕ, String, Option, none, some, List, [], ◌∷◌, ℤ, pos, ltb_ℤ, All}
use gpu_lease.Names.Settings.{DeploymentSettings}
use gpu_lease.Objects.{GpuLease, Pod, Deployment, Selector}
use gpu_lease.Exec.{
  State, read, not_found, already_exists, exhausted, node_not_found, other, Result, ok, err, Call,
}
use gpu_lease.Exec.Keeps.{
  Keeps, Yields, OnCall, keeps_rules, Keeps-bind, Keeps-if, Keeps-pure, Keeps-read, Keeps-perform,
  Keeps-note,
}
use gpu_lease.Client.Neutral.{Neutral}
use gpu_lease.Client.{Api, Machinery}
use gpu_lease.Pods.{
  list_deployment_pods, list_selected, initialize_pod_warm_state, deployment_selector,
}
use gpu_lease.LeaseController.Release.{without_finalizer}
use gpu_lease.WarmPool.{Config, new_lease}
use gpu_lease.WarmPool.Reconcile.{
  Request, labelled, consider, warn_deficit, decide, reconcile_pool, pool_gauges,
  reconcile_selected, reconcile_deployment, reconcile,
}
use gpu_lease.WarmPool.Decision.Promotion.{Keeps-promote_missing}
use gpu_lease.WarmPool.Decision.Demotion.{Keeps-demote_excess, Keeps-reconcile_orphans}

-- `U` is what is known of the leases that the list of leases returns.
module _ {W : Type 0} (api : Api W) (k : Machinery) (cfg : Config) (I : State W → Type 0)
    (v : Neutral I api)
    (create : (dep : Deployment) (settings : DeploymentSettings) (pod : Pod) (node model : String)
        (id : ℤ)
      → (let l = new_lease dep settings pod node model id in
          OnCall I (Call.create_lease l) (api.create_lease l)))
    (delete : (l : GpuLease) → OnCall I (Call.delete_lease l) (api.delete_lease l))
    (U : GpuLease → Type 0) (listed : Yields I (All U) (read api.list_leases))
    (update : (l : GpuLease)
      → U l
      → (let l' = without_finalizer api k l in
          OnCall I (Call.update_lease l') (api.update_lease l'))) where
  Keeps-decide :
      (dep : Deployment) (settings : DeploymentSettings) (considered : List Pod) (held : ℕ)
      (target : ℤ)
      → Keeps I (decide api k cfg dep settings considered held target)
  unfolding decide
  Keeps-decide dep settings considered held target =
      Keeps-if (ltb_ℤ (pos held) target) _ _
        (λ e.
          Keeps-promote_missing api I v dep settings (λ p. create dep settings p p.node_name) k cfg
            _ _)
        (λ e.
          Keeps-if (ltb_ℤ target (pos held)) _ _
            (λ e'. Keeps-demote_excess api k cfg I v delete dep _ _) (λ e'. Keeps-pure _))

  Keeps-labelled : (pod : Pod) → Keeps I (labelled api k cfg pod)
  unfolding labelled initialize_pod_warm_state
  Keeps-labelled pod = search (keeps_rules, Keeps-perform, v.patch) depth 8

  Keeps-consider : (pods : List Pod) → Keeps I (consider api k cfg pods)
  unfolding consider
  Keeps-consider [] = search keeps_rules
  Keeps-consider (pod ∷ pods) =
      Keeps-bind _ _ (Keeps-labelled pod)
        (λ p. Keeps-bind _ _ (Keeps-consider pods) (λ ps. search keeps_rules))

  Keeps-list_selected : (ns : String) (o : Option Selector) → Keeps I (list_selected api ns o)
  unfolding list_selected
  Keeps-list_selected ns none = search keeps_rules
  Keeps-list_selected ns (some s) = search (keeps_rules, Keeps-read, v.list_pods)

  Keeps-reconcile_pool :
      (dep : Deployment) (settings : DeploymentSettings) (sel : Selector)
      → Keeps I (reconcile_pool api k cfg dep settings sel)
  unfolding reconcile_pool list_deployment_pods warn_deficit pool_gauges
  Keeps-reconcile_pool dep settings sel =
      Keeps-bind _ _ (Keeps-reconcile_orphans api k cfg I v delete U listed update dep sel) (λ wait.
        Keeps-bind _ _ (Keeps-list_selected dep.metadata.namespace (deployment_selector dep))
          (λ pods. Keeps-bind _ _ (Keeps-consider pods) (λ considered.
            search (keeps_rules, Keeps-note, v.pool_gauges, v.events, Keeps-decide) depth 14)))

  Keeps-reconcile_selected :
      (dep : Deployment) (o : Option Selector) → Keeps I (reconcile_selected api k cfg dep o)
  unfolding reconcile_selected
  Keeps-reconcile_selected dep none = search keeps_rules
  Keeps-reconcile_selected dep (some s) = search (keeps_rules, Keeps-reconcile_pool)

  Keeps-reconcile_deployment : (r : Result Deployment) → Keeps I (reconcile_deployment api k cfg r)
  unfolding reconcile_deployment
  Keeps-reconcile_deployment (ok dep) = search (keeps_rules, Keeps-reconcile_selected)
  Keeps-reconcile_deployment (err already_exists) = search keeps_rules
  Keeps-reconcile_deployment (err not_found) = search keeps_rules
  Keeps-reconcile_deployment (err exhausted) = search keeps_rules
  Keeps-reconcile_deployment (err node_not_found) = search keeps_rules
  Keeps-reconcile_deployment (err other) = search keeps_rules

  -- Reconcile of a Deployment.
  pub Keeps-reconcile : (req : Request) → Keeps I (reconcile api k cfg req)
  unfolding reconcile
  Keeps-reconcile req =
      search (keeps_rules, Keeps-read, v.get_deployment, Keeps-reconcile_deployment) depth 8
