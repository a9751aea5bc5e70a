-- ===== src/WarmPool/Reconcile.antt =====
-- Reconcile of warmpool_controller.go, and the mapping of watch events to Deployments. A list has
-- fewer than 2^31 pods.
use gpu_lease.Common.{
  ℕ, ◌-◌, ◌^◌, ◌*◌, String, Bool, false, Option, none, some, List, [], ◌∷◌, str_eq, ltb, not, ◌&&◌,
  ℤ, pos, pos_part, ◌+ℤ◌, ◌-ℤ◌, leb_ℤ, ltb_ℤ, filter, length, get_or, if◌then◌else◌,
}
use gpu_lease.Names.{second, is_managed, state_label_key, state_hot, state_warm}
use gpu_lease.Names.Settings.{DeploymentSettings, parse_deployment_settings}
use gpu_lease.Objects.{GpuLease, Pod, Deployment, Selector}
use gpu_lease.Exec.{
  Exec, not_found, Result, ok, err, Call, event, set_pool_gauges, pure, raise, read, try, note,
  ◌>>=◌, ◌>>◌,
}
use gpu_lease.Client.{Api, Machinery}
use gpu_lease.Inventory.{node_free_counts}
use gpu_lease.Pods.{
  deployment_selector, list_deployment_pods, initialize_pod_warm_state, is_pod_considered,
  pod_state, is_held, target_hot,
}
use gpu_lease.LeaseController.{Requeue, done, requeue_after}
use gpu_lease.WarmPool.{event_reason_warm_deficit, Config, min_positive_duration, promote, demote}
use gpu_lease.WarmPool.Orphans.{reconcile_orphans}

abbrev pub default_resync_period : ℤ
default_resync_period = pos (15 * second)

abbrev pub blocked_promotion_requeue_after : ℤ
blocked_promotion_requeue_after = pos (30 * second)

-- effectiveResyncPeriod
unfoldable pub effective_resync_period : Config → ℤ
effective_resync_period cfg =
    if ltb_ℤ (pos 0) cfg.resync_period then cfg.resync_period else default_resync_period

-- A sum of two int32 that are not negative, with its wrap-around.
unfoldable pub add_int32 : ℤ → ℤ → ℤ
add_int32 a b = if leb_ℤ (pos (2 ^ 31)) (a +ℤ b) then (a +ℤ b) -ℤ pos (2 ^ 32) else a +ℤ b

unfoldable pub in_state : String → Pod → Bool
in_state state pod = str_eq (pod_state pod) state

unfoldable pub count_held : List Pod → ℕ
count_held pods = length (filter (λ p. is_held (pod_state p)) pods)

-- PoolHotPods, PoolWarmPods and PoolWarmDesired; the hot pods are among the considered ones, so
-- that the difference is not negative.
unfoldable pub pool_gauges : Deployment → DeploymentSettings → List Pod → Call
unfolding in_state
pool_gauges dep settings considered =
    let hot : ℕ = length (filter (in_state state_hot) considered) in
    set_pool_gauges dep.metadata.namespace dep.metadata.name hot (length considered - hot)
      settings.warm_replicas

-- The namespaced name of a Deployment
pub record Request : Type 0 where
  pub namespace : String
  pub name : String

-- The loop of mapPodToDeployment over the Deployments of the pod's namespace
unfoldable pub selecting : Pod → List Deployment → List Request
selecting pod [] = []
selecting pod (dep ∷ deps) =
    let rest = selecting pod deps in
    if not (is_managed dep.metadata.annotations) then rest else elim (deployment_selector dep) [
      | none ↦ rest
      | some sel ↦
          if not sel.is_empty && sel.matches pod.metadata.labels
          then record { namespace = dep.metadata.namespace; name = dep.metadata.name } ∷ rest
          else rest
    ]

-- mapLeaseToDeployment
unfoldable pub map_lease_to_deployment : GpuLease → List Request
map_lease_to_deployment lease =
    if str_eq lease.spec.deployment_ref.name ""
    then []
    else record {
      namespace = lease.spec.deployment_ref.namespace;
      name = lease.spec.deployment_ref.name;
    }
      ∷ []

module _ {W : Type 0} (api : Api W) (k : Machinery) (cfg : Config) where
  -- A pod without a state label is made a warm one.
  unfoldable pub labelled : Pod → Exec W Pod
  labelled pod =
      if str_eq (get_or (pod.metadata.labels state_label_key) "") ""
      then initialize_pod_warm_state api pod
      else pure pod

  -- The loop that collects `considered`
  unfoldable pub consider : List Pod → Exec W (List Pod)
  consider [] = pure []
  consider (pod ∷ pods) = do
    pod' ← labelled pod
    rest ← consider pods
    pure (if is_pod_considered pod' then pod' ∷ rest else rest)

  -- The event WarmDeficit
  unfoldable pub warn_deficit : DeploymentSettings → ℕ → Exec W (Unit {0})
  warn_deficit settings ready =
      if ltb_ℤ (pos ready) (add_int32 settings.min_hot_replicas settings.warm_replicas)
      then note (event event_reason_warm_deficit)
      else pure tt

  -- The case `held < target`: whether the promotion is blocked
  unfoldable pub promote_missing :
      Deployment → DeploymentSettings → List Pod → (need : ℕ) → Exec W Bool
  promote_missing dep settings considered need = do
    free_by_node ← node_free_counts api
    promoted ← promote api dep settings (filter (in_state state_warm) considered) need free_by_node
    pure (ltb promoted need)

  -- The case `held > target`
  unfoldable pub demote_excess : Deployment → List Pod → (need : ℕ) → Exec W Bool
  demote_excess dep considered need = do
    demote api dep (filter (in_state state_hot) considered) need
    pure false

  -- The `switch` on the held pods and the target: `blocked`
  unfoldable pub decide :
      Deployment → DeploymentSettings → List Pod → (held : ℕ) → (target : ℤ) → Exec W Bool
  decide dep settings considered held target =
      if ltb_ℤ (pos held) target
      then promote_missing dep settings considered (pos_part (target -ℤ pos held))
      else if ltb_ℤ target (pos held)
      then demote_excess dep considered (pos_part (pos held -ℤ target))
      else pure false

  unfoldable pub next_reconcile : (blocked : Bool) → (failed_requeue_after : ℤ) → Requeue
  next_reconcile blocked failed_requeue_after = requeue_after (
      min_positive_duration
        (if blocked then blocked_promotion_requeue_after else effective_resync_period cfg)
        failed_requeue_after)

  -- Reconcile, of a managed Deployment with a selector
  unfoldable pub reconcile_pool : Deployment → DeploymentSettings → Selector → Exec W Requeue
  reconcile_pool dep settings sel = do
    failed_requeue_after ← reconcile_orphans api k cfg dep sel
    pods ← list_deployment_pods api dep
    considered ← consider pods
    note (pool_gauges dep settings considered)
    warn_deficit settings (length considered)
    blocked ←
        decide dep settings considered (count_held considered)
          (target_hot (length considered) settings.warm_replicas settings.min_hot_replicas)
    pure (next_reconcile blocked failed_requeue_after)

  unfoldable pub reconcile_selected : Deployment → Option Selector → Exec W Requeue
  reconcile_selected dep none = pure done
  reconcile_selected dep (some sel) =
      reconcile_pool dep
        (parse_deployment_settings k.parse_duration dep.metadata.annotations dep.metadata.name) sel

  unfoldable pub reconcile_deployment : Result Deployment → Exec W Requeue
  reconcile_deployment (err not_found) = pure done
  reconcile_deployment (err e) = raise e
  reconcile_deployment (ok dep) =
      if is_managed dep.metadata.annotations
      then reconcile_selected dep (deployment_selector dep)
      else pure done

  -- Reconcile
  unfoldable pub reconcile : Request → Exec W Requeue
  reconcile req = do
    found ← try (read (api.get_deployment req.namespace req.name))
    reconcile_deployment found

-- mapPodToDeployment, with what the list of Deployments in the pod's namespace gave
unfoldable pub map_pod_to_deployment : Pod → Result (List Deployment) → List Request
map_pod_to_deployment pod (err e) = []
map_pod_to_deployment pod (ok deps) = selecting pod deps
