-- ===== src/WarmPool/Decision.antt =====
-- What Reconcile of warmpool_controller.go creates and deletes.
pub mod Promotion
pub mod Demotion
pub mod Bound
pub mod Pool
use gpu_lease.Common.{
  ℕ, ◌≡◌, refl, String, Bool, true, false, Option, none, some, List, [], ◌∷◌, ℤ, pos, pos_part,
  ltb_ℤ, ◌≤ℤ◌, ◌-ℤ◌, arith, All, In, Map,
}
use gpu_lease.Names.{lease_name, finalizer}
use gpu_lease.Names.Settings.{DeploymentSettings}
use gpu_lease.Objects.{GpuLease, unset, Pod, Deployment, Selector}
use gpu_lease.Exec.{
  Exec, Error, not_found, already_exists, exhausted, node_not_found, other, Result, ok, err, Call,
  pure,
}
use gpu_lease.Exec.Emits.{Emits, Emits-Keeps, made}
use gpu_lease.Exec.Keeps.{Keeps-if, Keeps-pure}
use gpu_lease.Client.Neutral.{no_rules, Obeys, Extends-Neutral}
use gpu_lease.Client.{Api, Machinery}
use gpu_lease.Pods.{
  list_deployment_pods, list_selected, initialize_pod_warm_state, deployment_selector,
}
use gpu_lease.WarmPool.{Config, promote, new_lease}
use gpu_lease.WarmPool.Reconcile.{
  Request, labelled, consider, warn_deficit, promote_missing, demote_excess, decide, reconcile_pool,
  reconcile_selected, reconcile_deployment, reconcile,
}
use gpu_lease.WarmPool.Decision.Promotion.{Keeps-promote_missing, Keeps-promote}
use gpu_lease.WarmPool.Decision.Demotion.{Keeps-demote_excess}
use gpu_lease.WarmPool.Decision.Pool.{Keeps-reconcile}

-- No lease is deleted.
abbrev pub NoDeletion : Call → Type 0
NoDeletion = Obeys (record no_rules { on_delete = λ l. ⊥ })

-- No lease is created.
abbrev pub NoCreation : Call → Type 0
NoCreation = Obeys (record no_rules { on_create = λ l. ⊥ })

-- A lease that is created has the name of its node and GPU, and the finalizer, and no phase.
abbrev pub Derives : Call → Type 0
Derives = Obeys (record no_rules {
  on_create = λ l.
      (l.metadata.name ≡ lease_name l.spec.node_name l.spec.gpu_id)
      × (l.metadata.finalizers ≡ finalizer ∷ [])
      × (l.status.phase ≡ unset);
})

-- A lease that is created claims one of the pods, on that pod's node, for the Deployment.
abbrev pub ClaimsFor : Deployment → List Pod → Call → Type 0
ClaimsFor dep pods = Obeys (record no_rules {
  on_create = λ l.
      (pod : Pod) × In pod pods
      × (l.spec.node_name ≡ pod.node_name)
      × (l.spec.claim_ref.namespace ≡ pod.metadata.namespace)
      × (l.spec.claim_ref.name ≡ pod.metadata.name)
      × (l.spec.claim_ref.uid ≡ pod.metadata.uid)
      × (l.spec.deployment_ref.namespace ≡ dep.metadata.namespace)
      × (l.spec.deployment_ref.name ≡ dep.metadata.name)
      × (l.spec.deployment_ref.uid ≡ dep.metadata.uid);
})

All-Unit : (ls : List GpuLease) → All (λ l. Unit {0}) ls
All-Unit [] = tt
All-Unit (l ∷ ls) = (tt, All-Unit ls)

module _ {W : Type 0} (api : Api W) (k : Machinery) (cfg : Config) where
  -- The decision of Reconcile never promotes and demotes at once: it deletes no lease where no pod
  -- too many is held, and creates none where no pod is missing.
  pub decide_one_way :
      (dep : Deployment) (settings : DeploymentSettings) (considered : List Pod) (held : ℕ)
      (target : ℤ)
      → (pos held ≤ℤ target
          → Emits NoDeletion (decide api k cfg dep settings considered held target))
        × (target ≤ℤ pos held
            → Emits NoCreation (decide api k cfg dep settings considered held target))
  unfolding decide
  decide_one_way dep settings considered held target = (
    λ h. Emits-Keeps _ (λ old.
        Keeps-if (ltb_ℤ (pos held) target) _ _
          (λ e.
            Keeps-promote_missing api _ (Extends-Neutral api old _) dep settings
              (λ p m i s x t. made tt t) k cfg considered (pos_part (target -ℤ pos held)))
          (λ e.
            Keeps-if (ltb_ℤ target (pos held)) _ _ (λ e'. absurd (ground arith))
              (λ e'. Keeps-pure _))),
    λ h. Emits-Keeps _ (λ old.
        Keeps-if (ltb_ℤ (pos held) target) _ _ (λ e. absurd (ground arith))
          (λ e.
            Keeps-if (ltb_ℤ target (pos held)) _ _
              (λ e'.
                Keeps-demote_excess api k cfg _ (Extends-Neutral api old _) (λ l s x t. made tt t)
                  dep considered (pos_part (pos held -ℤ target)))
              (λ e'. Keeps-pure _))),
  )

  -- Every lease that promote creates claims one of the pods that it was given, by its namespace, name
  -- and UID, on the node of that pod, and belongs to the Deployment by its namespace, name and UID.
  pub promote-ClaimsFor :
      (dep : Deployment) (settings : DeploymentSettings) (warm_pods : List Pod) (need : ℕ)
      (free_by_node : Map ℕ)
      → Emits (ClaimsFor dep warm_pods) (promote api dep settings warm_pods need free_by_node)
  unfolding new_lease
  promote-ClaimsFor dep settings warm_pods need free_by_node = Emits-Keeps _ (λ old.
      Keeps-promote api _ (Extends-Neutral api old _) dep settings warm_pods need free_by_node
        (λ p i m id s x h. made (p, i, refl, refl, refl, refl, refl, refl, refl) h))

  -- Every lease that a Reconcile of a Deployment creates, whatever the API server answers, has the
  -- name that is derived from its node and its GPU, so that the API server refuses a second one for
  -- the same GPU; it has the finalizer, and no phase.
  pub reconcile-Derives : (req : Request) → Emits Derives (reconcile api k cfg req)
  unfolding new_lease
  reconcile-Derives req = Emits-Keeps _ (λ old.
      Keeps-reconcile api k cfg _ (Extends-Neutral api old _)
        (λ d s p n m i t x h. made (refl, refl, refl) h) (λ l t x h. made tt h) (λ l. Unit)
        (record { yields = λ t ls h e. All-Unit ls }) (λ l u t x h. made tt h) req)
