-- ===== src/WarmPool/Decision/Promotion.antt =====
-- What the single calls keep, promote of warmpool_controller.go keeps.
use gpu_lease.Common.{
  ℕ, String, List, [], ◌∷◌, ℤ, Map, leb, In, In-filter, inl, inr, refl, In-stable_sort,
}
use gpu_lease.Names.Settings.{DeploymentSettings}
use gpu_lease.Objects.{GpuLease, Pod, Deployment}
use gpu_lease.Exec.{
  Exec, State, not_found, already_exists, exhausted, node_not_found, other, Result, ok, err, Call,
  pure,
}
use gpu_lease.Exec.Keeps.{
  Keeps, OnRead, OnCall, keeps_rules, Keeps-bind, Keeps-if, Keeps-read, Keeps-perform, Keeps-note,
  Keeps-try,
}
use gpu_lease.Client.Neutral.{Neutral}
use gpu_lease.Client.{Api, Machinery}
use gpu_lease.Inventory.{lift, as_node_not_found, free_gpu_ids, node_capacity, used_gpu_ids}
use gpu_lease.Pods.{patch_pod_state_label, sort_promotion_candidates, is_eligible, promotes_before}
use gpu_lease.WarmPool.{
  Config, new_lease, after_create, acquire_first, acquire_free, acquire_lease_on_node,
  after_acquire, promote_each, report_shortfall, promote,
}
use gpu_lease.LeaseController.Reconcile.Keeps.{Keeps-node_free_counts}
use gpu_lease.WarmPool.Reconcile.{promote_missing}

module _ {W : Type 0} (api : Api W) (I : State W → Type 0)
    (node : (name : String) → OnRead I (api.get_node name))
    (leases : OnRead I api.list_leases) where
  Keeps-lift : (r : Result (ℕ × String)) → Keeps I (lift api r)
  unfolding lift
  Keeps-lift (ok c) = search keeps_rules
  Keeps-lift (err e) = search keeps_rules

  on_node : (name : String) → OnRead I (as_node_not_found api (api.get_node name))
  unfolding as_node_not_found
  on_node name s h = node name s h

  Keeps-node_capacity : (name : String) → Keeps I (node_capacity api name)
  unfolding node_capacity
  Keeps-node_capacity name = search (keeps_rules, Keeps-read, on_node, Keeps-lift) depth 8

  Keeps-free_gpu_ids : (name : String) → Keeps I (free_gpu_ids api name)
  unfolding free_gpu_ids used_gpu_ids
  Keeps-free_gpu_ids name = search (keeps_rules, Keeps-read, leases, Keeps-node_capacity) depth 8

  Keeps-after_create :
      (r : Result GpuLease) (next : Exec W GpuLease)
      → Keeps I next
      → Keeps I (after_create api r next)
  unfolding after_create
  Keeps-after_create (ok l) next h = search keeps_rules
  Keeps-after_create (err already_exists) next h = h
  Keeps-after_create (err not_found) next h = search keeps_rules
  Keeps-after_create (err exhausted) next h = search keeps_rules
  Keeps-after_create (err node_not_found) next h = search keeps_rules
  Keeps-after_create (err other) next h = search keeps_rules

  Keeps-acquire_first :
      (lease_for : ℤ → GpuLease) (ids : List ℤ)
      → ((id : ℤ) → OnCall I (Call.create_lease (lease_for id)) (api.create_lease (lease_for id)))
      → Keeps I (acquire_first api lease_for ids)
  unfolding acquire_first
  Keeps-acquire_first lease_for [] h = search keeps_rules
  Keeps-acquire_first lease_for (id ∷ ids) h =
      Keeps-bind _ _ (Keeps-try _ (Keeps-perform _ _ (h id)))
        (λ r. Keeps-after_create r _ (Keeps-acquire_first lease_for ids h))

  Keeps-acquire_free :
      (dep : Deployment) (settings : DeploymentSettings) (pod : Pod) (name : String) (ids : List ℤ)
      → ((model : String) (id : ℤ)
          → (let l = new_lease dep settings pod name model id in
              OnCall I (Call.create_lease l) (api.create_lease l)))
      → Keeps I (acquire_free api dep settings pod name ids)
  unfolding acquire_free
  Keeps-acquire_free dep settings pod name [] h = search keeps_rules
  Keeps-acquire_free dep settings pod name (id ∷ ids) h =
      search (keeps_rules, Keeps-node_capacity, Keeps-acquire_first, h) depth 10

  pub Keeps-acquire_lease_on_node :
      (dep : Deployment) (settings : DeploymentSettings) (pod : Pod) (name : String)
      → ((model : String) (id : ℤ)
          → (let l = new_lease dep settings pod name model id in
              OnCall I (Call.create_lease l) (api.create_lease l)))
      → Keeps I (acquire_lease_on_node api dep settings pod name)
  unfolding acquire_lease_on_node
  Keeps-acquire_lease_on_node dep settings pod name h =
      search (keeps_rules, Keeps-free_gpu_ids, Keeps-acquire_free, h) depth 10

-- The candidates are among the pods.
candidates-In :
    (pods : List Pod) (free : Map ℕ) (p : Pod)
    → In p (sort_promotion_candidates pods free)
    → In p pods
unfolding sort_promotion_candidates
candidates-In pods free p i =
    (In-filter (is_eligible free) p pods (In-stable_sort (promotes_before free) p _ i)).0

module _ {W : Type 0} (api : Api W) (I : State W → Type 0) (v : Neutral I api) (dep : Deployment)
    (settings : DeploymentSettings) where
  -- what is asked of the creation of a lease for the pod
  abbrev pub OnCreate : Pod → Type 0
  OnCreate pod =
      (model : String) (id : ℤ)
      → (let l = new_lease dep settings pod pod.node_name model id in
          OnCall I (Call.create_lease l) (api.create_lease l))

  Keeps-after_acquire :
      (pod : Pod) (promoted : ℕ) (r : Result GpuLease) (next : ℕ → Exec W ℕ)
      → ((n : ℕ) → Keeps I (next n))
      → Keeps I (after_acquire api pod promoted r next)
  unfolding after_acquire patch_pod_state_label
  Keeps-after_acquire pod promoted (ok l) next h =
      search (keeps_rules, h, Keeps-perform, v.patch, Keeps-note, v.events, v.promotions) depth 12
  Keeps-after_acquire pod promoted (err exhausted) next h = h promoted
  Keeps-after_acquire pod promoted (err already_exists) next h = search keeps_rules
  Keeps-after_acquire pod promoted (err not_found) next h = search keeps_rules
  Keeps-after_acquire pod promoted (err node_not_found) next h = search keeps_rules
  Keeps-after_acquire pod promoted (err other) next h = search keeps_rules

  Keeps-promote_each :
      (need : ℕ) (pods : List Pod) (promoted : ℕ)
      → ((pod : Pod) → In pod pods → OnCreate pod)
      → Keeps I (promote_each api dep settings need pods promoted)
  unfolding promote_each
  Keeps-promote_each need [] promoted create = search keeps_rules
  Keeps-promote_each need (pod ∷ pods) promoted create =
      Keeps-if (leb need promoted) (pure promoted) _ (λ e. search keeps_rules)
        (λ e.
          Keeps-bind _ _
            (search (
              keeps_rules,
              Keeps-acquire_lease_on_node api I v.get_node v.list_leases dep settings pod
                  pod.node_name (create pod (inl refl)),
            ))
            (λ r.
              Keeps-after_acquire pod promoted r _
                (λ n. Keeps-promote_each need pods n (λ p i. create p (inr i)))))

  pub Keeps-promote :
      (pods : List Pod) (need : ℕ) (free : Map ℕ)
      → ((pod : Pod) → In pod pods → OnCreate pod)
      → Keeps I (promote api dep settings pods need free)
  unfolding promote report_shortfall
  Keeps-promote pods need free create =
      Keeps-bind _ _ (Keeps-promote_each need _ _ (λ p i. create p (candidates-In pods free p i)))
        (λ n. search (keeps_rules, Keeps-note, v.failures, v.events) depth 12)

  pub Keeps-promote_missing :
      ((pod : Pod) → OnCreate pod)
      → (k : Machinery) (cfg : Config) (considered : List Pod) (need : ℕ)
      → Keeps I (promote_missing api k cfg dep settings considered need)
  unfolding promote_missing
  Keeps-promote_missing create k cfg considered need =
      Keeps-bind _ _ (Keeps-node_free_counts api k I v) (λ free.
        Keeps-bind _ _ (Keeps-promote _ need free (λ p i. create p)) (λ n. search keeps_rules))
