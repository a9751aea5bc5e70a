-- ===== src/WarmPool/Decision/Bound.antt =====
-- How many pods promote of warmpool_controller.go promotes.
pub mod Rules
use gpu_lease.Common.{
  ℕ, zero, ◌+◌, ◌≡◌, refl, ◌≤◌, Bool, true, false, List, [], ◌∷◌, leb, ltb, Map, if◌then◌else◌,
  arith, subst,
}
use gpu_lease.Names.Settings.{DeploymentSettings}
use gpu_lease.Objects.{GpuLease, Pod, Deployment}
use gpu_lease.Exec.{
  Exec, Error, not_found, already_exists, exhausted, node_not_found, other, Result, ok, err, State,
  pure, raise, ◌>>=◌, continue,
}
use gpu_lease.Exec.{Trace, Call, count_promotion, note}
use gpu_lease.Exec.Emits.{Emits, Extends, same, made, Emits-Keeps}
use gpu_lease.Exec.Keeps.{Keeps-try, Keeps-if, Keeps-bind, Keeps-pure, Keeps-perform, Keeps-note}
use gpu_lease.Pods.{patch_pod_state_label}
use gpu_lease.WarmPool.Decision.Promotion.{Keeps-acquire_lease_on_node}
use gpu_lease.Client.{Api}
use gpu_lease.WarmPool.{after_acquire, promote_each, report_shortfall, promote}
use gpu_lease.WarmPool.Decision.Bound.Rules.{
  Returns, NotPromotion, Promotes, Returns-pure, Returns-if, Returns-bind, Promotes-pure,
  Promotes-raise, Promotes-count, Promotes-if, Promotes-bind, Promotes-then,
}

module _ {W : Type 0} (api : Api W) (dep : Deployment) (settings : DeploymentSettings)
    (need : ℕ) where
  Promotes-after_acquire :
      (pod : Pod) (promoted : ℕ) (r : Result GpuLease) (next : ℕ → Exec W ℕ)
      → (promoted + 1 ≤ need)
      → ((n : ℕ) → n ≤ need → Promotes need n (next n))
      → Promotes need promoted (after_acquire api pod promoted r next)
  unfolding after_acquire patch_pod_state_label
  Promotes-after_acquire pod promoted (ok l) next b h =
      Promotes-bind need promoted _ _
        (Emits-Keeps _ (λ old. Keeps-perform _ _ (λ s x t. made tt t)))
        (λ p. Promotes-count need promoted _ (
          Promotes-bind need (promoted + 1) _ _
            (Emits-Keeps _ (λ old. Keeps-note _ (λ s t. made tt t))) (λ u. h (promoted + 1) b)))
  Promotes-after_acquire pod promoted (err exhausted) next b h = h promoted (omega arith)
  Promotes-after_acquire pod promoted (err already_exists) next b h =
      Promotes-raise need promoted already_exists
  Promotes-after_acquire pod promoted (err not_found) next b h =
      Promotes-raise need promoted not_found
  Promotes-after_acquire pod promoted (err node_not_found) next b h =
      Promotes-raise need promoted node_not_found
  Promotes-after_acquire pod promoted (err other) next b h = Promotes-raise need promoted other

  Promotes-promote_each :
      (pods : List Pod) (promoted : ℕ)
      → promoted ≤ need
      → Promotes need promoted (promote_each api dep settings need pods promoted)
  unfolding promote_each
  Promotes-promote_each [] promoted b = Promotes-pure need promoted b
  Promotes-promote_each (pod ∷ pods) promoted b =
      Promotes-if need promoted (leb need promoted) _ _ (λ e. Promotes-pure need promoted b)
        (λ e.
          Promotes-bind need promoted _ _
            (Emits-Keeps _ (λ old. Keeps-try _ (
              Keeps-acquire_lease_on_node api _ (λ n s h. h) (λ s h. h) dep settings pod
                pod.node_name (λ m i s x h. made tt h))))
            (λ r.
              Promotes-after_acquire pod promoted r _ (ground arith)
                (λ n h. Promotes-promote_each pods n h)))

  Emits-report_shortfall :
      (promoted : ℕ) → Emits NotPromotion (report_shortfall api dep need promoted)
  unfolding report_shortfall
  Emits-report_shortfall promoted = Emits-Keeps _ (λ old.
      Keeps-if (ltb promoted need) _ _
        (λ e.
          Keeps-bind _ _ (Keeps-note _ (λ s t. made tt t))
            (λ u. Keeps-bind _ _ (Keeps-note _ (λ s t. made tt t)) (λ v. Keeps-pure promoted)))
        (λ e. Keeps-pure promoted))

  Returns-report_shortfall :
      (promoted : ℕ) → Returns (λ a. a ≡ promoted) (report_shortfall api dep need promoted)
  unfolding report_shortfall
  Returns-report_shortfall promoted =
      Returns-if (ltb promoted need) _ _
        (λ e. Returns-bind _ _ (λ u. Returns-bind _ _ (λ v. Returns-pure promoted refl)))
        (λ e. Returns-pure promoted refl)

  -- Where promote ends without an error, its value is the number of promotions that it has counted,
  -- and this is at most the number of pods that it was asked for.
  pub promote-Promotes :
      (warm_pods : List Pod) (free_by_node : Map ℕ)
      → Promotes need 0 (promote api dep settings warm_pods need free_by_node)
  unfolding promote
  promote-Promotes warm_pods free_by_node =
      Promotes-then need 0 _ _ (Promotes-promote_each _ zero (omega arith)) Emits-report_shortfall
        Returns-report_shortfall
