-- ===== src/Names/Settings.antt =====
-- ParseDeploymentSettings of api/v1alpha1/names.go. A nil annotation map reads as an empty one, so
-- the early return on nil is the empty map's case. time.ParseDuration is the argument
-- `parse_duration`, whose result is in nanoseconds, or `none` for an error.
pub mod Bounds
use gpu_lease.Common.{
  ℕ, String, Bool, true, false, Option, none, some, str_eq, ℤ, pos, Map, if◌then◌else◌, not, ltb_ℤ,
  leb_ℤ,
}
use gpu_lease.Decimal.{parse_int32}
use gpu_lease.Names.{
  annotation_warm_replicas, annotation_min_hot_replicas, annotation_local_queue,
  annotation_pod_capacity_rps, annotation_activation_timeout, annotation_admission_timeout,
  default_warm_replicas, default_min_hot_replicas, default_pod_capacity_rps,
  default_activation_timeout, default_admission_timeout, default_local_queue_name,
}

pub record DeploymentSettings : Type 0 where
  pub warm_replicas : ℤ
  pub min_hot_replicas : ℤ
  pub local_queue_name : String
  pub pod_capacity_rps : ℤ
  pub activation_timeout : ℤ
  pub admission_timeout : ℤ

-- `if n, err := …; err == nil && test(n) { field = n }`
unfoldable pub accept : Option ℤ → (ℤ → Bool) → ℤ → ℤ
accept none test def = def
accept (some n) test def = if test n then n else def

-- `if v, ok := annotations[key]; ok { … }` round the parse of `v`
unfoldable pub override : Option String → (String → Option ℤ) → (ℤ → Bool) → ℤ → ℤ
unfolding accept
override none parse test def = def
override (some v) parse test def = accept (parse v) test def

-- `if v, ok := annotations[key]; ok && v != ""`
unfoldable pub override_text : Option String → String → String
override_text none def = def
override_text (some v) def = if str_eq v "" then def else v

unfoldable pub parse_deployment_settings :
    (String → Option ℤ) → Map String → String → DeploymentSettings
unfolding override override_text default_local_queue_name
parse_deployment_settings parse_duration annotations deployment_name = record {
  warm_replicas =
      override (annotations annotation_warm_replicas) parse_int32 (λ n. leb_ℤ (pos 0) n)
        default_warm_replicas;
  min_hot_replicas =
      override (annotations annotation_min_hot_replicas) parse_int32 (λ n. leb_ℤ (pos 0) n)
        default_min_hot_replicas;
  local_queue_name =
      override_text (annotations annotation_local_queue) (default_local_queue_name deployment_name);
  pod_capacity_rps =
      override (annotations annotation_pod_capacity_rps) parse_int32 (λ n. ltb_ℤ (pos 0) n)
        default_pod_capacity_rps;
  activation_timeout =
      override (annotations annotation_activation_timeout) parse_duration (λ d. ltb_ℤ (pos 0) d)
        default_activation_timeout;
  admission_timeout =
      override (annotations annotation_admission_timeout) parse_duration (λ d. ltb_ℤ (pos 0) d)
        default_admission_timeout;
}
