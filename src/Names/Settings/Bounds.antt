-- ===== src/Names/Settings/Bounds.antt =====
-- What the settings of a Deployment are, whatever its annotations say.
use gpu_lease.Common.{
  ◌≡◌, ◌≢◌, String, Bool, true, Option, none, eq_iff, ℤ, pos, ◌≤ℤ◌, ◌<ℤ◌, Map, put, remove, arith,
}
use gpu_lease.Decimal.{parse_int32}
use gpu_lease.Names.{annotation_local_queue}
use gpu_lease.Names.Settings.{DeploymentSettings, override, parse_deployment_settings}

-- A value that the test accepted, or the default.
override-test :
    (o : Option String) (parse : String → Option ℤ) (test : ℤ → Bool) (def : ℤ)
    → test def ≡ true
    → test (override o parse test def) ≡ true
unfolding override
override-test o parse test def h = ground arith

pub record InRange (s : DeploymentSettings) : Type 0 where
  pub warm : pos 0 ≤ℤ s.warm_replicas
  pub min_hot : pos 0 ≤ℤ s.min_hot_replicas
  pub capacity : pos 0 <ℤ s.pod_capacity_rps
  pub activation : pos 0 <ℤ s.activation_timeout
  pub admission : pos 0 <ℤ s.admission_timeout

-- Whatever the annotations hold and whatever `parse_duration` accepts, no replica count is negative,
-- and the capacity and both timeouts are positive.
pub parse_deployment_settings-InRange :
    (parse_duration : String → Option ℤ) (annotations : Map String) (name : String)
    → InRange (parse_deployment_settings parse_duration annotations name)
unfolding parse_deployment_settings
parse_deployment_settings-InRange parse_duration annotations name = ground arith

-- Outside the queue's name, an annotation whose value neither ParseInt nor ParseDuration accepts
-- is the same as no annotation.
pub parse_deployment_settings_malformed :
    (parse_duration : String → Option ℤ) (annotations : Map String) (name k v : String)
    → k ≢ annotation_local_queue
    → parse_int32 v ≡ none
    → parse_duration v ≡ none
    → parse_deployment_settings parse_duration (put annotations k v) name
      ≡ parse_deployment_settings parse_duration (remove annotations k) name
unfolding parse_deployment_settings
parse_deployment_settings_malformed parse_duration annotations name k v h p q =
    ground (arith, eq_iff k annotation_local_queue)
