-- ===== src/Exec.antt =====
-- Code that calls the API server and the pods: a function of what it finds there, which may fail,
-- and which leaves a record of the writes that it made. `W` is whatever answers.
pub mod Emits
pub mod Keeps
pub mod Makes
pub mod Succeeds
pub mod Known
pub mod Brings
use gpu_lease.Common.{String, Bool, true, false, Option, none, some, List, [], ◌∷◌, ℕ, ℤ, Map}
use gpu_lease.Objects.{GpuLease, Pod, Workload, Message}
use gpu_lease.PodClient.{ActivateRequest}

-- What the callers tell apart: apierrors.IsNotFound, IsAlreadyExists, inventory.ErrExhausted,
-- inventory.ErrNodeNotFound and any other error. Wrapping by `%w` keeps the kind.
pub data Error : Type 0 where
  not_found already_exists exhausted node_not_found other : Error

pub data Result {ℓ} (A : Type ℓ) : Type ℓ where
  ok : A → Result A
  err : Error → Result A

-- The writes, the calls of pods, the events, the counters and the gauges. `set_node_gauge` sets a
-- gauge at each node of a map, and leaves it at the other nodes.
pub data Call : Type 0 where
  create_lease update_lease update_status delete_lease : GpuLease → Call
  create_workload delete_workload : (namespace name : String) → Call
  patch_pod : Pod → Call
  post_lease : (pod_ip : String) → ActivateRequest → Call
  delete_pod_lease : (pod_ip : String) → Call
  event : (reason : String) → Call
  count_failure : (deployment reason : String) → Call
  count_promotion count_demotion : Call
  set_node_gauge : (gauge : String) → Map ℕ → Call
  set_pool_gauges : (namespace deployment : String) → (hot warm : ℕ) → (desired : ℤ) → Call

-- A call, and whether it failed. A NotFound from a deletion that tolerates it is no failure.
pub record Entry : Type 0 where
  pub call : Call
  pub error : Option Error

-- Newest first.
abbrev pub Trace : Type 0
Trace = List Entry

pub record State {ℓ} (W : Type ℓ) : Type ℓ where
  pub world : W
  pub trace : Trace

abbrev pub Exec {ℓ} : Type ℓ → Type ℓ → Type ℓ
Exec W A = State W → Result A × State W

abbrev pub error_of {ℓ} : {A : Type ℓ} → Result A → Option Error
error_of (ok a) = none
error_of (err e) = some e

module _ {ℓ} {W A : Type ℓ} where
  unfoldable pub pure : A → Exec W A
  pure a s = (ok a, s)

  unfoldable pub raise : Error → Exec W A
  raise e s = (err e, s)

  -- A read, or any call that is not recorded.
  unfoldable pub read : (W → Result A × W) → Exec W A
  read f s = let (r, w) = f s.world in (r, record s { world = w })

  -- A call that is recorded.
  unfoldable pub perform : Call → (W → Result A × W) → Exec W A
  perform c f s =
      let (r, w) = f s.world in
      (r, record { world = w; trace = record { call = c; error = error_of r } ∷ s.trace })

  -- The error as a value, for a caller that goes on.
  unfoldable pub try : Exec W A → Exec W (Result A)
  try m s = let (r, s') = m s in (ok r, s')

module _ {ℓ} {W A B : Type ℓ} where
  abbrev pub continue : Result A → (A → Exec W B) → Exec W B
  continue (ok a) f s = f a s
  continue (err e) f s = (err e, s)

  infixl 5 ◌>>=◌ ◌>>◌
  unfoldable pub ◌>>=◌ : Exec W A → (A → Exec W B) → Exec W B
  unfolding pure raise
  ◌>>=◌ m f s = let (r, s') = m s in continue r f s'

  abbrev pub ◌>>◌ : Exec W A → Exec W B → Exec W B
  m >> n = m >>= λ _. n

-- An event or a counter: it cannot fail.
unfoldable pub note : {W : Type 0} → Call → Exec W (Unit {0})
note c s = (ok tt, record s { trace = record { call = c; error = none } ∷ s.trace })
