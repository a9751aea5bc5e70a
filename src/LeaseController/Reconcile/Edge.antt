-- ===== src/LeaseController/Reconcile/Edge.antt =====
-- The state machine of a lease in gpulease_controller.go.
use gpu_lease.Common.{◌≡◌, ◌⊎◌}
use gpu_lease.Objects.{
  Meta, LeaseSpec, GpuLease, LeasePhase, unset, pending, admitted, activating, bound, failed,
  releasing,
}

-- The phases in which Reconcile still works on a lease.
abbrev pub IsLive : LeasePhase → Type 0
IsLive p = ((p ≡ unset) ⊎ (p ≡ pending)) ⊎ ((p ≡ admitted) ⊎ ((p ≡ activating) ⊎ (p ≡ bound)))

-- The edges of the state machine: from the phase that was read to the phase that is written.
pub data Edge : LeasePhase → LeasePhase → Type 0 where
  stay_unset : Edge unset unset
  stay_pending : Edge pending pending
  admit_unset : Edge unset admitted
  admit_pending : Edge pending admitted
  post : Edge admitted activating
  bind : Edge activating bound
  fail : {p : LeasePhase} → IsLive p → Edge p failed

-- A lease with the metadata `m` (the resource version that was read among it), the spec `spec` and the
-- phase `q` is `lease` with a phase that an edge from `p` leads to.
abbrev pub MovesFrom : LeasePhase → GpuLease → Meta → LeaseSpec → LeasePhase → Type 0
MovesFrom p lease m spec q = (m ≡ lease.metadata) × (spec ≡ lease.spec) × Edge p q

abbrev pub Moves : GpuLease → GpuLease → Type 0
Moves lease l = MovesFrom lease.status.phase lease l.metadata l.spec l.status.phase

-- The lease, in the phase Releasing.
abbrev pub Releases : GpuLease → GpuLease → Type 0
Releases lease l =
    (l.metadata ≡ lease.metadata) × (l.spec ≡ lease.spec) × (l.status.phase ≡ releasing)
