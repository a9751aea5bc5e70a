-- ===== src/WarmPool/Durations.antt =====
-- The waits of warmpool_controller.go: the next Reconcile, and the retention of failed leases.
use gpu_lease.Common.{
  ◌≡◌, refl, Bool, true, false, ℤ, pos, ◌-ℤ◌, ◌≤ℤ◌, ◌<ℤ◌, ltb_ℤ, -ℤ_parts, arith, if◌then◌else◌,
  none, ◌∷◌, Bool-cases, inl, inr,
}
use gpu_lease.Objects.{GpuLease}
use gpu_lease.Exec.{ok, Call, event, Entry, State, pure, perform, try, note, ◌>>=◌}
use gpu_lease.Names.{finalizer}
use gpu_lease.LeaseController.Release.{update_lease, without_finalizer}
use gpu_lease.Client.{Api, Machinery}
use gpu_lease.LeaseController.{requeue_after}
use gpu_lease.WarmPool.{Config, min_positive_duration, event_reason_failed_lease_reclaimed}
use gpu_lease.WarmPool.Orphans.{
  reclaim_at, strip_and_delete, delete_failed, after_delete, after_strip,
  effective_failed_lease_retention,
}
use gpu_lease.WarmPool.Reconcile.{
  next_reconcile, effective_resync_period, blocked_promotion_requeue_after,
}

-- The wait to the next Reconcile is positive, and no longer than the period (30 s after a blocked
-- promotion, else the resync period) nor than a positive wait for a failed lease.
pub next_reconcile_bounds :
    {W : Type 0} (api : Api W) (k : Machinery) (cfg : Config) (blocked : Bool) (failed_wait : ℤ)
    → (d : ℤ) × (next_reconcile api k cfg blocked failed_wait ≡ requeue_after d)
      × (pos 0 <ℤ d)
      × (d ≤ℤ (if blocked then blocked_promotion_requeue_after else effective_resync_period cfg))
      × (pos 0 <ℤ failed_wait → d ≤ℤ failed_wait)
unfolding next_reconcile min_positive_duration effective_resync_period
next_reconcile_bounds api k cfg blocked failed_wait =
    (_, refl, ground arith, ground arith, ground arith)

effective_failed_lease_retention_positive :
    (cfg : Config) → pos 0 <ℤ effective_failed_lease_retention cfg
unfolding effective_failed_lease_retention
effective_failed_lease_retention_positive cfg = ground arith

-- The entry of a call that did not fail.
abbrev pub succeeded : Call → Entry
succeeded c = record { call = c; error = none }

delete_failed_lem :
    {W : Type 0} (api : Api W) (k : Machinery) (cfg : Config) (lease : GpuLease) (s : State W)
    (w : W)
    → api.delete_lease lease s.world ≡ (ok tt, w)
    → delete_failed api k cfg lease s ≡ (
      ok (true, pos 0),
      record {
        world = w;
        trace =
            succeeded (event event_reason_failed_lease_reclaimed)
            ∷ succeeded (Call.delete_lease lease)
            ∷ s.trace;
      },
    )
unfolding delete_failed after_delete try perform note pure ◌>>=◌
delete_failed_lem api k cfg lease s w d = rw d refl

ltb_true : (a b : ℤ) → a <ℤ b → ltb_ℤ a b ≡ true
ltb_true a b h = ground arith

ltb_false : (a b : ℤ) → b ≤ℤ a → ltb_ℤ a b ≡ false
ltb_false a b h = ground arith

strip_and_delete_lem :
    {W : Type 0} (api : Api W) (k : Machinery) (cfg : Config) (lease : GpuLease) (s : State W)
    (updated : GpuLease) (w w1 w2 : W)
    → api.update_lease
        (record lease { metadata = k.remove_finalizer lease.metadata finalizer })
        s.world
      ≡ (ok updated, w)
    → api.delete_lease updated w ≡ (ok tt, w1)
    → api.delete_lease lease s.world ≡ (ok tt, w2)
    → strip_and_delete api k cfg lease s ≡ (
      ok (true, pos 0),
      if k.contains_finalizer lease.metadata finalizer
          then record {
            world = w1;
            trace =
                succeeded (event event_reason_failed_lease_reclaimed)
                ∷ succeeded (Call.delete_lease updated)
                ∷ succeeded (
                    Call.update_lease
                      (record lease { metadata = k.remove_finalizer lease.metadata finalizer }))
                ∷ s.trace;
          }
          else record {
            world = w2;
            trace =
                succeeded (event event_reason_failed_lease_reclaimed)
                ∷ succeeded (Call.delete_lease lease)
                ∷ s.trace;
          },
    )
unfolding strip_and_delete update_lease without_finalizer after_strip try perform ◌>>=◌
strip_and_delete_lem api k cfg lease s updated w w1 w2 u d d' =
    elim (Bool-cases (k.contains_finalizer lease.metadata finalizer)) [
      | inl e ↦ rw (e, u) (delete_failed_lem api k cfg updated _ w1 d)
      | inr e ↦ rw e (delete_failed_lem api k cfg lease s w2 d')
    ]

-- A failed lease is left alone, with a positive wait that ends with its retention, until it has been
-- failed for the retention. From then on, where the API server takes the update and the deletion:
-- if it has the finalizer, an update takes that away and the lease that the update returned is
-- deleted, else it is deleted as it is; the event is recorded and the lease counts as gone. No other
-- call is made.
pub reclaim_at_retention :
    {W : Type 0} (api : Api W) (k : Machinery) (cfg : Config) (lease : GpuLease) (age : ℤ)
    (s : State W) (updated : GpuLease) (w w1 w2 : W)
    → api.update_lease
        (record lease { metadata = k.remove_finalizer lease.metadata finalizer })
        s.world
      ≡ (ok updated, w)
    → api.delete_lease updated w ≡ (ok tt, w1)
    → api.delete_lease lease s.world ≡ (ok tt, w2)
    → (age <ℤ effective_failed_lease_retention cfg
        → (wait : ℤ) × (reclaim_at api k cfg lease age s ≡ (ok (false, wait), s))
          × (pos 0 <ℤ wait)
          × (wait ≡ effective_failed_lease_retention cfg -ℤ age))
      × (effective_failed_lease_retention cfg ≤ℤ age
          → reclaim_at api k cfg lease age s ≡ (
            ok (true, pos 0),
            if k.contains_finalizer lease.metadata finalizer
                then record {
                  world = w1;
                  trace =
                      succeeded (event event_reason_failed_lease_reclaimed)
                      ∷ succeeded (Call.delete_lease updated)
                      ∷ succeeded (
                          Call.update_lease (record lease {
                            metadata = k.remove_finalizer lease.metadata finalizer;
                          }))
                      ∷ s.trace;
                }
                else record {
                  world = w2;
                  trace =
                      succeeded (event event_reason_failed_lease_reclaimed)
                      ∷ succeeded (Call.delete_lease lease)
                      ∷ s.trace;
                },
          ))
unfolding reclaim_at pure
reclaim_at_retention api k cfg lease age s updated w w1 w2 u d d' = (
  λ h. (
    _,
    rw (ltb_true age (effective_failed_lease_retention cfg) h) refl,
    ground (arith, -ℤ_parts (effective_failed_lease_retention cfg) age),
    refl,
  ),
  λ h.
      rw (ltb_false age (effective_failed_lease_retention cfg) h)
        (strip_and_delete_lem api k cfg lease s updated w w1 w2 u d d'),
)
