-- ===== src/Pods/Target.antt =====
-- The number of pods that should be hot, by the number of ready pods and the two settings.
use gpu_lease.Common.{ℕ, suc, ◌+◌, ◌≤◌, ◌<◌, ◌≡◌, ◌⊎◌, pos, ◌+ℤ◌, ◌-ℤ◌, ◌≤ℤ◌, arith}
use gpu_lease.Pods.{target_hot}

-- With enough ready pods for both floors, exactly `warm` of them stay warm. With fewer, the hot floor
-- wins, up to all the pods.
pub target_hot_exact :
    (ready warm min_hot : ℕ)
    → ((min_hot + warm ≤ ready)
        × (target_hot ready (pos warm) (pos min_hot) +ℤ pos warm ≡ pos ready))
      ⊎ ((ready < min_hot + warm)
          × (((min_hot ≤ ready) × (target_hot ready (pos warm) (pos min_hot) ≡ pos min_hot))
              ⊎ ((ready < min_hot) × (target_hot ready (pos warm) (pos min_hot) ≡ pos ready))))
unfolding target_hot ◌+ℤ◌ ◌-ℤ◌
target_hot_exact ready warm min_hot = ground arith

-- For settings that are not negative the target lies between 0 and the number of ready pods, and one
-- more ready pod raises it by one or leaves it.
pub target_hot_step :
    (ready warm min_hot : ℕ)
    → (pos 0 ≤ℤ target_hot ready (pos warm) (pos min_hot))
      × (target_hot ready (pos warm) (pos min_hot) ≤ℤ pos ready)
      × ((target_hot (suc ready) (pos warm) (pos min_hot)
            ≡ target_hot ready (pos warm) (pos min_hot))
          ⊎ (target_hot (suc ready) (pos warm) (pos min_hot)
              ≡ target_hot ready (pos warm) (pos min_hot) +ℤ pos 1))
unfolding target_hot ◌+ℤ◌ ◌-ℤ◌
target_hot_step ready warm min_hot = ground arith
