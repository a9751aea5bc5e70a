-- ===== src/Machine/System/Invariant/Firings.antt =====
-- The invariant and the firing of a timer of state.go.
use gpu_lease.Common.{ℕ, ◌<◌, ◌≡◌, refl, ◌⊎◌, inl, inr, String, Option, none, some, arith}
use gpu_lease.Machine.{
  Machine, State, warm, activating, hot, releasing, Timer, complete_warmup_timer,
  complete_teardown_timer, complete_warmup, complete_teardown, clear_lease, unchanged,
}
use gpu_lease.Machine.System.{System, fires, timer_at, without, fire, arm, step}
use gpu_lease.Machine.System.Timers.{
  Stale, OneLive, Stale-fires, OneLive-Fires, Fires, nothing, live, old,
}
use gpu_lease.Machine.System.Invariant.Requests.{Inv}

-- A timer of an earlier generation does nothing when it fires.
pub stale_fire :
    (o : Option Timer) (m : Machine) (now : ℕ)
    → (o ≡ none) ⊎ ((t : Timer) × (o ≡ some t) × (t.gen < m.gen))
    → fire o m now ≡ unchanged m none
unfolding fire complete_warmup complete_teardown
stale_fire none m now h = refl
stale_fire (some t) m now h = ground arith

pub warmup_fire :
    (t : Timer) (m : Machine) (now : ℕ)
    → m.state ≡ activating
    → t.gen ≡ m.gen
    → t.kind ≡ complete_warmup_timer
    → ((fire (some t) m now).machine ≡ record m { state = hot })
      × ((fire (some t) m now).timer ≡ none)
unfolding fire complete_warmup
warmup_fire t m now h e k = ground arith

pub teardown_fire :
    (t : Timer) (m : Machine) (now : ℕ)
    → m.state ≡ releasing
    → t.gen ≡ m.gen
    → t.kind ≡ complete_teardown_timer
    → ((fire (some t) m now).machine ≡ record (clear_lease m) { state = warm })
      × ((fire (some t) m now).timer ≡ none)
unfolding fire complete_teardown clear_lease
teardown_fire t m now h e k = ground arith

-- The invariant of what a firing leaves, for each way in which a state's timers can fire.
module _ (own_node : String) (s : System) (v : Inv own_node s) (k now : ℕ) where
  -- Nothing acts: the machine stays, and the timers that are left still fit.
  idle_fire-Inv :
      (timer_at k s.timers ≡ none)
        ⊎ ((t : Timer) × (timer_at k s.timers ≡ some t) × (t.gen < s.machine.gen))
      → Inv own_node (record { machine = s.machine; timers = without k s.timers })
      → Inv own_node (step own_node s (fires k now))
  unfolding step unchanged
  idle_fire-Inv stale w = rw (stale_fire (timer_at k s.timers) s.machine now stale) w

  quiet_fire-Inv :
      (s.machine.state ≡ warm) ⊎ (s.machine.state ≡ hot)
      → Stale s.machine.gen s.timers
      → Inv own_node (step own_node s (fires k now))
  quiet_fire-Inv p h =
      let f = Stale-fires s.machine.gen k s.timers h in
      idle_fire-Inv f.1 (record {
        quiet_warm = λ q. f.0;
        quiet_hot = λ q. f.0;
        warming = λ q. ground arith;
        draining = λ q. ground arith;
        no_lease = v.no_lease;
        no_gpu = v.no_gpu;
        on_own_node = v.on_own_node;
      })

  -- The machine stays in a state that one live timer will end.
  waiting_fire-Inv :
      (s.machine.state ≡ activating
          × OneLive complete_warmup_timer s.machine.gen (without k s.timers))
        ⊎ (s.machine.state ≡ releasing
            × OneLive complete_teardown_timer s.machine.gen (without k s.timers))
      → Inv own_node (record { machine = s.machine; timers = without k s.timers })
  waiting_fire-Inv h = record {
    quiet_warm = λ q. ground arith;
    quiet_hot = λ q. ground arith;
    warming = λ q. ground arith;
    draining = λ q. ground arith;
    no_lease = v.no_lease;
    no_gpu = v.no_gpu;
    on_own_node = v.on_own_node;
  }

  warming_fire-Inv :
      s.machine.state ≡ activating
      → Fires complete_warmup_timer s.machine.gen k s.timers
      → Inv own_node (step own_node s (fires k now))
  unfolding step arm clear_lease
  warming_fire-Inv p (nothing h o) = idle_fire-Inv (inl h) (waiting_fire-Inv (inl (p, o)))
  warming_fire-Inv p (old t h lt o) = idle_fire-Inv (inr (t, h, lt)) (waiting_fire-Inv (inl (p, o)))
  warming_fire-Inv p (live t h e e' st) =
      let f = warmup_fire t s.machine now p e e' in
      rw (h, f.0, f.1)
        (record {
          quiet_warm = λ q. cc;
          quiet_hot = λ q. st;
          warming = λ q. cc;
          draining = λ q. cc;
          no_lease = λ q. cc;
          no_gpu = λ q. cc;
          on_own_node = ground arith;
        })

  draining_fire-Inv :
      s.machine.state ≡ releasing
      → Fires complete_teardown_timer s.machine.gen k s.timers
      → Inv own_node (step own_node s (fires k now))
  unfolding step arm clear_lease
  draining_fire-Inv p (nothing h o) = idle_fire-Inv (inl h) (waiting_fire-Inv (inr (p, o)))
  draining_fire-Inv p (old t h lt o) =
      idle_fire-Inv (inr (t, h, lt)) (waiting_fire-Inv (inr (p, o)))
  draining_fire-Inv p (live t h e e' st) =
      let f = teardown_fire t s.machine now p e e' in
      rw (h, f.0, f.1)
        (record {
          quiet_warm = λ q. st;
          quiet_hot = λ q. cc;
          warming = λ q. cc;
          draining = λ q. cc;
          no_lease = λ q. refl;
          no_gpu = λ q. refl;
          on_own_node = inl refl;
        })

  pub fires-Inv : (st : State) → s.machine.state ≡ st → Inv own_node (step own_node s (fires k now))
  fires-Inv warm p = quiet_fire-Inv (inl p) (v.quiet_warm p)
  fires-Inv hot p = quiet_fire-Inv (inr p) (v.quiet_hot p)
  fires-Inv activating p =
      warming_fire-Inv p
        (OneLive-Fires complete_warmup_timer s.machine.gen k s.timers (v.warming p))
  fires-Inv releasing p =
      draining_fire-Inv p
        (OneLive-Fires complete_teardown_timer s.machine.gen k s.timers (v.draining p))
