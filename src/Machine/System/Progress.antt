-- ===== src/Machine/System/Progress.antt =====
-- The timers that end a warmup or a teardown of state.go.
use gpu_lease.Common.{ℕ, zero, suc, ◌≡◌, refl, ◌⊎◌, inl, inr, String, some, List, [], ◌∷◌, arith}
use gpu_lease.Machine.{
  Machine, activating, releasing, Timer, TimerKind, complete_warmup_timer, complete_teardown_timer,
  complete_warmup, complete_teardown,
}
use gpu_lease.Machine.System.{System, fires, timer_at, fire, step}
use gpu_lease.Machine.System.Timers.{OneLive}
use gpu_lease.Machine.System.Invariant.Requests.{Inv}
use gpu_lease.Machine.System.Refinement.{view, spec_elapse}

-- Where the live timer stands.
live_at :
    (kind : TimerKind) (g : ℕ) (ts : List Timer)
    → OneLive kind g ts
    → (k : ℕ) × (t : Timer) × (timer_at k ts ≡ some t) × (t.gen ≡ g) × (t.kind ≡ kind)
unfolding timer_at
live_at kind g [] h = absurd h
live_at kind g (t ∷ ts) (inl h) = (zero, t, refl, h.0, h.1)
live_at kind g (t ∷ ts) (inr h) =
    let (k, u, e, e', e'') = live_at kind g ts h.1 in (suc k, u, e, e', e'')

view-live_warmup :
    (t : Timer) (m : Machine) (now : ℕ)
    → m.state ≡ activating
    → t.gen ≡ m.gen
    → t.kind ≡ complete_warmup_timer
    → view (fire (some t) m now).machine ≡ spec_elapse (view m)
unfolding view fire complete_warmup spec_elapse
view-live_warmup t m now p e k = ground arith

view-live_teardown :
    (t : Timer) (m : Machine) (now : ℕ)
    → m.state ≡ releasing
    → t.gen ≡ m.gen
    → t.kind ≡ complete_teardown_timer
    → view (fire (some t) m now).machine ≡ spec_elapse (view m)
unfolding view fire complete_teardown spec_elapse
view-live_teardown t m now p e k = ground arith

-- In every state that the invariant allows, an activating or releasing pod has a pending timer whose
-- firing, at any time, completes the warmup or the teardown.
pub fires-completes :
    (own_node : String) (s : System)
    → Inv own_node s
    → (s.machine.state ≡ activating) ⊎ (s.machine.state ≡ releasing)
    → (k : ℕ) × ((now : ℕ)
        → view (step own_node s (fires k now)).machine ≡ spec_elapse (view s.machine))
unfolding step
fires-completes own_node s v (inl p) =
    let (k, t, e, e', e'') = live_at complete_warmup_timer s.machine.gen s.timers (v.warming p) in
    (k, λ now. rw e (view-live_warmup t s.machine now p e' e''))
fires-completes own_node s v (inr p) =
    let (k, t, e, e', e'') =
      live_at complete_teardown_timer s.machine.gen s.timers (v.draining p) in
    (k, λ now. rw e (view-live_teardown t s.machine now p e' e''))
