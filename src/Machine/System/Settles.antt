-- ===== src/Machine/System/Settles.antt =====
-- A pod of state.go that gets no more requests comes to rest.
use gpu_lease.Common.{
  ℕ, zero, suc, ◌^◌, ◌<◌, ◌≡◌, refl, ◌∙◌, ◌⊎◌, inl, inr, String, Option, none, some, List, [], ◌∷◌,
  ℤ, length, arith, subst,
}
use gpu_lease.Machine.{
  Machine, State, warm, activating, hot, releasing, Timer, complete_warmup, complete_teardown,
  unchanged, TimerKind, complete_warmup_timer, complete_teardown_timer,
}
use gpu_lease.Machine.System.{
  System, Input, fires, timer_at, without, fire, run_timer, arm, outcome, remaining, step, run,
  start,
}
use gpu_lease.Machine.System.Timers.{OneLive}
use gpu_lease.Machine.System.Invariant.{run-start-Inv}
use gpu_lease.Machine.System.Invariant.Requests.{Inv}
use gpu_lease.Machine.System.Invariant.Firings.{fires-Inv}

-- `fs` fires each of `n` pending timers once, in any order: places in the list of the timers that
-- are left, and times.
abbrev pub Drains : List (ℕ × ℕ) → ℕ → Type 0
Drains [] n = n ≡ 0
Drains (f ∷ fs) zero = ⊥
Drains (f ∷ fs) (suc n) = (f.0 < suc n) × Drains fs n

abbrev pub firings : List (ℕ × ℕ) → List Input
firings [] = []
firings (f ∷ fs) = fires f.0 f.1 ∷ firings fs

-- No timer is pending, and the pod is warm or hot.
pub record IsSettled (s : System) : Type 0 where
  pub no_timers : s.timers ≡ []
  pub at_rest : (s.machine.state ≡ warm) ⊎ (s.machine.state ≡ hot)

-- A timer arms none.
run_arms_none :
    (kind : TimerKind) (m : Machine) (gen now : ℕ) → (run_timer kind m gen now).timer ≡ none
unfolding run_timer unchanged complete_warmup complete_teardown
run_arms_none complete_warmup_timer m gen now = ground arith
run_arms_none complete_teardown_timer m gen now = ground arith

fire_arms_none : (o : Option Timer) (m : Machine) (now : ℕ) → (fire o m now).timer ≡ none
unfolding fire unchanged
fire_arms_none none m now = refl
fire_arms_none (some t) m now = run_arms_none t.kind m t.gen now

length-without :
    (k n : ℕ) (ts : List Timer) → length ts ≡ suc n → k < suc n → length (without k ts) ≡ n
unfolding without
length-without k n [] e h = absurd (omega (arith, e))
length-without zero n (t ∷ ts) e h = omega (arith, e)
length-without (suc k) zero (t ∷ ts) e h = absurd (omega (arith, h))
length-without (suc k) (suc n) (t ∷ ts) e h =
    omega (arith, length-without k n ts (omega (arith, e)) (omega (arith, h)))

rest :
    (own_node : String) (st : State) (s : System)
    → Inv own_node s
    → s.machine.state ≡ st
    → s.timers ≡ []
    → IsSettled s
rest own_node warm s v p e = record { no_timers = e; at_rest = inl p }
rest own_node hot s v p e = record { no_timers = e; at_rest = inr p }
rest own_node activating s v p e =
    absurd (subst (OneLive complete_warmup_timer s.machine.gen) e (v.warming p))
rest own_node releasing s v p e =
    absurd (subst (OneLive complete_teardown_timer s.machine.gen) e (v.draining p))

empty_list : (ts : List Timer) → length ts ≡ 0 → ts ≡ []
empty_list [] e = refl
empty_list (t ∷ ts) e = absurd (omega (arith, e))

drain-IsSettled :
    (own_node : String) (s : System) (fs : List (ℕ × ℕ)) (n : ℕ)
    → Inv own_node s
    → length s.timers ≡ n
    → Drains fs n
    → IsSettled (run own_node s (firings fs))
unfolding run step outcome remaining arm
drain-IsSettled own_node s [] n v e d =
    rest own_node s.machine.state s v refl (empty_list s.timers (e ∙ d))
drain-IsSettled own_node s (f ∷ fs) zero v e d = absurd d
drain-IsSettled own_node s (f ∷ fs) (suc n) v e d =
    drain-IsSettled own_node (step own_node s (fires f.0 f.1)) fs n
      (fires-Inv own_node s v f.0 f.1 s.machine.state refl)
      (rw (fire_arms_none (timer_at f.0 s.timers) s.machine f.1)
        (length-without f.0 n s.timers e d.0))
      d.1

-- Once the requests stop, after fewer than 2^64 inputs to a new machine, the pod comes to rest: when
-- each pending timer has fired, in any order and at any times, none is left and the pod is warm or
-- hot.
pub run-start-IsSettled :
    (own_node : String) (warmup teardown : ℤ) (is : List Input) (fs : List (ℕ × ℕ))
    → length is < 2 ^ 64
    → Drains fs (length (run own_node (start warmup teardown) is).timers)
    → IsSettled (run own_node (run own_node (start warmup teardown) is) (firings fs))
run-start-IsSettled own_node warmup teardown is fs b d =
    drain-IsSettled own_node (run own_node (start warmup teardown) is) fs _
      (run-start-Inv own_node warmup teardown is b) refl d
