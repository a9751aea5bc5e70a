-- ===== src/Machine/System/Invariant.antt =====
-- The invariant of a pod of state.go over runs of requests and firings.
pub mod Requests
pub mod Firings
use gpu_lease.Common.{
  ℕ, suc, ◌+◌, ◌^◌, ◌<◌, ◌≤◌, ◌≡◌, refl, ◌⊎◌, inl, inr, String, Option, none, some, List, [], ◌∷◌,
  str_eq, eq_iff, ℤ, negsuc, length, arith, Bool-cases,
}
use gpu_lease.PodClient.{ActivateRequest}
use gpu_lease.Machine.{
  Machine, State, warm, activating, hot, releasing, Timer, complete_warmup_timer,
  complete_teardown_timer, activate, activate_in, begin_warmup, release, release_in, begin_teardown,
  back_to_warm, complete_warmup, complete_teardown, clear_lease, next_gen, Outcome, unchanged,
}
use gpu_lease.Machine.System.{
  System, Input, activates, releases, fires, timer_at, without, fire, arm, step, run, start,
}
use gpu_lease.Machine.System.Timers.{
  Stale, OneLive, Stale-next, OneLive-next, Stale-fires, OneLive-Fires, Fires, nothing, live, old,
}
use gpu_lease.Machine.System.Invariant.Requests.{Inv, next_gen_lem, activate-Inv, release-Inv}
use gpu_lease.Machine.System.Invariant.Firings.{fires-Inv}

-- Every input keeps the invariant, while the generation counter does not wrap.
pub step-Inv :
    (own_node : String) (s : System) (i : Input)
    → Inv own_node s
    → s.machine.gen + 1 < 2 ^ 64
    → Inv own_node (step own_node s i)
unfolding step
step-Inv own_node s (activates req now) v b = activate-Inv own_node s v req now b
step-Inv own_node s releases v b = release-Inv own_node s v b
step-Inv own_node s (fires k now) v b = fires-Inv own_node s v k now s.machine.state refl

-- An input makes at most one new generation.
pub gen-step :
    (own_node : String) (s : System) (i : Input)
    → s.machine.gen + 1 < 2 ^ 64
    → (step own_node s i).machine.gen ≤ s.machine.gen + 1
unfolding step
gen-step own_node s (activates req now) b =
    unfold activate activate_in in ground (arith, next_gen_lem s.machine.gen)
gen-step own_node s releases b = unfold release in ground (arith, next_gen_lem s.machine.gen)
gen-step own_node s (fires k now) b = unfold fire complete_warmup complete_teardown in ground arith

run-Inv :
    (own_node : String) (s : System) (is : List Input)
    → Inv own_node s
    → s.machine.gen + length is < 2 ^ 64
    → Inv own_node (run own_node s is)
unfolding run
run-Inv own_node s [] v b = v
run-Inv own_node s (i ∷ is) v b =
    run-Inv own_node (step own_node s i) is (step-Inv own_node s i v (omega arith))
      (omega (arith, gen-step own_node s i))

start-Inv : (own_node : String) (warmup teardown : ℤ) → Inv own_node (start warmup teardown)
unfolding start
start-Inv own_node warmup teardown = ground arith

-- After fewer than 2^64 requests and firings, in any order, from a new machine: the lease fields and
-- the pending timers fit the state.
pub run-start-Inv :
    (own_node : String) (warmup teardown : ℤ) (is : List Input)
    → length is < 2 ^ 64
    → Inv own_node (run own_node (start warmup teardown) is)
unfolding start
run-start-Inv own_node warmup teardown is b =
    run-Inv own_node (start warmup teardown) is (start-Inv own_node warmup teardown) (omega arith)
