-- ===== src/Machine/System.antt =====
-- The machine of state.go together with the timers that it has armed. Requests and timers take the
-- mutex in any order: a run is a list of inputs, and a timer fires whenever the list says so.
pub mod Timers
pub mod Invariant
pub mod Refinement
pub mod Progress
pub mod Settles
use gpu_lease.Common.{ℕ, zero, suc, String, Option, none, some, List, [], ◌∷◌, ℤ}
use gpu_lease.PodClient.{ActivateRequest}
use gpu_lease.Machine.{
  Machine, Timer, TimerKind, complete_warmup_timer, complete_teardown_timer, Outcome, new_machine,
  activate, release, complete_warmup, complete_teardown, unchanged,
}

pub record System : Type 0 where
  pub machine : Machine
  pub timers : List Timer

-- POST /lease, DELETE /lease, and the timer at a place of the list going off; `now` is the clock.
pub data Input : Type 0 where
  activates : ActivateRequest → (now : ℕ) → Input
  releases : Input
  fires : (k now : ℕ) → Input

unfoldable pub timer_at : ℕ → List Timer → Option Timer
timer_at k [] = none
timer_at zero (t ∷ ts) = some t
timer_at (suc k) (t ∷ ts) = timer_at k ts

unfoldable pub without : ℕ → List Timer → List Timer
without k [] = []
without zero (t ∷ ts) = ts
without (suc k) (t ∷ ts) = t ∷ without k ts

-- The function that AfterFunc was given, called with the generation of the arming.
unfoldable pub run_timer : TimerKind → Machine → ℕ → ℕ → Outcome
run_timer complete_warmup_timer m gen now = complete_warmup m gen now
run_timer complete_teardown_timer m gen now = complete_teardown m gen

unfoldable pub fire : Option Timer → Machine → ℕ → Outcome
unfolding run_timer
fire none m now = unchanged m none
fire (some t) m now = run_timer t.kind m t.gen now

unfoldable pub outcome : String → System → Input → Outcome
unfolding fire timer_at
outcome own_node s (activates req now) = activate s.machine req own_node now
outcome own_node s releases = release s.machine
outcome own_node s (fires k now) = fire (timer_at k s.timers) s.machine now

-- A timer that has fired is gone, and a new one joins the list.
unfoldable pub remaining : System → Input → List Timer
unfolding without
remaining s (fires k now) = without k s.timers
remaining s (activates req now) = s.timers
remaining s releases = s.timers

unfoldable pub arm : Option Timer → List Timer → List Timer
arm none ts = ts
arm (some t) ts = t ∷ ts

unfoldable pub step : String → System → Input → System
unfolding outcome remaining arm
step own_node s i =
    let o = outcome own_node s i in
    record { machine = o.machine; timers = arm o.timer (remaining s i) }

unfoldable pub run : String → System → List Input → System
unfolding step
run own_node s [] = s
run own_node s (i ∷ is) = run own_node (step own_node s i) is

unfoldable pub start : ℤ → ℤ → System
unfolding new_machine
start warmup teardown = record { machine = new_machine warmup teardown; timers = [] }
