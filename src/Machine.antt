-- ===== src/Machine.antt =====
-- internal/workload/state.go: the pod's lifecycle. Each operation is what runs under the mutex; it
-- returns the event that the hook gets after the unlock and the timer that time.AfterFunc arms. The
-- clock's readings are arguments, in nanoseconds. `gen` is a uint64 and wraps.
pub mod System
use gpu_lease.Common.{
  ℕ, ◌+◌, ◌-◌, ◌*◌, ◌%◌, ◌^◌, String, Bool, true, false, Option, none, some, str_eq, ℤ, pos, negsuc,
  ◌==◌, leb_ℤ, not, ◌||◌, if◌then◌else◌,
}
use gpu_lease.Names.{second}
use gpu_lease.PodClient.{ActivateRequest}

pub data State : Type 0 where
  warm activating hot releasing : State

pub record Snapshot : Type 0 where
  pub state : State
  pub lease_name : String
  pub node : String
  pub gpu_id : ℤ
  pub gpu_model : String

pub record Event : Type 0 where
  pub old : State
  pub new : State
  pub snapshot : Snapshot
  pub activation_duration : ℕ

pub record Machine : Type 0 where
  pub state : State
  pub lease_name : String
  pub node : String
  pub gpu_id : ℤ
  pub gpu_model : String
  pub activation_start : ℕ
  pub gen : ℕ
  pub warmup : ℤ
  pub teardown : ℤ

pub data ActivateError : Type 0 where
  node_mismatch lease_conflict : ActivateError

-- The two functions that AfterFunc is given.
pub data TimerKind : Type 0 where
  complete_warmup_timer complete_teardown_timer : TimerKind

pub record Timer : Type 0 where
  pub kind : TimerKind
  pub gen : ℕ
  pub delay : ℤ

-- What one operation leaves: the machine, the error, the event for the hook, the timer it arms.
pub record Outcome : Type 0 where
  pub machine : Machine
  pub error : Option ActivateError
  pub event : Option Event
  pub timer : Option Timer

abbrev pub default_warmup_duration : ℤ
default_warmup_duration = pos (10 * second)

abbrev pub default_teardown_duration : ℤ
default_teardown_duration = pos (2 * second)

-- NewMachine
unfoldable pub new_machine : ℤ → ℤ → Machine
new_machine warmup teardown = record {
  state = warm;
  lease_name = "";
  node = "";
  gpu_id = negsuc 0;
  gpu_model = "";
  activation_start = 0;
  gen = 0;
  warmup = if leb_ℤ warmup (pos 0) then default_warmup_duration else warmup;
  teardown = if leb_ℤ teardown (pos 0) then default_teardown_duration else teardown;
}

-- Snapshot, snapshotLocked
unfoldable pub snapshot : Machine → Snapshot
snapshot m = record {
  state = m.state;
  lease_name = m.lease_name;
  node = m.node;
  gpu_id = m.gpu_id;
  gpu_model = m.gpu_model;
}

unfoldable pub is_hot_state : State → Bool
is_hot_state hot = true
is_hot_state _ = false

-- IsHot
unfoldable pub is_hot : Machine → Bool
unfolding is_hot_state
is_hot m = is_hot_state m.state

-- gen++ on a uint64
unfoldable pub next_gen : ℕ → ℕ
next_gen gen = (gen + 1) % 2 ^ 64

-- clearLeaseLocked
unfoldable pub clear_lease : Machine → Machine
clear_lease m = record m { lease_name = ""; node = ""; gpu_id = negsuc 0; gpu_model = "" }

unfoldable pub unchanged : Machine → Option ActivateError → Outcome
unchanged m err = record { machine = m; error = err; event = none; timer = none }

-- Activate from the warm state on.
unfoldable pub begin_warmup : Machine → ActivateRequest → ℕ → Outcome
unfolding next_gen snapshot
begin_warmup m req now =
    let gen : ℕ = next_gen m.gen in
    let m' : Machine = record m {
      gen = gen;
      lease_name = req.lease_name;
      node = req.node;
      gpu_id = req.gpu_id;
      gpu_model = req.gpu_model;
      activation_start = now;
      state = activating;
    } in
    record {
      machine = m';
      error = none;
      event = some (record {
        old = m.state;
        new = activating;
        snapshot = snapshot m';
        activation_duration = 0;
      });
      timer = some (record { kind = complete_warmup_timer; gen = gen; delay = m.warmup });
    }

-- The `switch` of Activate, under the lock.
unfoldable pub activate_in : State → Machine → ActivateRequest → ℕ → Outcome
unfolding begin_warmup unchanged
activate_in activating m req now =
    if str_eq req.lease_name m.lease_name
    then unchanged m none
    else unchanged m (some lease_conflict)
activate_in hot m req now =
    if str_eq req.lease_name m.lease_name
    then unchanged m none
    else unchanged m (some lease_conflict)
activate_in releasing m req now = unchanged m (some lease_conflict)
activate_in warm m req now = begin_warmup m req now

-- Activate
unfoldable pub activate : Machine → ActivateRequest → String → ℕ → Outcome
unfolding activate_in
activate m req own_node now =
    if not (str_eq req.node own_node)
    then unchanged m (some node_mismatch)
    else activate_in m.state m req now

-- The state that completeWarmup and completeTeardown ask for.
unfoldable pub same_state : State → State → Bool
same_state warm warm = true
same_state activating activating = true
same_state hot hot = true
same_state releasing releasing = true
same_state _ _ = false

-- completeWarmup
unfoldable pub complete_warmup : Machine → ℕ → ℕ → Outcome
unfolding same_state snapshot unchanged
complete_warmup m gen now =
    if not (m.gen == gen) || not (same_state m.state activating)
    then unchanged m none
    else (let m' : Machine = record m { state = hot } in
        record {
          machine = m';
          error = none;
          event = some (record {
            old = m.state;
            new = hot;
            snapshot = snapshot m';
            activation_duration = now - m.activation_start;
          });
          timer = none;
        })

-- The way back to warm that Release and completeTeardown share.
unfoldable pub back_to_warm : Machine → Outcome
unfolding clear_lease snapshot
back_to_warm m =
    let m' : Machine = record (clear_lease m) { state = warm } in
    record {
      machine = m';
      error = none;
      event =
          some
            (record { old = m.state; new = warm; snapshot = snapshot m'; activation_duration = 0 });
      timer = none;
    }

-- Release from the hot state on.
unfoldable pub begin_teardown : Machine → Outcome
unfolding next_gen snapshot
begin_teardown m =
    let gen : ℕ = next_gen m.gen in
    let m' : Machine = record m { gen = gen; state = releasing } in
    record {
      machine = m';
      error = none;
      event = some (record {
        old = m.state;
        new = releasing;
        snapshot = snapshot m';
        activation_duration = 0;
      });
      timer = some (record { kind = complete_teardown_timer; gen = gen; delay = m.teardown });
    }

unfoldable pub release_in : State → Machine → Outcome
unfolding unchanged back_to_warm begin_teardown
release_in warm m = unchanged m none
release_in releasing m = unchanged m none
release_in activating m = back_to_warm (record m { gen = next_gen m.gen })
release_in hot m = begin_teardown m

-- Release
unfoldable pub release : Machine → Outcome
unfolding release_in
release m = release_in m.state m

-- completeTeardown
unfoldable pub complete_teardown : Machine → ℕ → Outcome
unfolding same_state back_to_warm unchanged
complete_teardown m gen =
    if not (m.gen == gen) || not (same_state m.state releasing)
    then unchanged m none
    else back_to_warm m
