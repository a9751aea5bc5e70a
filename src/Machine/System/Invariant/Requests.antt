-- ===== src/Machine/System/Invariant/Requests.antt =====
-- The invariant of a pod of state.go between two inputs, and the requests.
use gpu_lease.Common.{
  ℕ, suc, ◌+◌, ◌^◌, ◌<◌, ◌≡◌, refl, ◌⊎◌, inl, inr, String, List, str_eq, eq_iff, negsuc, arith,
  Bool-cases,
}
use gpu_lease.PodClient.{ActivateRequest}
use gpu_lease.Machine.{
  Machine, State, warm, activating, hot, releasing, Timer, complete_warmup_timer,
  complete_teardown_timer, activate, activate_in, begin_warmup, release, release_in, begin_teardown,
  back_to_warm, next_gen, Outcome, unchanged,
}
use gpu_lease.Machine.System.{System, arm}
use gpu_lease.Machine.System.Timers.{Stale, OneLive, Stale-next, OneLive-next}

-- A pod that is warm or hot has only stale timers; one that is activating or releasing has one live
-- timer, the one that ends the state. A warm pod holds nothing, any other a lease for its own node.
pub record Inv (own_node : String) (s : System) : Type 0 where
  pub quiet_warm : s.machine.state ≡ warm → Stale s.machine.gen s.timers
  pub quiet_hot : s.machine.state ≡ hot → Stale s.machine.gen s.timers
  pub warming : s.machine.state ≡ activating → OneLive complete_warmup_timer s.machine.gen s.timers
  pub draining :
      s.machine.state ≡ releasing → OneLive complete_teardown_timer s.machine.gen s.timers
  pub no_lease : s.machine.state ≡ warm → s.machine.lease_name ≡ ""
  pub no_gpu : s.machine.state ≡ warm → s.machine.gpu_id ≡ negsuc 0
  pub on_own_node : (s.machine.state ≡ warm) ⊎ (s.machine.node ≡ own_node)

pub next_gen_lem : (g : ℕ) → g + 1 < 2 ^ 64 → next_gen g ≡ suc g
unfolding next_gen
next_gen_lem g h = omega arith

pub Stale-next_gen : (g : ℕ) (ts : List Timer) → g + 1 < 2 ^ 64 → Stale g ts → Stale (next_gen g) ts
Stale-next_gen g ts b h = rw (next_gen_lem g b) (Stale-next g ts h)

-- The invariant of what an operation leaves, with the timers that were pending.
abbrev pub InvAfter : String → List Timer → Outcome → Type 0
InvAfter own_node ts o = Inv own_node (record { machine = o.machine; timers = arm o.timer ts })

begin_warmup-Inv :
    (own_node : String) (m : Machine) (ts : List Timer) (req : ActivateRequest) (now : ℕ)
    → m.gen + 1 < 2 ^ 64
    → req.node ≡ own_node
    → Stale m.gen ts
    → InvAfter own_node ts (begin_warmup m req now)
unfolding begin_warmup arm
begin_warmup-Inv own_node m ts req now b e h = record {
  quiet_warm = λ p. cc;
  quiet_hot = λ p. cc;
  warming = λ p. inl (refl, refl, Stale-next_gen m.gen ts b h);
  draining = λ p. cc;
  no_lease = λ p. cc;
  no_gpu = λ p. cc;
  on_own_node = inr e;
}

module _ (own_node : String) (s : System) (v : Inv own_node s) where
  activate_in-Inv :
      (st : State) (req : ActivateRequest) (now : ℕ)
      → s.machine.state ≡ st
      → s.machine.gen + 1 < 2 ^ 64
      → req.node ≡ own_node
      → InvAfter own_node s.timers (activate_in st s.machine req now)
  unfolding activate_in unchanged arm
  activate_in-Inv warm req now p b e =
      begin_warmup-Inv own_node s.machine s.timers req now b e (v.quiet_warm p)
  activate_in-Inv releasing req now p b e = v
  activate_in-Inv activating req now p b e =
      elim (Bool-cases (str_eq req.lease_name s.machine.lease_name)) [
        | inl same ↦ rw same v
        | inr other ↦ rw other v
      ]
  activate_in-Inv hot req now p b e =
      elim (Bool-cases (str_eq req.lease_name s.machine.lease_name)) [
        | inl same ↦ rw same v
        | inr other ↦ rw other v
      ]

  pub activate-Inv :
      (req : ActivateRequest) (now : ℕ)
      → s.machine.gen + 1 < 2 ^ 64
      → InvAfter own_node s.timers (activate s.machine req own_node now)
  unfolding activate unchanged arm
  activate-Inv req now b = elim (Bool-cases (str_eq req.node own_node)) [
    | inl same ↦
        rw same (activate_in-Inv s.machine.state req now refl b ((eq_iff req.node own_node).0 same))
    | inr other ↦ rw other v
  ]

  pub release-Inv : s.machine.gen + 1 < 2 ^ 64 → InvAfter own_node s.timers (release s.machine)
  unfolding release release_in begin_teardown back_to_warm arm
  release-Inv b = ground (
    arith,
    next_gen_lem s.machine.gen,
    Stale-next s.machine.gen s.timers,
    OneLive-next complete_warmup_timer s.machine.gen s.timers,
  )
