-- ===== src/Machine/System/Refinement.antt =====
-- The contract of state.go without locks, timers and generations: a pod is idle, or warms up for,
-- serves or tears down one lease.
use gpu_lease.Common.{
  ℕ, ◌≡◌, refl, ◌⊎◌, inl, inr, String, true, false, Option, none, some, str_eq, arith,
  if◌then◌else◌, Bool-cases, sym,
}
use gpu_lease.PodClient.{ActivateRequest}
use gpu_lease.Machine.{
  Machine, State, warm, activating, hot, releasing, Timer, activate, activate_in, begin_warmup,
  release, release_in, begin_teardown, back_to_warm, complete_warmup, complete_teardown, unchanged,
}
use gpu_lease.Machine.System.{System, Input, activates, releases, fires, timer_at, fire, step}

pub data Phase : Type 0 where
  idle : Phase
  warming serving draining : ActivateRequest → Phase

unfoldable pub lease_of : Machine → ActivateRequest
lease_of m = record {
  lease_name = m.lease_name;
  node = m.node;
  gpu_id = m.gpu_id;
  gpu_model = m.gpu_model;
}

unfoldable pub view_in : State → Machine → Phase
unfolding lease_of
view_in warm m = idle
view_in activating m = warming (lease_of m)
view_in hot m = serving (lease_of m)
view_in releasing m = draining (lease_of m)

unfoldable pub view : Machine → Phase
unfolding view_in
view m = view_in m.state m

-- POST /lease: an idle pod on the request's node takes the lease, any other pod stays as it is.
unfoldable pub spec_activate : String → ActivateRequest → Phase → Phase
spec_activate own_node req idle = if str_eq req.node own_node then warming req else idle
spec_activate own_node req p = p

-- DELETE /lease: a warmup is cancelled at once, a serving pod starts its teardown.
unfoldable pub spec_release : Phase → Phase
spec_release (warming r) = idle
spec_release (serving r) = draining r
spec_release p = p

-- The end of a warmup or of a teardown.
unfoldable pub spec_elapse : Phase → Phase
spec_elapse (warming r) = serving r
spec_elapse (draining r) = idle
spec_elapse p = p

abbrev pub Refines : String → Phase → Input → Phase → Type 0
Refines own_node p (activates req now) q = q ≡ spec_activate own_node req p
Refines own_node p releases q = q ≡ spec_release p
Refines own_node p (fires k now) q = (q ≡ p) ⊎ (q ≡ spec_elapse p)

view-activate_in :
    (st : State) (m : Machine) (req : ActivateRequest) (own_node : String) (now : ℕ)
    → m.state ≡ st
    → str_eq req.node own_node ≡ true
    → view (activate_in st m req now).machine ≡ spec_activate own_node req (view_in st m)
unfolding view activate_in spec_activate begin_warmup
view-activate_in warm m req own_node now p e = ground arith
view-activate_in activating m req own_node now p e = ground arith
view-activate_in hot m req own_node now p e = ground arith
view-activate_in releasing m req own_node now p e = ground arith

spec_activate_elsewhere :
    (own_node : String) (req : ActivateRequest) (p : Phase)
    → str_eq req.node own_node ≡ false
    → spec_activate own_node req p ≡ p
unfolding spec_activate
spec_activate_elsewhere own_node req idle h = rw h
spec_activate_elsewhere own_node req _ h = refl

view-activate :
    (m : Machine) (req : ActivateRequest) (own_node : String) (now : ℕ)
    → view (activate m req own_node now).machine ≡ spec_activate own_node req (view m)
unfolding activate unchanged
view-activate m req own_node now = elim (Bool-cases (str_eq req.node own_node)) [
  | inl here ↦ rw here (unfold view in view-activate_in m.state m req own_node now refl here)
  | inr elsewhere ↦ rw elsewhere (sym (spec_activate_elsewhere own_node req (view m) elsewhere))
]

view-release : (m : Machine) → view (release m).machine ≡ spec_release (view m)
unfolding view release release_in begin_teardown back_to_warm spec_release
view-release m = ground arith

view-fire :
    (o : Option Timer) (m : Machine) (now : ℕ)
    → (view (fire o m now).machine ≡ view m) ⊎ (view (fire o m now).machine ≡ spec_elapse (view m))
unfolding view fire complete_warmup complete_teardown spec_elapse
view-fire none m now = inl refl
view-fire (some t) m now = ground arith

-- Every input moves the pod as its contract says, whatever timers are pending.
pub step-Refines :
    (own_node : String) (s : System) (i : Input)
    → Refines own_node (view s.machine) i (view (step own_node s i).machine)
unfolding step
step-Refines own_node s (activates req now) = view-activate s.machine req own_node now
step-Refines own_node s releases = view-release s.machine
step-Refines own_node s (fires k now) = view-fire (timer_at k s.timers) s.machine now
