-- ===== src/Machine/System/Timers.antt =====
-- Generations: which of the armed timers of state.go can still act, and what firing one leaves.
use gpu_lease.Common.{ℕ, zero, suc, ◌<◌, ◌≡◌, refl, ◌⊎◌, inl, inr, none, some, List, [], ◌∷◌, arith}
use gpu_lease.Machine.{Timer, TimerKind}
use gpu_lease.Machine.System.{timer_at, without}

-- Timers of earlier generations.
abbrev pub Stale : ℕ → List Timer → Type 0
Stale g [] = Unit
Stale g (t ∷ ts) = (t.gen < g) × Stale g ts

-- One timer of the kind and the generation, among timers of earlier generations.
abbrev pub OneLive : TimerKind → ℕ → List Timer → Type 0
OneLive k g [] = ⊥
OneLive k g (t ∷ ts) = ((t.gen ≡ g) × (t.kind ≡ k) × Stale g ts) ⊎ ((t.gen < g) × OneLive k g ts)

pub Stale-next : (g : ℕ) (ts : List Timer) → Stale g ts → Stale (suc g) ts
Stale-next g [] h = tt
Stale-next g (t ∷ ts) h = (omega arith, Stale-next g ts h.1)

pub OneLive-next : (k : TimerKind) (g : ℕ) (ts : List Timer) → OneLive k g ts → Stale (suc g) ts
OneLive-next k g [] h = absurd h
OneLive-next k g (t ∷ ts) (inl h) = (omega arith, Stale-next g ts h.2)
OneLive-next k g (t ∷ ts) (inr h) = (omega arith, OneLive-next k g ts h.1)

-- Which timer fires, and what stays.
pub Stale-fires :
    (g k : ℕ) (ts : List Timer)
    → Stale g ts
    → Stale g (without k ts)
      × ((timer_at k ts ≡ none) ⊎ ((t : Timer) × (timer_at k ts ≡ some t) × (t.gen < g)))
unfolding timer_at without
Stale-fires g k [] h = (tt, inl refl)
Stale-fires g zero (t ∷ ts) h = (h.1, inr (t, refl, h.0))
Stale-fires g (suc k) (t ∷ ts) h = let rest = Stale-fires g k ts h.1 in ((h.0, rest.0), rest.1)

-- The three things that the firing of a timer can be, where one timer is live.
pub data Fires (kind : TimerKind) (g k : ℕ) (ts : List Timer) : Type 0 where
  nothing : timer_at k ts ≡ none → OneLive kind g (without k ts) → Fires kind g k ts
  live :
      (t : Timer)
      → timer_at k ts ≡ some t
      → t.gen ≡ g
      → t.kind ≡ kind
      → Stale g (without k ts)
      → Fires kind g k ts
  old :
      (t : Timer)
      → timer_at k ts ≡ some t
      → t.gen < g
      → OneLive kind g (without k ts)
      → Fires kind g k ts

-- A live timer in front stays, whatever fires behind it.
behind_live :
    (kind : TimerKind) (g k : ℕ) (t : Timer) (ts : List Timer)
    → t.gen ≡ g
    → t.kind ≡ kind
    → Stale g (without k ts)
    → (timer_at k ts ≡ none) ⊎ ((u : Timer) × (timer_at k ts ≡ some u) × (u.gen < g))
    → Fires kind g (suc k) (t ∷ ts)
unfolding timer_at without
behind_live kind g k t ts e e' s (inl h) = nothing h (inl (e, e', s))
behind_live kind g k t ts e e' s (inr h) = old h.0 h.1 h.2 (inl (e, e', s))

-- So does a stale one.
behind_old :
    (kind : TimerKind) (g k : ℕ) (t : Timer) (ts : List Timer)
    → t.gen < g
    → Fires kind g k ts
    → Fires kind g (suc k) (t ∷ ts)
unfolding timer_at without
behind_old kind g k t ts l (nothing h o) = nothing h (inr (l, o))
behind_old kind g k t ts l (live u h e e' s) = live u h e e' (l, s)
behind_old kind g k t ts l (old u h lt o) = old u h lt (inr (l, o))

pub OneLive-Fires :
    (kind : TimerKind) (g k : ℕ) (ts : List Timer) → OneLive kind g ts → Fires kind g k ts
unfolding timer_at without
OneLive-Fires kind g k [] h = absurd h
OneLive-Fires kind g zero (t ∷ ts) (inl h) = live t refl h.0 h.1 h.2
OneLive-Fires kind g zero (t ∷ ts) (inr h) = old t refl h.0 h.1
OneLive-Fires kind g (suc k) (t ∷ ts) (inl h) =
    let rest = Stale-fires g k ts h.2 in behind_live kind g k t ts h.0 h.1 rest.0 rest.1
OneLive-Fires kind g (suc k) (t ∷ ts) (inr h) =
    behind_old kind g k t ts h.0 (OneLive-Fires kind g k ts h.1)
