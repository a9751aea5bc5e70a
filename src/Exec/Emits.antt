-- ===== src/Exec/Emits.antt =====
-- The calls that code makes.
use gpu_lease.Common.{◌∷◌}
use gpu_lease.Exec.{Call, Entry, Trace, State, Exec}
use gpu_lease.Exec.Keeps.{Keeps}

-- `Extends P old t`: the trace `t` is `old` and newer calls, all of which satisfy `P`.
pub data Extends (P : Call → Type 0) (old : Trace) : Trace → Type 0 where
  same : Extends P old old
  made : {e : Entry} {t : Trace} → P e.call → Extends P old t → Extends P old (e ∷ t)

Extends-trans : {P : Call → Type 0} {a b c : Trace} → Extends P a b → Extends P b c → Extends P a c
Extends-trans h same = h
Extends-trans h (made p k) = made p (Extends-trans h k)

-- Whatever the world answers, every call that `m` makes satisfies `P`, if it succeeds and if it
-- fails.
pub record Emits {W A : Type 0} (P : Call → Type 0) (m : Exec W A) : Type 0 where
  pub at : (s : State W) → Extends P s.trace (m s).1.trace

module _ {W A : Type 0} {P : Call → Type 0} where
  -- It is enough that `m` keeps a trace a newer one of any older trace.
  pub Emits-Keeps :
      (m : Exec W A) → ((old : Trace) → Keeps (λ s. Extends P old s.trace) m) → Emits P m
  Emits-Keeps m h = record { at = λ s. (h s.trace).keeps s same }

  pub Keeps-Emits : (m : Exec W A) (old : Trace) → Emits P m → Keeps (λ s. Extends P old s.trace) m
  Keeps-Emits m old h = record { keeps = λ s e. Extends-trans e (h.at s) }
