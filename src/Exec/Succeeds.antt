-- ===== src/Exec/Succeeds.antt =====
-- Code that never fails, with one rule for each way to build code.
use gpu_lease.Common.{◌≡◌, refl, Bool, true, false, if◌then◌else◌}
use gpu_lease.Exec.{Result, ok, Call, State, Exec, pure, perform, try, ◌>>=◌, note}

-- Whatever the state, `m` ends without an error.
pub record Succeeds {W A : Type 0} (m : Exec W A) : Type 0 where
  pub runs : (s : State W) → (a : A) × (m s).0 ≡ ok a

-- A call to the outside that never fails.
pub record Answers {W A : Type 0} (f : W → Result A × W) : Type 0 where
  pub answer : (w : W) → (a : A) × (f w).0 ≡ ok a

module _ {W A : Type 0} where
  pub Succeeds-pure : (a : A) → Succeeds {W = W} (pure a)
  unfolding pure
  Succeeds-pure a = record { runs = λ s. (a, refl) }

  pub Succeeds-perform : (c : Call) (f : W → Result A × W) → Answers f → Succeeds (perform c f)
  unfolding perform
  Succeeds-perform c f h = record { runs = λ s. h.answer s.world }

  pub Succeeds-try : (m : Exec W A) → Succeeds (try m)
  unfolding try
  Succeeds-try m = record { runs = λ s. ((m s).0, refl) }

  pub Succeeds-if :
      (b : Bool) (m n : Exec W A) → Succeeds m → Succeeds n → Succeeds (if b then m else n)
  Succeeds-if true m n hm hn = hm
  Succeeds-if false m n hm hn = hn

pub Succeeds-note : {W : Type 0} (c : Call) → Succeeds {W = W} (note c)
unfolding note
Succeeds-note c = record { runs = λ s. (tt, refl) }

module _ {W A B : Type 0} where
  pub Succeeds-bind :
      (m : Exec W A) (f : A → Exec W B)
      → Succeeds m
      → ((a : A) → Succeeds (f a))
      → Succeeds (m >>= f)
  unfolding ◌>>=◌
  Succeeds-bind m f hm hf = record {
    runs = λ s. let (a, e) = hm.runs s in rw e ((hf a).runs (m s).1);
  }

pub ruleset succeeds_rules =
    (Succeeds-pure, Succeeds-perform, Succeeds-try, Succeeds-if, Succeeds-note, Succeeds-bind)
