-- ===== src/Exec/Known.antt =====
-- Code whose first answer is known, whatever the state, and code that is certain to end without an
-- error after a call.
use gpu_lease.Common.{◌≡◌, refl, ap}
use gpu_lease.Exec.{Result, ok, Call, State, Exec, perform, read, try, ◌>>=◌}
use gpu_lease.Exec.Succeeds.{Succeeds}
use gpu_lease.Exec.Makes.{Grows, Makes}

-- `m` ends with the value.
pub record Known {W A : Type 0} (m : Exec W A) (a : A) : Type 0 where
  pub known : (s : State W) → (m s).0 ≡ ok a

-- `m` ends without an error, and a call that satisfies `P` has been made then, and succeeded.
pub record Advances {W A : Type 0} (P : Call → Type 0) (m : Exec W A) : Type 0 where
  pub succeeds : Succeeds m
  pub makes : Makes P m

module _ {W A : Type 0} where
  pub Known-read : (f : W → Result A × W) (a : A) → ((w : W) → (f w).0 ≡ ok a) → Known (read f) a
  unfolding read
  Known-read f a h = record { known = λ s. h s.world }

  pub Known-perform :
      (c : Call) (f : W → Result A × W) (a : A) → ((w : W) → (f w).0 ≡ ok a) → Known (perform c f) a
  unfolding perform
  Known-perform c f a h = record { known = λ s. h s.world }

  pub Known-try : (m : Exec W A) (a : A) → Known m a → Known (try m) (ok a)
  unfolding try
  Known-try m a h = record { known = λ s. ap (λ (r : Result A). ok r) (h.known s) }

  pub Succeeds-read :
      (f : W → Result A × W) → ((w : W) → (a : A) × (f w).0 ≡ ok a) → Succeeds (read f)
  unfolding read
  Succeeds-read f h = record { runs = λ s. h s.world }

module _ {W A B : Type 0} (m : Exec W A) (a : A) (f : A → Exec W B) where
  pub Succeeds-Known : Known m a → Succeeds (f a) → Succeeds (m >>= f)
  unfolding ◌>>=◌
  Succeeds-Known h g = record { runs = λ s. rw (h.known s) (g.runs (m s).1) }

  pub Makes-Known : {P : Call → Type 0} → Known m a → Makes P (f a) → Makes P (m >>= f)
  unfolding ◌>>=◌
  Makes-Known h g = record {
    made = λ s b e. rw (h.known s) (g.made (m s).1 b (rw (h.known s) at e));
  }

  pub Advances-Known : {P : Call → Type 0} → Known m a → Advances P (f a) → Advances P (m >>= f)
  Advances-Known h g = record {
    succeeds = Succeeds-Known h g.succeeds;
    makes = Makes-Known h g.makes;
  }

module _ {W A B : Type 0} where
  -- a result that is kept over code that may fail
  pub Advances-over :
      {P : Call → Type 0} (m : Exec W A) (n : Exec W B) (give : Result A → Exec W A)
      → Advances P m
      → Grows n
      → ((a : A) (s : State W) → give (ok a) s ≡ (ok a, s))
      → Advances P (try m >>= λ r. try n >>= λ _. give r)
  unfolding try ◌>>=◌
  Advances-over m n give v g kept = record {
    succeeds = record {
      runs = λ s. let (a, e) = v.succeeds.runs s in (a, rw (e, kept a (n (m s).1).1) refl);
    };
    makes = record {
      made = λ s a e.
          let (b, eb) = v.succeeds.runs s in
          let (x, i, p, o) = v.makes.made s b eb in
          (x, rw (eb, kept b (n (m s).1).1) (g.keeps (m s).1 x i), p, o);
    };
  }
