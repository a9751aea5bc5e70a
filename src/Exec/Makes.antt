-- ===== src/Exec/Makes.antt =====
-- Calls that code is certain to have made when it ends without an error.
use gpu_lease.Common.{◌≡◌, refl, Bool, true, false, none, if◌then◌else◌, In, inl, inr, ap, arith}
use gpu_lease.Exec.{
  Error, Result, ok, err, Call, Entry, State, Exec, pure, raise, read, perform, try, ◌>>=◌, note,
  continue, error_of,
}
use gpu_lease.Exec.Keeps.{Yields}

-- `m` keeps every entry of the trace.
pub record Grows {W A : Type 0} (m : Exec W A) : Type 0 where
  pub keeps : (s : State W) (e : Entry) → In e s.trace → In e (m s).1.trace

-- Where `m` ends without an error, a call that satisfies `P` has been made, and succeeded.
pub record Makes {W A : Type 0} (P : Call → Type 0) (m : Exec W A) : Type 0 where
  pub made :
      (s : State W) (a : A)
      → (m s).0 ≡ ok a
      → (e : Entry) × In e (m s).1.trace × P e.call × e.error ≡ none

module _ {W A : Type 0} where
  pub Grows-pure : (a : A) → Grows {W = W} (pure a)
  unfolding pure
  Grows-pure a = record { keeps = λ s e h. h }

  pub Grows-raise : (e : Error) → Grows {W = W} {A = A} (raise e)
  unfolding raise
  Grows-raise e = record { keeps = λ s e h. h }

  pub Grows-read : (f : W → Result A × W) → Grows (read f)
  unfolding read
  Grows-read f = record { keeps = λ s e h. h }

  pub Grows-perform : (c : Call) (f : W → Result A × W) → Grows (perform c f)
  unfolding perform
  Grows-perform c f = record { keeps = λ s e h. inr h }

  pub Grows-try : (m : Exec W A) → Grows m → Grows (try m)
  unfolding try
  Grows-try m g = record { keeps = λ s e h. g.keeps s e h }

  pub Grows-if : (b : Bool) (m n : Exec W A) → Grows m → Grows n → Grows (if b then m else n)
  Grows-if true m n gm gn = gm
  Grows-if false m n gm gn = gn

  pub Makes-perform :
      {P : Call → Type 0} (c : Call) (f : W → Result A × W) → P c → Makes P (perform c f)
  unfolding perform
  Makes-perform c f p = record {
    made =
        λ s a h. (record { call = c; error = error_of (f s.world).0 }, inl refl, p, ap error_of h);
  }

pub Grows-note : {W : Type 0} (c : Call) → Grows {W = W} (note c)
unfolding note
Grows-note c = record { keeps = λ s e h. inr h }

pub Makes-note : {W : Type 0} {P : Call → Type 0} (c : Call) → P c → Makes {W = W} P (note c)
unfolding note
Makes-note c p = record { made = λ s a h. (record { call = c; error = none }, inl refl, p, refl) }

module _ {W A B : Type 0} where
  continue-Grows :
      (r : Result A) (f : A → Exec W B) (s : State W) (e : Entry)
      → ((a : A) → Grows (f a))
      → In e s.trace
      → In e (continue r f s).1.trace
  continue-Grows (ok a) f s e g h = (g a).keeps s e h
  continue-Grows (err x) f s e g h = h

  pub Grows-bind :
      (m : Exec W A) (f : A → Exec W B) → Grows m → ((a : A) → Grows (f a)) → Grows (m >>= f)
  unfolding ◌>>=◌
  Grows-bind m f gm gf = record {
    keeps = λ s e h. continue-Grows (m s).0 f (m s).1 e gf (gm.keeps s e h);
  }

  -- A result of a bind comes from its two parts.
  continue-ok :
      (r : Result A) (f : A → Exec W B) (s : State W) (b : B)
      → (continue r f s).0 ≡ ok b
      → (a : A) × (r ≡ ok a) × (f a s).0 ≡ ok b × (continue r f s).1 ≡ (f a s).1
  continue-ok (ok a) f s b h = (a, refl, h, refl)
  continue-ok (err e) f s b h = grind arith

  pub Makes-left :
      {P : Call → Type 0} (m : Exec W A) (f : A → Exec W B)
      → Makes P m
      → ((a : A) → Grows (f a))
      → Makes P (m >>= f)
  unfolding ◌>>=◌
  Makes-left m f hm gf = record {
    made = λ s b h.
        let (a, e, _, _) = continue-ok (m s).0 f (m s).1 b h in
        let (c, i, p, n) = hm.made s a e in (c, continue-Grows (m s).0 f (m s).1 c gf i, p, n);
  }

  pub Makes-right :
      {P : Call → Type 0} (m : Exec W A) (f : A → Exec W B)
      → ((a : A) → Makes P (f a))
      → Makes P (m >>= f)
  unfolding ◌>>=◌
  Makes-right m f hf = record {
    made = λ s b h.
        let (a, _, e, t) = continue-ok (m s).0 f (m s).1 b h in rw t ((hf a).made (m s).1 b e);
  }

  -- A bind whose second part relies on the value of the first.
  pub Makes-then :
      {P : Call → Type 0} {Q : A → Type 0} (m : Exec W A) (f : A → Exec W B)
      → Yields (λ s. Unit {0}) Q m
      → ((a : A) → Q a → Makes P (f a))
      → Makes P (m >>= f)
  unfolding ◌>>=◌
  Makes-then m f y hf = record {
    made = λ s b h.
        let (a, i, e, t) = continue-ok (m s).0 f (m s).1 b h in
        rw t ((hf a (y.yields s a tt i)).made (m s).1 b e);
  }

pub ruleset grows_rules = (
  Grows-pure, Grows-raise, Grows-read, Grows-perform, Grows-try, Grows-if, Grows-note, Grows-bind,
)
