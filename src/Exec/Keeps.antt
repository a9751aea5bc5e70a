-- ===== src/Exec/Keeps.antt =====
-- Invariants of the state that code keeps: what the outside has stored and the calls that were made.
use gpu_lease.Common.{◌≡◌, refl, Bool, true, false, Option, none, ◌∷◌, if◌then◌else◌, arith, subst}
use gpu_lease.Exec.{
  Error, Result, ok, err, Call, State, Exec, pure, raise, read, perform, try, ◌>>=◌, note, continue,
}

pub ok-inj : {A : Type 0} → (a b : A) → ok a ≡ ok b → a ≡ b
ok-inj a b h = cc

-- Code that starts where `I` holds ends where it holds, if it succeeds and if it fails.
pub record Keeps {W A : Type 0} (I : State W → Type 0) (m : Exec W A) : Type 0 where
  pub keeps : (s : State W) → I s → I (m s).1

-- From where `I` holds, the value of the code satisfies `Q`.
pub record Yields {W A : Type 0} (I : State W → Type 0) (Q : A → Type 0) (m : Exec W A)
    : Type 0 where
  pub yields : (s : State W) (a : A) → I s → (m s).0 ≡ ok a → Q a

module _ {W A : Type 0} (I : State W → Type 0) where
  -- What `read`, `perform` and `note` ask of a call of the outside.
  abbrev pub OnRead : (W → Result A × W) → Type 0
  OnRead f = (s : State W) → I s → I (record s { world = (f s.world).1 })

  abbrev pub OnCall : Call → (W → Result A × W) → Type 0
  OnCall c f =
      (s : State W) (e : Option Error)
      → I s
      → I (record { world = (f s.world).1; trace = record { call = c; error = e } ∷ s.trace })

abbrev pub OnNote : {W : Type 0} → (State W → Type 0) → Call → Type 0
OnNote {W} I c =
    (s : State W) → I s → I (record s { trace = record { call = c; error = none } ∷ s.trace })

module _ {W A : Type 0} {I : State W → Type 0} where
  pub Keeps-pure : (a : A) → Keeps I (pure a)
  unfolding pure
  Keeps-pure a = record { keeps = λ s h. h }

  pub Keeps-raise : (e : Error) → Keeps {A = A} I (raise e)
  unfolding raise
  Keeps-raise e = record { keeps = λ s h. h }

  pub Keeps-read : (f : W → Result A × W) → OnRead I f → Keeps I (read f)
  unfolding read
  Keeps-read f h = record { keeps = h }

  pub Keeps-perform : (c : Call) (f : W → Result A × W) → OnCall I c f → Keeps I (perform c f)
  unfolding perform
  Keeps-perform c f h = record { keeps = λ s i. h s _ i }

  pub Keeps-try : (m : Exec W A) → Keeps I m → Keeps I (try m)
  unfolding try
  Keeps-try m k = record { keeps = λ s h. k.keeps s h }

  pub Keeps-if :
      (b : Bool) (m n : Exec W A)
      → (b ≡ true → Keeps I m)
      → (b ≡ false → Keeps I n)
      → Keeps I (if b then m else n)
  Keeps-if true m n km kn = km refl
  Keeps-if false m n km kn = kn refl

pub Keeps-note : {W : Type 0} {I : State W → Type 0} (c : Call) → OnNote I c → Keeps I (note c)
unfolding note
Keeps-note c h = record { keeps = h }

module _ {W A B : Type 0} {I : State W → Type 0} where
  continue-Keeps :
      (r : Result A) (f : A → Exec W B) (s : State W)
      → ((a : A) → r ≡ ok a → Keeps I (f a))
      → I s
      → I (continue r f s).1
  continue-Keeps (ok a) f s k h = (k a refl).keeps s h
  continue-Keeps (err e) f s k h = h

  pub Keeps-bind :
      (m : Exec W A) (f : A → Exec W B) → Keeps I m → ((a : A) → Keeps I (f a)) → Keeps I (m >>= f)
  unfolding ◌>>=◌
  Keeps-bind m f km kf = record {
    keeps = λ s h. continue-Keeps (m s).0 f (m s).1 (λ a e. kf a) (km.keeps s h);
  }

  -- A bind whose second part relies on the value of the first.
  pub Keeps-then :
      {Q : A → Type 0} (m : Exec W A) (f : A → Exec W B)
      → Keeps I m
      → Yields I Q m
      → ((a : A) → Q a → Keeps I (f a))
      → Keeps I (m >>= f)
  unfolding ◌>>=◌
  Keeps-then m f km ym kf = record {
    keeps =
        λ s h. continue-Keeps (m s).0 f (m s).1 (λ a e. kf a (ym.yields s a h e)) (km.keeps s h);
  }

module _ {W A B : Type 0} (Q : B → Type 0) where
  continue-Yields :
      (r : Result A) (f : A → B) (s : State W) (b : B)
      → ((a : A) → r ≡ ok a → Q (f a))
      → (continue r (λ a. pure (f a)) s).0 ≡ ok b
      → Q b
  unfolding pure
  continue-Yields (ok a) f s b h e = subst Q (ok-inj (f a) b e) (h a refl)
  continue-Yields (err x) f s b h e = absurd (grind arith)

  -- The value of a code, mapped.
  pub Yields-map :
      {I : State W → Type 0} {P : A → Type 0}
      → (m : Exec W A) (f : A → B) → Yields I P m
      → ((a : A) → P a → Q (f a))
      → Yields I Q (m >>= λ a. pure (f a))
  unfolding ◌>>=◌
  Yields-map m f y h = record {
    yields = λ s b i e. continue-Yields (m s).0 f (m s).1 b (λ a e'. h a (y.yields s a i e')) e;
  }

module _ {W A : Type 0} {I : State W → Type 0} {Q : A → Type 0} where
  pub Yields-pure : (a : A) → Q a → Yields I Q (pure a)
  unfolding pure
  Yields-pure a q = record { yields = λ s b i e. subst Q (ok-inj a b e) q }

  pub Yields-if :
      (b : Bool) (m n : Exec W A)
      → (b ≡ true → Yields I Q m)
      → (b ≡ false → Yields I Q n)
      → Yields I Q (if b then m else n)
  Yields-if true m n hm hn = hm refl
  Yields-if false m n hm hn = hn refl

pub ruleset keeps_rules = (Keeps-pure, Keeps-raise, Keeps-try, Keeps-if, Keeps-bind)
