-- ===== src/Exec/Brings.antt =====
-- Code that brings the state from where `I` holds to where `J` holds.
use gpu_lease.Common.{◌≡◌, refl}
use gpu_lease.Exec.{Result, ok, State, Exec, try, ◌>>=◌}
use gpu_lease.Exec.Succeeds.{Succeeds}
use gpu_lease.Exec.Keeps.{Keeps}
use gpu_lease.Exec.Known.{Known}

-- From where `I` holds, `m` ends without an error, and where `J` holds.
pub record Brings {W A : Type 0} (I J : State W → Type 0) (m : Exec W A) : Type 0 where
  pub brings : (s : State W) → I s → (a : A) × ((m s).0 ≡ ok a) × J (m s).1

module _ {W A B : Type 0} {I J : State W → Type 0} (m : Exec W A) (f : A → Exec W B) where
  pub Brings-bind : Succeeds m → Keeps I m → ((a : A) → Brings I J (f a)) → Brings I J (m >>= f)
  unfolding ◌>>=◌
  Brings-bind h g b = record {
    brings = λ s i. let (a, e) = h.runs s in rw e ((b a).brings (m s).1 (g.keeps s i));
  }

  pub Brings-value :
      (a : A)
      → ((s : State W) → I s → (m s).0 ≡ ok a)
      → Keeps I m
      → Brings I J (f a)
      → Brings I J (m >>= f)
  unfolding ◌>>=◌
  Brings-value a h g b = record { brings = λ s i. rw (h s i) (b.brings (m s).1 (g.keeps s i)) }

  pub Brings-Known : (a : A) → Known m a → Keeps I m → Brings I J (f a) → Brings I J (m >>= f)
  Brings-Known a h g b = Brings-value a (λ s i. h.known s) g b

  -- what follows, once the state is there
  pub Brings-then :
      Brings I J m → ((a : A) → Succeeds (f a)) → ((a : A) → Keeps J (f a)) → Brings I J (m >>= f)
  unfolding ◌>>=◌
  Brings-then b h g = record {
    brings = λ s i.
        let (a, e, j) = b.brings s i in
        let (c, e') = (h a).runs (m s).1 in (c, rw e e', rw e ((g a).keeps (m s).1 j));
  }

module _ {W A B : Type 0} {I J : State W → Type 0} where
  -- a result that is kept over code that may fail
  pub Brings-over :
      (m : Exec W A) (n : Exec W B) (give : Result A → Exec W A)
      → Brings I J m
      → Keeps J n
      → ((a : A) (s : State W) → give (ok a) s ≡ (ok a, s))
      → Brings I J (try m >>= λ r. try n >>= λ _. give r)
  unfolding try ◌>>=◌
  Brings-over m n give b g kept = record {
    brings = λ s i.
        let (a, e, j) = b.brings s i in
        (a, rw (e, kept a (n (m s).1).1) refl, rw (e, kept a (n (m s).1).1) (g.keeps (m s).1 j));
  }
