-- ===== src/WarmPool/Decision/Bound/Rules.antt =====
-- The promotions that code of warmpool_controller.go counts, one rule for each way to build code.
use gpu_lease.Common.{
  ℕ, ◌+◌, ◌≡◌, refl, ◌≤◌, Bool, true, false, [], ◌∷◌, if◌then◌else◌, arith, subst,
}
use gpu_lease.Exec.{Exec, Error, Result, ok, err, State, pure, raise, ◌>>=◌, continue}
use gpu_lease.Exec.{Trace, Call, count_promotion, note}
use gpu_lease.Exec.Emits.{Emits, Extends, same, made}

-- Where `m` ends without an error, its value satisfies `Q`.
pub record Returns {W A : Type 0} (Q : A → Type 0) (m : Exec W A) : Type 0 where
  pub value : (s : State W) (a : A) → (m s).0 ≡ ok a → Q a

ok-inj : {A : Type 0} → (a b : A) → ok a ≡ ok b → a ≡ b
ok-inj a b h = cc

module _ {W A : Type 0} {Q : A → Type 0} where
  pub Returns-pure : (a : A) → Q a → Returns {W = W} Q (pure a)
  unfolding pure
  Returns-pure a q = record { value = λ s b e. subst Q (ok-inj a b e) q }

  Returns-raise : (e : Error) → Returns {W = W} Q (raise e)
  unfolding raise
  Returns-raise e = record { value = λ s b h. absurd (grind arith) }

  pub Returns-if :
      (b : Bool) (m n : Exec W A)
      → (b ≡ true → Returns Q m)
      → (b ≡ false → Returns Q n)
      → Returns Q (if b then m else n)
  Returns-if true m n hm hn = hm refl
  Returns-if false m n hm hn = hn refl

module _ {W A B : Type 0} {Q : B → Type 0} where
  continue-Returns :
      (r : Result A) (f : A → Exec W B) (s : State W) (b : B)
      → ((a : A) → Returns Q (f a))
      → (continue r f s).0 ≡ ok b
      → Q b
  continue-Returns (ok a) f s b h e = (h a).value s b e
  continue-Returns (err x) f s b h e = absurd (grind arith)

  pub Returns-bind :
      (m : Exec W A) (f : A → Exec W B) → ((a : A) → Returns Q (f a)) → Returns Q (m >>= f)
  unfolding ◌>>=◌
  Returns-bind m f h = record { value = λ s b e. continue-Returns (m s).0 f (m s).1 b h e }

-- The promotions that a trace counts.
unfoldable pub is_promotion : Call → Bool
is_promotion count_promotion = true
is_promotion c = false

unfoldable pub promotions : Trace → ℕ
unfolding is_promotion
promotions [] = 0
promotions (e ∷ t) = if is_promotion e.call then promotions t + 1 else promotions t

abbrev pub NotPromotion : Call → Type 0
NotPromotion count_promotion = ⊥
NotPromotion c = Unit

is_promotion-NotPromotion : (c : Call) → NotPromotion c → is_promotion c ≡ false
unfolding is_promotion
is_promotion-NotPromotion count_promotion h = absurd h
is_promotion-NotPromotion _ h = refl

promotions-Extends : {old t : Trace} → Extends NotPromotion old t → promotions t ≡ promotions old
unfolding promotions
promotions-Extends same = refl
promotions-Extends (made {e} {t} p k) =
    rw (is_promotion-NotPromotion e.call p) (promotions-Extends k)

-- Where `m` ends without an error, `start` and the promotions that it counts make its value, which
-- is at most `need`.
pub record Promotes {W : Type 0} (need start : ℕ) (m : Exec W ℕ) : Type 0 where
  pub counts :
      (s : State W) (a : ℕ)
      → (m s).0 ≡ ok a
      → (promotions (m s).1.trace + start ≡ promotions s.trace + a) × a ≤ need

module _ {W : Type 0} (need start : ℕ) where
  pub Promotes-pure : start ≤ need → Promotes {W = W} need start (pure start)
  unfolding pure
  Promotes-pure b = record {
    counts = λ s a e. (omega (arith, ok-inj start a e), omega (arith, b, ok-inj start a e));
  }

  pub Promotes-raise : (x : Error) → Promotes {W = W} need start (raise x)
  unfolding raise
  Promotes-raise x = record { counts = λ s a e. absurd (grind arith) }

  pub Promotes-count :
      (m : Exec W ℕ)
      → Promotes need (start + 1) m
      → Promotes need start (note count_promotion >>= λ u. m)
  unfolding note ◌>>=◌ promotions
  Promotes-count m h = record {
    counts = λ s a e. let (c, b) = h.counts _ a e in (omega (arith, c), b);
  }

  pub Promotes-if :
      (b : Bool) (m n : Exec W ℕ)
      → (b ≡ true → Promotes need start m)
      → (b ≡ false → Promotes need start n)
      → Promotes need start (if b then m else n)
  Promotes-if true m n hm hn = hm refl
  Promotes-if false m n hm hn = hn refl

module _ {W A : Type 0} (need start : ℕ) where
  continue-Promotes :
      (r : Result A) (f : A → Exec W ℕ) (s : State W) (b : ℕ)
      → ((a : A) → Promotes need start (f a))
      → (continue r f s).0 ≡ ok b
      → (promotions (continue r f s).1.trace + start ≡ promotions s.trace + b) × b ≤ need
  continue-Promotes (ok a) f s b h e = (h a).counts s b e
  continue-Promotes (err x) f s b h e = absurd (grind arith)

  pub Promotes-bind :
      (m : Exec W A) (f : A → Exec W ℕ)
      → Emits NotPromotion m
      → ((a : A) → Promotes need start (f a))
      → Promotes need start (m >>= f)
  unfolding ◌>>=◌
  Promotes-bind m f q h = record {
    counts = λ s b e.
        let (c, l) = continue-Promotes (m s).0 f (m s).1 b h e in
        (omega (arith, c, promotions-Extends (q.at s)), l);
  }

module _ {W : Type 0} (need start : ℕ) where
  continue-reports :
      (r : Result ℕ) (f : ℕ → Exec W ℕ) (s : State W) (b before : ℕ)
      → ((a : ℕ) → r ≡ ok a → (promotions s.trace + start ≡ before + a) × a ≤ need)
      → ((a : ℕ) → Emits NotPromotion (f a))
      → ((a : ℕ) → Returns (λ c. c ≡ a) (f a))
      → (continue r f s).0 ≡ ok b
      → (promotions (continue r f s).1.trace + start ≡ before + b) × b ≤ need
  continue-reports (ok a) f s b before h q v e =
      let (c, l) = h a refl in
      let k = (v a).value s b e in
      (omega (arith, c, k, promotions-Extends ((q a).at s)), omega (arith, l, k))
  continue-reports (err x) f s b before h q v e = absurd (grind arith)

  pub Promotes-then :
      (m : Exec W ℕ) (f : ℕ → Exec W ℕ)
      → Promotes need start m
      → ((a : ℕ) → Emits NotPromotion (f a))
      → ((a : ℕ) → Returns (λ c. c ≡ a) (f a))
      → Promotes need start (m >>= f)
  unfolding ◌>>=◌
  Promotes-then m f h q v = record {
    counts = λ s b e. continue-reports (m s).0 f (m s).1 b (promotions s.trace) (h.counts s) q v e;
  }
