-- ===== src/Decimal/RoundTrip.antt =====
-- A number that is printed is read back.
use Prim.Native.Char.{code}
use Prim.Native.String.{[], ◌∷◌}
use text.Mathlib.TextLemmas.{head-eq_of_cons-eq}
use gpu_lease.Common.{
  ℕ, zero, suc, ◌+◌, ◌-◌, ◌*◌, ◌/◌, ◌%◌, ◌^◌, ◌<◌, ◌≡◌, refl, String, some, ltb, arith, ℤ, pos,
  negsuc, Bool-cases, inl, inr, ap, sym, ◌∙◌, ◌≢◌, ◌<ℤ◌, ◌≤ℤ◌,
}
use gpu_lease.Decimal.{digit, emit, format_nat, format_int, scan, parse_nat, parse_int32}

pub code-digit : (n : ℕ) → n < 10 → code (digit n) ≡ 48 + n
unfolding digit
code-digit zero h = refl
code-digit (suc zero) h = refl
code-digit (suc (suc zero)) h = refl
code-digit (suc (suc (suc zero))) h = refl
code-digit (suc (suc (suc (suc zero)))) h = refl
code-digit (suc (suc (suc (suc (suc zero))))) h = refl
code-digit (suc (suc (suc (suc (suc (suc zero)))))) h = refl
code-digit (suc (suc (suc (suc (suc (suc (suc zero))))))) h = refl
code-digit (suc (suc (suc (suc (suc (suc (suc (suc zero)))))))) h = refl
code-digit (suc (suc (suc (suc (suc (suc (suc (suc (suc zero))))))))) h = refl
code-digit (suc (suc (suc (suc (suc (suc (suc (suc (suc (suc n)))))))))) h = absurd (omega arith)

-- One digit extends the number that is read before it.
scan-digit : (acc n : ℕ) (s : String) → n < 10 → scan acc (digit n ∷ s) ≡ scan (acc * 10 + n) s
unfolding scan
scan-digit acc n s h = ground (arith, code-digit n)

scan-emit : (f n : ℕ) (out : String) → n < f → scan 0 (emit f n out) ≡ scan n out
unfolding emit
scan-emit zero n out h = absurd (omega arith)
scan-emit (suc f) n out h = ground (
  arith,
  scan-digit 0 n out,
  scan-emit f (n / 10) (digit (n % 10) ∷ out),
  scan-digit (n / 10) (n % 10) out,
)

scan-format_nat : (n : ℕ) → scan 0 (format_nat n) ≡ some n
unfolding format_nat scan
scan-format_nat n = scan-emit (suc n) n [] (omega arith)

-- Two numbers with the same decimal text are the same number.
pub format_nat-injective : (m n : ℕ) → format_nat m ≡ format_nat n → m ≡ n
format_nat-injective m n h = ground (arith, scan-format_nat m, scan-format_nat n)

-- The text of a number begins with a digit.
emit-head :
    (f n : ℕ) (out : String)
    → (d : ℕ) × (rest : String) × (d < 10) × (emit (suc f) n out ≡ digit d ∷ rest)
unfolding emit
emit-head zero n out = elim (Bool-cases (ltb n 10)) [
  | inl small ↦ (n, out, ground arith, rw small)
  | inr large ↦ (n % 10, out, omega arith, rw large)
]
emit-head (suc f) n out = elim (Bool-cases (ltb n 10)) [
  | inl small ↦ (n, out, ground arith, rw small)
  | inr large ↦ rw large (emit-head f (n / 10) (digit (n % 10) ∷ out))
]

parse_nat_of_scan : (s : String) (n : ℕ) → s ≢ [] → scan 0 s ≡ some n → parse_nat s ≡ some n
unfolding parse_nat
parse_nat_of_scan [] n h e = absurd (h refl)
parse_nat_of_scan (c ∷ s) n h e = e

pub format_nat-head :
    (n : ℕ) → (d : ℕ) × (rest : String) × (d < 10) × (format_nat n ≡ digit d ∷ rest)
unfolding format_nat
format_nat-head n = emit-head n n []

format_nat-ne-nil : (n : ℕ) → format_nat n ≢ []
format_nat-ne-nil n h = let (d, rest, small, e) = format_nat-head n in cc

parse_nat-format_nat : (n : ℕ) → parse_nat (format_nat n) ≡ some n
parse_nat-format_nat n =
    parse_nat_of_scan (format_nat n) n (format_nat-ne-nil n) (scan-format_nat n)

parse_int32-digit :
    (s rest : String) (d n : ℕ)
    → d < 10
    → s ≡ digit d ∷ rest
    → parse_nat s ≡ some n
    → n < 2 ^ 31
    → parse_int32 s ≡ some (pos n)
unfolding parse_int32
parse_int32-digit [] rest d n h e p b = ground arith
parse_int32-digit (c ∷ s) rest d n h e p b = ground (arith, code-digit d)

-- An integer in the range of an int32 is read back from its text.
pub parse_int32-format_int :
    (i : ℤ) → i <ℤ pos (2 ^ 31) → negsuc (2 ^ 31 - 1) ≤ℤ i → parse_int32 (format_int i) ≡ some i
unfolding format_int parse_int32
parse_int32-format_int (pos n) h k =
    let (d, rest, small, e) = format_nat-head n in
    parse_int32-digit (format_nat n) rest d n small e (parse_nat-format_nat n) (omega arith)
parse_int32-format_int (negsuc n) h k = rw (parse_nat-format_nat (suc n)) (ground arith)

-- A text that begins with a digit is not a negative number's.
format_nat-ne-minus : (n : ℕ) (s : String) → format_nat n ≢ "-" ∷ s
format_nat-ne-minus n s h =
    let (d, rest, small, e) = format_nat-head n in
    absurd (omega (arith, code-digit d small, ap code (head-eq_of_cons-eq (sym e ∙ h))))

-- Two integers with the same text are the same integer.
pub format_int-injective : (i j : ℤ) → format_int i ≡ format_int j → i ≡ j
unfolding format_int
format_int-injective (pos m) (pos n) h = ap pos (format_nat-injective m n h)
format_int-injective (pos m) (negsuc n) h = absurd (format_nat-ne-minus m _ h)
format_int-injective (negsuc m) (pos n) h = absurd (format_nat-ne-minus n _ (sym h))
format_int-injective (negsuc m) (negsuc n) h = ground (arith, format_nat-injective (suc m) (suc n))
