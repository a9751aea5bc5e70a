-- ===== src/Decimal/Range.antt =====
-- What strconv.ParseInt gives with 32 bits is an int32.
use Prim.Native.String.{[], ◌∷◌}
use gpu_lease.Common.{
  ℕ, zero, suc, ◌^◌, ◌-◌, ◌≡◌, String, Option, none, some, ℤ, pos, negsuc, ◌≤ℤ◌, ◌<ℤ◌, arith,
}
use gpu_lease.Decimal.{parse_int32, parse_nat, in_int32, negate, positive}

abbrev pub IsInt32 : ℤ → Type 0
IsInt32 i = (negsuc (2 ^ 31 - 1) ≤ℤ i) × (i <ℤ pos (2 ^ 31))

negate-IsInt32 : (o : Option ℕ) (i : ℤ) → negate (in_int32 (2 ^ 31) o) ≡ some i → IsInt32 i
unfolding negate in_int32
negate-IsInt32 none i h = absurd (grind arith)
negate-IsInt32 (some zero) i h = ground arith
negate-IsInt32 (some (suc n)) i h = ground arith

positive-IsInt32 : (o : Option ℕ) (i : ℤ) → positive (in_int32 (2 ^ 31 - 1) o) ≡ some i → IsInt32 i
unfolding positive in_int32
positive-IsInt32 none i h = absurd (grind arith)
positive-IsInt32 (some n) i h = ground arith

pub parse_int32-IsInt32 : (s : String) (i : ℤ) → parse_int32 s ≡ some i → IsInt32 i
unfolding parse_int32
parse_int32-IsInt32 [] i h = absurd (grind arith)
parse_int32-IsInt32 (c ∷ s) i h = ground (
  arith,
  negate-IsInt32 (parse_nat s) i,
  positive-IsInt32 (parse_nat s) i,
  positive-IsInt32 (parse_nat (c ∷ s)) i,
)
