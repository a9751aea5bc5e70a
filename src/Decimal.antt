-- ===== src/Decimal.antt =====
-- The calls of Go's fmt and strconv that the program makes on integers: "%d", FormatInt(n, 10) and
-- ParseInt(s, 10, 32), as the standard library documents them.
pub mod RoundTrip
pub mod Range
use Prim.Native.Char.{Char, code}
use Prim.Native.String.{[], ◌∷◌}
use gpu_lease.Common.{
  ℕ, zero, suc, ◌+◌, ◌-◌, ◌*◌, ◌/◌, ◌%◌, ◌^◌, String, Bool, Option, none, some, ◌||◌, ltb, ◌==◌, ℤ,
  pos, negsuc, if◌then◌else◌,
}

unfoldable pub digit : ℕ → Char
digit n =
    if n == 0
    then "0"
    else if n == 1
    then "1"
    else if n == 2
    then "2"
    else if n == 3
    then "3"
    else if n == 4
    then "4"
    else if n == 5
    then "5"
    else if n == 6
    then "6"
    else if n == 7
    then "7"
    else if n == 8
    then "8"
    else "9"

-- The digits of `n`, in front of `out`. The fuel bounds the number of digits.
unfoldable pub emit : ℕ → ℕ → String → String
unfolding digit
emit zero n out = out
emit (suc f) n out =
    let front = emit f (n / 10) (digit (n % 10) ∷ out) in if ltb n 10 then digit n ∷ out else front

-- "%d" of a number that is not negative.
unfoldable pub format_nat : ℕ → String
unfolding emit
format_nat n = emit (suc n) n []

-- "%d", and strconv.FormatInt(n, 10).
unfoldable pub format_int : ℤ → String
unfolding format_nat
format_int (pos n) = format_nat n
format_int (negsuc n) = "-" ∷ format_nat (suc n)

-- The digits of a text, read after those of `acc`; `none` on any other character.
unfoldable pub scan : ℕ → String → Option ℕ
scan acc [] = some acc
scan acc (c ∷ s) =
    if ltb (code c) b'0' || ltb b'9' (code c) then none else scan (acc * 10 + (code c - b'0')) s

unfoldable pub parse_nat : String → Option ℕ
unfolding scan
parse_nat [] = none
parse_nat (c ∷ s) = scan 0 (c ∷ s)

unfoldable pub in_int32 : ℕ → Option ℕ → Option ℕ
in_int32 bound none = none
in_int32 bound (some n) = if ltb bound n then none else some n

negate : Option ℕ → Option ℤ
negate none = none
negate (some zero) = some (pos 0)
negate (some (suc n)) = some (negsuc n)

positive : Option ℕ → Option ℤ
positive none = none
positive (some n) = some (pos n)

-- strconv.ParseInt(s, 10, 32): an optional sign and digits, in the range of an int32.
unfoldable pub parse_int32 : String → Option ℤ
unfolding parse_nat in_int32 negate positive
parse_int32 [] = none
parse_int32 (c ∷ s) =
    if code c == b'-'
    then negate (in_int32 (2 ^ 31) (parse_nat s))
    else if code c == b'+'
    then positive (in_int32 (2 ^ 31 - 1) (parse_nat s))
    else positive (in_int32 (2 ^ 31 - 1) (parse_nat (c ∷ s)))
