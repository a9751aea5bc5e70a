-- ===== src/Names/Injective.antt =====
-- The name of a lease determines its node and its GPU: what makes the name a lock.
use Prim.Native.Char.{Char, code}
use Prim.Native.String.{[], ◌∷◌, ◌++◌}
use Prim.Native.String.append
use text.Mathlib.TextLemmas.{append_assoc, append_cancel_left, append_cancel_right}
use gpu_lease.Common.{
  ℕ, zero, suc, ◌/◌, ◌%◌, ◌≡◌, refl, sym, ap, ◌∙◌, String, Option, none, some, ◌==◌, arith, ℤ, pos,
  negsuc, if◌then◌else◌,
}
use gpu_lease.Decimal.{digit, emit, format_nat, format_int}
use gpu_lease.Decimal.RoundTrip.{code-digit, format_int-injective}
use gpu_lease.Names.{lease_name}

-- What stands behind the last "u" of a text.
after_last_u : String → Option String
after_last_u [] = none
after_last_u (c ∷ s) = elim (after_last_u s) [
  | some r ↦ some r
  | none ↦ if code c == b'u' then some s else none
]

after_last_u-append : (s t r : String) → after_last_u t ≡ some r → after_last_u (s ++ t) ≡ some r
unfolding after_last_u
after_last_u-append [] t r h = rw append.nil h
after_last_u-append (c ∷ s) t r h =
    rw (append.cons c s t, after_last_u-append s t r h, after_last_u)

-- Digits hold no "u".
after_last_u-emit :
    (f n : ℕ) (out : String) → after_last_u out ≡ none → after_last_u (emit f n out) ≡ none
unfolding after_last_u emit
after_last_u-emit zero n out h = h
after_last_u-emit (suc f) n out h =
    ground (
      arith,
      after_last_u-emit f (n / 10) (digit (n % 10) ∷ out),
      code-digit n,
      code-digit (n % 10),
    )

after_last_u-format_nat : (n : ℕ) → after_last_u (format_nat n) ≡ none
unfolding format_nat
after_last_u-format_nat n = after_last_u-emit (suc n) n [] (unfold after_last_u in refl)

after_last_u-format_int : (i : ℤ) → after_last_u (format_int i) ≡ none
unfolding format_int after_last_u
after_last_u-format_int (pos n) = after_last_u-format_nat n
after_last_u-format_int (negsuc n) = ground (arith, after_last_u-format_nat (suc n))

after_last_u-cons :
    (c : Char) (t : String)
    → after_last_u t ≡ none
    → after_last_u ((c ∷ []) ++ t) ≡ (if code c == b'u' then some t else none)
unfolding after_last_u
after_last_u-cons c t h = rw (append.cons c [] t, append.nil t, h, after_last_u) (rw (append.nil t))

after_last_u_separator :
    (t : String) → after_last_u t ≡ none → after_last_u ("-gpu-" ++ t) ≡ some ("-" ++ t)
after_last_u_separator t h = rw (append_assoc "-gp" "u-" t) (
    after_last_u-append "-gp" ("u-" ++ t) _
      (rw (append_assoc "u" "-" t) (after_last_u-cons "u" ("-" ++ t) (after_last_u-cons "-" t h))))

after_last_u-lease_name :
    (node : String) (i : ℤ) → after_last_u (lease_name node i) ≡ some ("-" ++ format_int i)
unfolding lease_name
after_last_u-lease_name node i =
    after_last_u-append node _ _ (after_last_u_separator _ (after_last_u-format_int i))

some-inj : {a b : String} → some a ≡ some b → a ≡ b
some-inj h = cc

-- Two leases with the same name are for the same node and the same GPU.
pub lease_name-injective :
    (node node' : String) (i i' : ℤ)
    → lease_name node i ≡ lease_name node' i'
    → (node ≡ node') × (i ≡ i')
unfolding lease_name
lease_name-injective node node' i i' h = (same_node, same_id)
  where
    same_tail : some ("-" ++ format_int i) ≡ some ("-" ++ format_int i')
    same_tail =
        sym (after_last_u-lease_name node i) ∙ ap after_last_u h ∙ after_last_u-lease_name node' i'

    same_id : i ≡ i'
    same_id = format_int-injective i i' (append_cancel_left "-" _ _ (some-inj same_tail))

    same_node : node ≡ node'
    same_node = append_cancel_right node node' _ (h ∙ ap (lease_name node') (sym same_id))
