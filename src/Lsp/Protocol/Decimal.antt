-- ===== src/Lsp/Protocol/Decimal.antt =====
-- int() of the bytes of str(n) is n (apiverity/lsp/protocol.py).
use api_verity_lab.Common.{
  ℕ, zero, suc, ◌+◌, ◌-◌, ◌*◌, ◌/◌, ◌%◌, ◌<◌, true, some, [], ◌∷◌, ◌++◌, ◌≡◌, refl, ap, ◌∙◌, arith,
  All, All-snoc, nat_ord, ltb, length, length-append, Bool-cases, inl, inr,
}
use api_verity_lab.Lsp.Protocol.{Bytes, is_digit, digits, decimal_digits, decimal, parse_length}

abbrev pub AllDigits : Bytes → Type 0
AllDigits = All (λ b. is_digit b ≡ true)

value : ℕ → Bytes → ℕ
value n [] = n
value n (b ∷ bs) = value (n * 10 + (b - 48)) bs

digits-value : (n : ℕ) (bs : Bytes) → AllDigits bs → digits n true bs ≡ some (value n bs)
unfolding digits value
digits-value n [] h = refl
digits-value n (b ∷ bs) h = ground (arith, h.0, digits-value (n * 10 + (b - 48)) bs h.1)

value-snoc : (n : ℕ) (bs : Bytes) (b : ℕ) → value n (bs ++ b ∷ []) ≡ value n bs * 10 + (b - 48)
unfolding value
value-snoc n [] b = refl
value-snoc n (c ∷ bs) b = value-snoc (n * 10 + (c - 48)) bs b

value-decimal_digits : (fuel n : ℕ) → n < fuel → value 0 (decimal_digits fuel n) ≡ n
unfolding decimal_digits value
value-decimal_digits zero n h = elim h [ ]
value-decimal_digits (suc fuel) n h = ground (
  arith,
  value-snoc 0 (decimal_digits fuel (n / 10)) (48 + n % 10),
  value-decimal_digits fuel (n / 10),
)

decimal_digits-AllDigits : (fuel n : ℕ) → AllDigits (decimal_digits fuel n)
unfolding decimal_digits
decimal_digits-AllDigits zero n = tt
decimal_digits-AllDigits (suc fuel) n = elim (Bool-cases (ltb n 10)) [
  | inl small ↦ rw small (ground arith, tt)
  | inr large ↦ rw large (
      All-snoc (λ b. is_digit b ≡ true) (decimal_digits fuel (n / 10)) (48 + n % 10)
        (decimal_digits-AllDigits fuel (n / 10)) (ground arith))
]

pub decimal-AllDigits : (n : ℕ) → AllDigits (decimal n)
unfolding decimal
decimal-AllDigits n = decimal_digits-AllDigits (suc n) n

-- the first byte is a digit, and so no sign
parse_length-digits :
    (bs : Bytes) → AllDigits bs → 0 < length bs → parse_length bs ≡ some (value 0 bs)
unfolding parse_length digits value
parse_length-digits [] h lt = elim lt [ ]
parse_length-digits (b ∷ bs) h lt = ground (arith, h.0, digits-value (0 * 10 + (b - 48)) bs h.1)

pub decimal_pos : (n : ℕ) → 0 < length (decimal n)
unfolding decimal decimal_digits
decimal_pos n = ground (arith, length-append (decimal_digits n (n / 10)) ((48 + n % 10) ∷ []))

pub parse_length-decimal : (n : ℕ) → parse_length (decimal n) ≡ some n
unfolding decimal
parse_length-decimal n =
    parse_length-digits (decimal n) (decimal-AllDigits n) (decimal_pos n)
    ∙ ap some (value-decimal_digits (suc n) n (omega arith))
