-- ===== src/Common/Text/Digits.antt =====
-- Decimal printing is injective: the number is read back from its digits.
use Prim.Native.Char.{code}
use Prim.Native.Nat.{ℕ, zero, suc, ◌+◌, ◌-◌, ◌*◌, ◌/◌, ◌%◌, ◌<◌}
use Prim.Native.String.{String, ◌++◌}
use mathlib.Core.Path.{◌≡◌, refl, sym, ap, ◌∙◌}
use native.Mathlib.Omega.{arith}
use text.Mathlib.TextLemmas.{nil-append, cons-append}
use api_verity_lab.Common.Text.{print, print_digits, digit}

-- int(s), after the digits read so far
read : ℕ → String → ℕ
read acc String.[] = acc
read acc (String.◌∷◌ c s) = read (acc * 10 + (code c - 48)) s

read-digit : (acc d : ℕ) → d < 10 → read acc (digit d) ≡ acc * 10 + d
unfolding read digit
read-digit acc zero h = refl
read-digit acc (suc zero) h = refl
read-digit acc (suc (suc zero)) h = refl
read-digit acc (suc (suc (suc zero))) h = refl
read-digit acc (suc (suc (suc (suc zero)))) h = refl
read-digit acc (suc (suc (suc (suc (suc zero))))) h = refl
read-digit acc (suc (suc (suc (suc (suc (suc zero)))))) h = refl
read-digit acc (suc (suc (suc (suc (suc (suc (suc zero))))))) h = refl
read-digit acc (suc (suc (suc (suc (suc (suc (suc (suc zero)))))))) h = refl
read-digit acc (suc (suc (suc (suc (suc (suc (suc (suc (suc zero))))))))) h = refl
read-digit acc (suc (suc (suc (suc (suc (suc (suc (suc (suc (suc n)))))))))) h =
    absurd (omega arith)

read-append : (acc : ℕ) (s t : String) → read acc (s ++ t) ≡ read (read acc s) t
unfolding read
read-append acc String.[] t = rw nil-append refl
read-append acc (String.◌∷◌ c s) t = rw cons-append (read-append (acc * 10 + (code c - 48)) s t)

read-print_digits : (fuel n : ℕ) → n < fuel → read 0 (print_digits fuel n) ≡ n
unfolding print_digits
read-print_digits zero n h = elim h [ ]
read-print_digits (suc fuel) n h = ground (
  arith,
  read-digit 0 n,
  read-digit (read 0 (print_digits fuel (n / 10))) (n % 10),
  read-append 0 (print_digits fuel (n / 10)) (digit (n % 10)),
  read-print_digits fuel (n / 10),
)

read-print : (n : ℕ) → read 0 (print n) ≡ n
unfolding print
read-print n = read-print_digits (suc n) n (omega arith)

pub print_injective : (m n : ℕ) → print m ≡ print n → m ≡ n
print_injective m n h = sym (read-print m) ∙ ap (read 0) h ∙ read-print n
