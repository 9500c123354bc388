-- ===== src/Common/Text.antt =====
-- Python's methods of `str` that the program calls, over ASCII, and decimal printing.
pub mod Digits
pub mod Dashes
pub mod Separators
use Prim.Native.Char.{Char, code}
use Prim.Native.Nat.{ℕ, zero, suc, ◌+◌, ◌/◌, ◌%◌}
use Prim.Native.String.{String, [], ◌∷◌, ◌++◌}
use mathlib.Core.Bool.{Bool, true, false, ◌&&◌, ◌||◌}
use api_verity_lab.Common.Tests.{if◌then◌else◌, ltb}
use api_verity_lab.Common.Order.{◌==◌, nat_ord}

-- The character that stands in `to` where `c` stands in `from`; `c` itself where it does not.
unfoldable pub translate : String → String → Char → Char
translate [] to c = c
translate (f ∷ from) [] c = c
translate (f ∷ from) (t ∷ to) c =
    let rest = translate from to c in if code f == code c then t else rest

unfoldable pub translate_all : String → String → String → String
unfolding translate
translate_all from to [] = []
translate_all from to (c ∷ s) = translate from to c ∷ translate_all from to s

-- s.upper()
unfoldable pub upper : String → String
unfolding translate_all
upper = translate_all "abcdefghijklmnopqrstuvwxyz" "ABCDEFGHIJKLMNOPQRSTUVWXYZ"

-- s.lower()
unfoldable pub lower : String → String
unfolding translate_all
lower = translate_all "ABCDEFGHIJKLMNOPQRSTUVWXYZ" "abcdefghijklmnopqrstuvwxyz"

-- s.split(c, 1)[0]
unfoldable pub before : ℕ → String → String
before sep [] = []
before sep (c ∷ s) = let rest = before sep s in if code c == sep then [] else c ∷ rest

-- the white space of ASCII
is_space : Char → Bool
is_space c =
    code c == 32 || (ltb 8 (code c) && ltb (code c) 14) || (ltb 27 (code c) && ltb (code c) 32)

strip_left : String → String
unfolding is_space
strip_left [] = []
strip_left (c ∷ s) = let rest = strip_left s in if is_space c then rest else c ∷ s

unfoldable pub is_empty : String → Bool
is_empty [] = true
is_empty (c ∷ s) = false

strip_right : String → String
unfolding is_space is_empty
strip_right [] = []
strip_right (c ∷ s) =
    let rest = strip_right s in if is_space c && is_empty rest then [] else c ∷ rest

-- s.strip()
unfoldable pub strip : String → String
unfolding strip_left strip_right
strip s = strip_right (strip_left s)

-- s.startswith(t)
unfoldable pub starts_with : String → String → Bool
starts_with s [] = true
starts_with [] (d ∷ t) = false
starts_with (c ∷ s) (d ∷ t) = code c == code d && starts_with s t

-- t in s
unfoldable pub includes : String → String → Bool
unfolding starts_with
includes t [] = starts_with [] t
includes t (c ∷ s) = starts_with (c ∷ s) t || includes t s

-- the character at a position, as a text
pick : ℕ → String → String
pick n [] = []
pick zero (c ∷ s) = c ∷ []
pick (suc n) (c ∷ s) = pick n s

digit : ℕ → String
unfolding pick
digit n = pick n "0123456789"

-- `n` has fewer than `fuel` digits
print_digits : ℕ → ℕ → String
unfolding digit
print_digits zero n = []
print_digits (suc fuel) n =
    let rest = print_digits fuel (n / 10) in if ltb n 10 then digit n else rest ++ digit (n % 10)

-- str(n)
unfoldable pub print : ℕ → String
unfolding print_digits
print n = print_digits (suc n) n
