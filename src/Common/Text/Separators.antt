-- ===== src/Common/Text/Separators.antt =====
-- Texts joined by a separator are taken apart again, where the parts before it do not hold it.
use Prim.Native.Char.{Char, code}
use Prim.Native.Nat.{ℕ}
use Prim.Native.String.{String, ◌++◌}
use mathlib.Core.Bool.{Bool, true, ◌&&◌, not}
use mathlib.Core.Path.{◌≡◌, refl, ap, ap₂, sym, ◌∙◌}
use native.Mathlib.Omega.{arith}
use text.Mathlib.TextLemmas.{nil-append, cons-append, head-eq_of_cons-eq, tail-eq_of_cons-eq}
use api_verity_lab.Common.Order.{◌==◌, nat_ord}

-- the character does not stand in the text
unfoldable pub free_of : ℕ → String → Bool
free_of sep String.[] = true
free_of sep (String.◌∷◌ c s) = not (code c == sep) && free_of sep s

not_separator :
    (sep c : Char) (s : String) → free_of (code sep) (String.◌∷◌ c s) ≡ true → c ≡ sep → ⊥
unfolding free_of
not_separator sep c s h e = ground (arith, ap code e)

pub separator_splits :
    (sep : Char) (a b x y : String)
    → free_of (code sep) a ≡ true
    → free_of (code sep) b ≡ true
    → a ++ String.◌∷◌ sep x ≡ b ++ String.◌∷◌ sep y
    → (a ≡ b) × (x ≡ y)
separator_splits sep String.[] String.[] x y ha hb e =
    (refl, tail-eq_of_cons-eq (simp (nil-append) at e))
separator_splits sep String.[] (String.◌∷◌ d b) x y ha hb e =
    absurd
      (not_separator sep d b hb (sym (head-eq_of_cons-eq (simp (nil-append, cons-append) at e))))
separator_splits sep (String.◌∷◌ c a) String.[] x y ha hb e =
    absurd (not_separator sep c a ha (head-eq_of_cons-eq (simp (nil-append, cons-append) at e)))
separator_splits sep (String.◌∷◌ c a) (String.◌∷◌ d b) x y ha hb e =
    let e' = simp cons-append at e in
    let (same, rest) =
      separator_splits sep a b x y (unfold free_of in ground arith) (unfold free_of in ground arith)
        (tail-eq_of_cons-eq e') in
    (ap₂ String.◌∷◌ (head-eq_of_cons-eq e') same, rest)

-- a separator that is written as a text
pub one-append : (sep : Char) (u : String) → String.◌∷◌ sep "" ++ u ≡ String.◌∷◌ sep u
one-append sep u = cons-append sep "" u ∙ ap (λ t. String.◌∷◌ sep t) (nil-append u)
