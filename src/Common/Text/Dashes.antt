-- ===== src/Common/Text/Dashes.antt =====
-- Texts joined by dashes are taken apart again, where the parts before the dashes hold none.
use Prim.Native.Char.{Char, char, code}
use Prim.Native.String.{String, ◌++◌}
use mathlib.Core.Bool.{Bool, true, ◌&&◌, not}
use mathlib.Core.Path.{◌≡◌, refl, ap, ap₂, sym, ◌∙◌}
use native.Mathlib.Omega.{arith}
use text.Mathlib.TextLemmas.{nil-append, cons-append, head-eq_of_cons-eq, tail-eq_of_cons-eq}
use api_verity_lab.Common.Order.{◌==◌, nat_ord}

-- no `-` in the text
unfoldable pub dashless : String → Bool
dashless String.[] = true
dashless (String.◌∷◌ c s) = not (code c == b'-') && dashless s

abbrev dash : Char
dash = char 45 tt

dash-append : (u : String) → "-" ++ u ≡ String.◌∷◌ dash u
dash-append u = cons-append dash "" u ∙ ap (λ t. String.◌∷◌ dash t) (nil-append u)

not_dash : (c : Char) (s : String) → dashless (String.◌∷◌ c s) ≡ true → c ≡ dash → ⊥
unfolding dashless
not_dash c s h e = ground (arith, ap code e)

pub dash_splits :
    (a b x y : String)
    → dashless a ≡ true
    → dashless b ≡ true
    → a ++ ("-" ++ x) ≡ b ++ ("-" ++ y)
    → (a ≡ b) × (x ≡ y)
dash_splits String.[] String.[] x y ha hb e =
    (refl, tail-eq_of_cons-eq (simp (nil-append, dash-append) at e))
dash_splits String.[] (String.◌∷◌ d b) x y ha hb e =
    absurd (
      not_dash d b hb (sym (head-eq_of_cons-eq (simp (nil-append, cons-append, dash-append) at e))))
dash_splits (String.◌∷◌ c a) String.[] x y ha hb e =
    absurd (not_dash c a ha (head-eq_of_cons-eq (simp (nil-append, cons-append, dash-append) at e)))
dash_splits (String.◌∷◌ c a) (String.◌∷◌ d b) x y ha hb e =
    let e' = simp cons-append at e in
    let (same, rest) =
      dash_splits a b x y (unfold dashless in ground arith) (unfold dashless in ground arith)
        (tail-eq_of_cons-eq e') in
    (ap₂ String.◌∷◌ (head-eq_of_cons-eq e') same, rest)
