-- ===== src/Common/Order.antt =====
-- Ordered types, and Python's `sorted(set(xs))` over them.
use Prim.Native.Nat.{ℕ, compare, Ordering}
use Prim.Native.Char.{Char, code}
use Prim.Native.String.compare as Clauses
use Prim.Native.String.{String, compare as compare_text, then as then_text}
use mathlib.Core.Path.{◌≡◌}
use mathlib.Core.Logic.{◌↔◌}
use mathlib.Core.Bool.{Bool, true, false}
use native.Mathlib.Omega.{arith}
use text.Mathlib.TextEquality.{path_by_compare}
use text.Mathlib.TextPositions.{compare_refl}

pub record Ord {ℓ} (A : Type ℓ) : Type ℓ where
  pub cmp : A → A → Ordering
  pub same : (a : A) → cmp a a ≡ Ordering.eq
  pub equal : (a b : A) → cmp a b ≡ Ordering.eq → a ≡ b
  pub flip_lt : (a b : A) → cmp a b ≡ Ordering.lt → cmp b a ≡ Ordering.gt
  pub flip_gt : (a b : A) → cmp a b ≡ Ordering.gt → cmp b a ≡ Ordering.lt
  pub chain : (a b c : A) → cmp a b ≡ Ordering.lt → cmp b c ≡ Ordering.lt → cmp a c ≡ Ordering.lt

abbrev pub is_eq : Ordering → Bool
is_eq Ordering.eq = true
is_eq _ = false

infix 50 ◌==◌
abbrev pub ◌==◌ {ℓ} : {A : Type ℓ} ⦃o : Ord A⦄ → A → A → Bool
◌==◌ ⦃o⦄ a b = is_eq (o.cmp a b)

module _ {ℓ} {A : Type ℓ} ⦃o : Ord A⦄ where
  pub ==_iff : (a b : A) → ((a == b) ≡ true) ↔ (a ≡ b)
  ==_iff a b = ground (arith, o.equal a b, o.same a)

  pub ==_refl : (a : A) → (a == a) ≡ true
  ==_refl a = ground (arith, o.same a)

  pub ==_comm : (a b : A) → (a == b) ≡ (b == a)
  ==_comm a b = ground (arith, o.equal a b, o.equal b a, o.same a, o.same b)

pub compare_same : (n : ℕ) → compare n n ≡ Ordering.eq
compare_same n = ground arith

pub compare_equal : (m n : ℕ) → compare m n ≡ Ordering.eq → m ≡ n
compare_equal m n = ground arith

pub compare_flip_lt : (m n : ℕ) → compare m n ≡ Ordering.lt → compare n m ≡ Ordering.gt
compare_flip_lt m n = ground arith

pub compare_flip_gt : (m n : ℕ) → compare m n ≡ Ordering.gt → compare n m ≡ Ordering.lt
compare_flip_gt m n = ground arith

pub compare_chain :
    (m n k : ℕ) → compare m n ≡ Ordering.lt → compare n k ≡ Ordering.lt → compare m k ≡ Ordering.lt
compare_chain m n k = ground arith

instance abbrev pub nat_ord : Ord ℕ
nat_ord = record {
  cmp = compare;
  same = compare_same;
  equal = compare_equal;
  flip_lt = compare_flip_lt;
  flip_gt = compare_flip_gt;
  chain = compare_chain;
}

-- The clauses of the comparison of texts, as equations.
module _ (c d : Char) (s t : String) where
  text_nil_cons : compare_text String.[] (String.◌∷◌ d t) ≡ Ordering.lt
  text_nil_cons = λ i. Clauses.nil-cons d t i

  text_cons_nil : compare_text (String.◌∷◌ c s) String.[] ≡ Ordering.gt
  text_cons_nil = λ i. Clauses.cons-nil c s i

  text_cons_cons :
      compare_text (String.◌∷◌ c s) (String.◌∷◌ d t)
      ≡ then_text (compare (code c) (code d)) (compare_text s t)
  text_cons_cons = λ i. Clauses.cons-cons c d s t i

-- Python compares texts by code points.
pub text_flip_lt : (s t : String) → compare_text s t ≡ Ordering.lt → compare_text t s ≡ Ordering.gt
text_flip_lt String.[] String.[] h = cc (compare_refl String.[])
text_flip_lt String.[] (String.◌∷◌ d t) h = text_cons_nil d d t t
text_flip_lt (String.◌∷◌ c s) String.[] h = cc (text_cons_nil c c s s)
text_flip_lt (String.◌∷◌ c s) (String.◌∷◌ d t) h =
    ground (arith, text_cons_cons c d s t, text_cons_cons d c t s, text_flip_lt s t)

pub text_flip_gt : (s t : String) → compare_text s t ≡ Ordering.gt → compare_text t s ≡ Ordering.lt
text_flip_gt String.[] String.[] h = cc (compare_refl String.[])
text_flip_gt String.[] (String.◌∷◌ d t) h = cc (text_nil_cons d d t t)
text_flip_gt (String.◌∷◌ c s) String.[] h = text_nil_cons c c s s
text_flip_gt (String.◌∷◌ c s) (String.◌∷◌ d t) h =
    ground (arith, text_cons_cons c d s t, text_cons_cons d c t s, text_flip_gt s t)

pub text_chain :
    (s t u : String)
    → compare_text s t ≡ Ordering.lt
    → compare_text t u ≡ Ordering.lt
    → compare_text s u ≡ Ordering.lt
text_chain String.[] String.[] u h k = k
text_chain String.[] (String.◌∷◌ d t) String.[] h k = cc (text_cons_nil d d t t)
text_chain String.[] (String.◌∷◌ d t) (String.◌∷◌ e u) h k = text_nil_cons e e u u
text_chain (String.◌∷◌ c s) String.[] u h k = cc (text_cons_nil c c s s)
text_chain (String.◌∷◌ c s) (String.◌∷◌ d t) String.[] h k = cc (text_cons_nil d d t t)
text_chain (String.◌∷◌ c s) (String.◌∷◌ d t) (String.◌∷◌ e u) h k = ground (
  arith,
  text_cons_cons c d s t,
  text_cons_cons d e t u,
  text_cons_cons c e s u,
  text_chain s t u,
)

instance abbrev pub text_ord : Ord String
text_ord = record {
  cmp = compare_text;
  same = compare_refl;
  equal = path_by_compare;
  flip_lt = text_flip_lt;
  flip_gt = text_flip_gt;
  chain = text_chain;
}

abbrev pub then : Ordering → Ordering → Ordering
then Ordering.eq second = second
then first _ = first

module _ {ℓ κ} {A : Type ℓ} {B : Type κ} ⦃a : Ord A⦄ ⦃b : Ord B⦄ where
  -- Python compares tuples from the left.
  abbrev pub cmp_pair : A × B → A × B → Ordering
  cmp_pair x y = then (a.cmp x.0 y.0) (b.cmp x.1 y.1)

  pub pair_same : (x : A × B) → cmp_pair x x ≡ Ordering.eq
  pair_same x = ground (arith, a.same x.0, b.same x.1)

  pub pair_equal : (x y : A × B) → cmp_pair x y ≡ Ordering.eq → x ≡ y
  pair_equal x y = ground (arith, a.equal x.0 y.0, b.equal x.1 y.1)

  pub pair_flip_lt : (x y : A × B) → cmp_pair x y ≡ Ordering.lt → cmp_pair y x ≡ Ordering.gt
  pair_flip_lt x y =
      ground (arith, a.equal x.0 y.0, a.same x.0, a.flip_lt x.0 y.0, b.flip_lt x.1 y.1)

  pub pair_flip_gt : (x y : A × B) → cmp_pair x y ≡ Ordering.gt → cmp_pair y x ≡ Ordering.lt
  pair_flip_gt x y =
      ground (arith, a.equal x.0 y.0, a.same x.0, a.flip_gt x.0 y.0, b.flip_gt x.1 y.1)

  pub pair_chain :
      (x y z : A × B)
      → cmp_pair x y ≡ Ordering.lt
      → cmp_pair y z ≡ Ordering.lt
      → cmp_pair x z ≡ Ordering.lt
  pair_chain x y z = ground (
    arith,
    a.equal x.0 y.0,
    a.equal y.0 z.0,
    a.same x.0,
    a.chain x.0 y.0 z.0,
    b.chain x.1 y.1 z.1,
  )

  instance abbrev pub pair_ord : Ord (A × B)
  pair_ord = record {
    cmp = cmp_pair;
    same = pair_same;
    equal = pair_equal;
    flip_lt = pair_flip_lt;
    flip_gt = pair_flip_gt;
    chain = pair_chain;
  }
