-- ===== src/Common/Instances.antt =====
-- Orders of booleans, options and lists, for `==` on the fields that hold them.
use Prim.Native.Nat.{Ordering}
use mathlib.Core.Path.{◌≡◌, refl}
use mathlib.Core.Bool.{Bool, true, false}
use mathlib.Core.Option.{Option, none, some}
use mathlib.Core.List.{List, [], ◌∷◌}
use native.Mathlib.Omega.{arith}
use api_verity_lab.Common.Order.{Ord, then}

abbrev pub cmp_bool : Bool → Bool → Ordering
cmp_bool false true = Ordering.lt
cmp_bool true false = Ordering.gt
cmp_bool _ _ = Ordering.eq

pub bool_same : (a : Bool) → cmp_bool a a ≡ Ordering.eq
bool_same a = ground arith

pub bool_equal : (a b : Bool) → cmp_bool a b ≡ Ordering.eq → a ≡ b
bool_equal a b = ground arith

pub bool_flip_lt : (a b : Bool) → cmp_bool a b ≡ Ordering.lt → cmp_bool b a ≡ Ordering.gt
bool_flip_lt a b = ground arith

pub bool_flip_gt : (a b : Bool) → cmp_bool a b ≡ Ordering.gt → cmp_bool b a ≡ Ordering.lt
bool_flip_gt a b = ground arith

pub bool_chain :
    (a b c : Bool)
    → cmp_bool a b ≡ Ordering.lt
    → cmp_bool b c ≡ Ordering.lt
    → cmp_bool a c ≡ Ordering.lt
bool_chain a b c = ground arith

instance abbrev pub bool_ord : Ord Bool
bool_ord = record {
  cmp = cmp_bool;
  same = bool_same;
  equal = bool_equal;
  flip_lt = bool_flip_lt;
  flip_gt = bool_flip_gt;
  chain = bool_chain;
}

module _ {ℓ} {A : Type ℓ} ⦃o : Ord A⦄ where
  abbrev pub cmp_option : Option A → Option A → Ordering
  cmp_option none none = Ordering.eq
  cmp_option none (some b) = Ordering.lt
  cmp_option (some a) none = Ordering.gt
  cmp_option (some a) (some b) = o.cmp a b

  pub option_same : (a : Option A) → cmp_option a a ≡ Ordering.eq
  option_same none = refl
  option_same (some a) = o.same a

  pub option_equal : (a b : Option A) → cmp_option a b ≡ Ordering.eq → a ≡ b
  option_equal none none h = refl
  option_equal none (some b) h = cc
  option_equal (some a) none h = cc
  option_equal (some a) (some b) h = cc (o.equal a b h)

  pub option_flip_lt :
      (a b : Option A) → cmp_option a b ≡ Ordering.lt → cmp_option b a ≡ Ordering.gt
  option_flip_lt none none h = cc
  option_flip_lt none (some b) h = refl
  option_flip_lt (some a) none h = cc
  option_flip_lt (some a) (some b) h = o.flip_lt a b h

  pub option_flip_gt :
      (a b : Option A) → cmp_option a b ≡ Ordering.gt → cmp_option b a ≡ Ordering.lt
  option_flip_gt none none h = cc
  option_flip_gt none (some b) h = cc
  option_flip_gt (some a) none h = refl
  option_flip_gt (some a) (some b) h = o.flip_gt a b h

  pub option_chain :
      (a b c : Option A)
      → cmp_option a b ≡ Ordering.lt
      → cmp_option b c ≡ Ordering.lt
      → cmp_option a c ≡ Ordering.lt
  option_chain none none c h k = k
  option_chain none (some b) none h k = cc
  option_chain none (some b) (some c) h k = refl
  option_chain (some a) none c h k = cc
  option_chain (some a) (some b) none h k = k
  option_chain (some a) (some b) (some c) h k = o.chain a b c h k

  instance abbrev pub option_ord : Ord (Option A)
  option_ord = record {
    cmp = cmp_option;
    same = option_same;
    equal = option_equal;
    flip_lt = option_flip_lt;
    flip_gt = option_flip_gt;
    chain = option_chain;
  }

  abbrev pub cmp_list : List A → List A → Ordering
  cmp_list [] [] = Ordering.eq
  cmp_list [] (b ∷ bs) = Ordering.lt
  cmp_list (a ∷ as') [] = Ordering.gt
  cmp_list (a ∷ as') (b ∷ bs) = then (o.cmp a b) (cmp_list as' bs)

  pub list_same : (xs : List A) → cmp_list xs xs ≡ Ordering.eq
  list_same [] = refl
  list_same (x ∷ xs) = ground (arith, o.same x, list_same xs)

  pub list_equal : (xs ys : List A) → cmp_list xs ys ≡ Ordering.eq → xs ≡ ys
  list_equal [] [] h = refl
  list_equal [] (y ∷ ys) h = cc
  list_equal (x ∷ xs) [] h = cc
  list_equal (x ∷ xs) (y ∷ ys) h = ground (arith, o.equal x y, list_equal xs ys)

  pub list_flip_lt : (xs ys : List A) → cmp_list xs ys ≡ Ordering.lt → cmp_list ys xs ≡ Ordering.gt
  list_flip_lt [] [] h = cc
  list_flip_lt [] (y ∷ ys) h = refl
  list_flip_lt (x ∷ xs) [] h = cc
  list_flip_lt (x ∷ xs) (y ∷ ys) h =
      ground (arith, o.equal x y, o.same x, o.flip_lt x y, list_flip_lt xs ys)

  pub list_flip_gt : (xs ys : List A) → cmp_list xs ys ≡ Ordering.gt → cmp_list ys xs ≡ Ordering.lt
  list_flip_gt [] [] h = cc
  list_flip_gt [] (y ∷ ys) h = cc
  list_flip_gt (x ∷ xs) [] h = refl
  list_flip_gt (x ∷ xs) (y ∷ ys) h =
      ground (arith, o.equal x y, o.same x, o.flip_gt x y, list_flip_gt xs ys)

  pub list_chain :
      (xs ys zs : List A)
      → cmp_list xs ys ≡ Ordering.lt
      → cmp_list ys zs ≡ Ordering.lt
      → cmp_list xs zs ≡ Ordering.lt
  list_chain [] [] zs h k = cc
  list_chain [] (y ∷ ys) [] h k = cc
  list_chain [] (y ∷ ys) (z ∷ zs) h k = refl
  list_chain (x ∷ xs) [] zs h k = cc
  list_chain (x ∷ xs) (y ∷ ys) [] h k = cc
  list_chain (x ∷ xs) (y ∷ ys) (z ∷ zs) h k =
      ground (arith, o.equal x y, o.equal y z, o.same x, o.chain x y z, list_chain xs ys zs)

  instance abbrev pub list_ord : Ord (List A)
  list_ord = record {
    cmp = cmp_list;
    same = list_same;
    equal = list_equal;
    flip_lt = list_flip_lt;
    flip_gt = list_flip_gt;
    chain = list_chain;
  }
