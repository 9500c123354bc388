-- ===== src/Common/Sets.antt =====
-- Python's `in`, `set` differences and intersections over lists, and `sorted(set(xs))`.
use Prim.Native.Nat.{Ordering, ◌+◌, ◌≤◌}
use mathlib.Core.Path.{◌≡◌, refl, ap, ap₂, sym, ◌∙◌, subst}
use mathlib.Core.Bool.{Bool, false, not, ◌&&◌, ◌||◌}
use mathlib.Core.List.{List, [], ◌∷◌, ◌++◌}
use native.Mathlib.Omega.{arith}
use api_verity_lab.Common.Tests.{if◌then◌else◌}
use api_verity_lab.Common.Lists.{length}
use api_verity_lab.Common.Order.{Ord, ◌==◌, ==_iff, ==_refl}

module _ {ℓ} {A : Type ℓ} where
  -- [x for x in xs if test(x)]
  unfoldable pub keep : (A → Bool) → List A → List A
  keep test [] = []
  keep test (x ∷ xs) = let rest = keep test xs in if test x then x ∷ rest else rest

  unfoldable pub any : (A → Bool) → List A → Bool
  any test [] = false
  any test (x ∷ xs) = test x || any test xs

  pub any-append :
      (test : A → Bool) (xs ys : List A) → any test (xs ++ ys) ≡ (any test xs || any test ys)
  unfolding any
  any-append test [] ys = refl
  any-append test (x ∷ xs) ys = ground (arith, any-append test xs ys)

module _ {ℓ} {A : Type ℓ} ⦃o : Ord A⦄ where
  -- a in xs
  unfoldable pub contains : A → List A → Bool
  contains a [] = false
  contains a (x ∷ xs) = a == x || contains a xs

  insert : A → List A → List A
  insert a [] = a ∷ []
  insert a (x ∷ xs) = elim (o.cmp a x) [
    | Ordering.lt ↦ a ∷ x ∷ xs
    | Ordering.eq ↦ x ∷ xs
    | Ordering.gt ↦ x ∷ insert a xs
  ]

  -- sorted(set(xs))
  unfoldable pub sorted_set : List A → List A
  unfolding insert
  sorted_set [] = []
  sorted_set (x ∷ xs) = insert x (sorted_set xs)

  unfoldable pub insert_again : A → List A → List A
  insert_again a [] = a ∷ []
  insert_again a (x ∷ xs) = elim (o.cmp a x) [
    | Ordering.gt ↦ x ∷ insert_again a xs
    | _ ↦ a ∷ x ∷ xs
  ]

  -- sorted(xs)
  unfoldable pub sorted : List A → List A
  unfolding insert_again
  sorted [] = []
  sorted (x ∷ xs) = insert_again x (sorted xs)

  -- sorted(set(xs) - set(ys))
  unfoldable pub only_in : List A → List A → List A
  unfolding sorted_set keep contains
  only_in xs ys = sorted_set (keep (λ x. not (contains x ys)) xs)

  -- sorted(set(xs) & set(ys))
  unfoldable pub in_both : List A → List A → List A
  unfolding sorted_set keep contains
  in_both xs ys = sorted_set (keep (λ x. contains x ys) xs)

  -- sorted(set(xs) | set(ys))
  unfoldable pub in_either : List A → List A → List A
  unfolding sorted_set
  in_either xs ys = sorted_set (xs ++ ys)

  pub contains-append :
      (a : A) (xs ys : List A) → contains a (xs ++ ys) ≡ (contains a xs || contains a ys)
  unfolding contains
  contains-append a [] ys = refl
  contains-append a (x ∷ xs) ys = ground (arith, contains-append a xs ys)

  pub contains-keep :
      (a : A) (test : A → Bool) (xs : List A)
      → contains a (keep test xs) ≡ (contains a xs && test a)
  unfolding contains keep
  contains-keep a test [] = refl
  contains-keep a test (x ∷ xs) = ground (arith, contains-keep a test xs, ==_iff a x, ap test)

  contains-insert : (b a : A) (xs : List A) → contains b (insert a xs) ≡ (b == a || contains b xs)
  unfolding contains insert
  contains-insert b a [] = refl
  contains-insert b a (x ∷ xs) = ground (arith, contains-insert b a xs, o.equal a x)

  pub contains-sorted_set : (a : A) (xs : List A) → contains a (sorted_set xs) ≡ contains a xs
  unfolding contains sorted_set
  contains-sorted_set a [] = refl
  contains-sorted_set a (x ∷ xs) =
      ground (arith, contains-insert a x (sorted_set xs), contains-sorted_set a xs)

-- Ascending lists are determined by their members.
module _ {ℓ} {A : Type ℓ} ⦃o : Ord A⦄ where
  -- `a` comes before every member of `xs`
  length-insert : (a : A) (xs : List A) → length (insert a xs) ≤ length xs + 1
  unfolding insert
  length-insert a [] = omega arith
  length-insert a (x ∷ xs) = ground (arith, length-insert a xs)

  pub length-sorted_set : (xs : List A) → length (sorted_set xs) ≤ length xs
  unfolding sorted_set
  length-sorted_set [] = omega arith
  length-sorted_set (x ∷ xs) = omega (arith, length-insert x (sorted_set xs), length-sorted_set xs)

  abbrev IsBelow : A → List A → Type 0
  IsBelow a [] = Unit
  IsBelow a (x ∷ xs) = (o.cmp a x ≡ Ordering.lt) × IsBelow a xs

  abbrev pub IsAscending : List A → Type 0
  IsAscending [] = Unit
  IsAscending (x ∷ xs) = IsBelow x xs × IsAscending xs

  IsBelow-chain : (a b : A) (xs : List A) → o.cmp a b ≡ Ordering.lt → IsBelow b xs → IsBelow a xs
  IsBelow-chain a b [] h below = tt
  IsBelow-chain a b (x ∷ xs) h below = (o.chain a b x h below.0, IsBelow-chain a b xs h below.1)

  IsBelow-insert :
      (a b : A) (xs : List A) → o.cmp a b ≡ Ordering.lt → IsBelow a xs → IsBelow a (insert b xs)
  unfolding insert
  IsBelow-insert a b [] h below = (h, tt)
  IsBelow-insert a b (x ∷ xs) h below = ground (arith, IsBelow-insert a b xs h below.1)

  insert-IsAscending : (a : A) (xs : List A) → IsAscending xs → IsAscending (insert a xs)
  unfolding insert
  insert-IsAscending a [] up = (tt, tt)
  insert-IsAscending a (x ∷ xs) up = ground (
    arith,
    IsBelow-chain a x xs,
    o.flip_gt a x,
    IsBelow-insert x a xs,
    insert-IsAscending a xs up.1,
  )

  sorted_set-IsAscending : (xs : List A) → IsAscending (sorted_set xs)
  unfolding sorted_set
  sorted_set-IsAscending [] = tt
  sorted_set-IsAscending (x ∷ xs) = insert-IsAscending x (sorted_set xs) (sorted_set-IsAscending xs)

  contains_of_below : (a : A) (xs : List A) → IsBelow a xs → contains a xs ≡ false
  unfolding contains
  contains_of_below a [] below = refl
  contains_of_below a (x ∷ xs) below = ground (arith, contains_of_below a xs below.1)

  tail_members :
      (x : A) (xs ys : List A)
      → IsBelow x xs
      → IsBelow x ys
      → ((a : A) → contains a (x ∷ xs) ≡ contains a (x ∷ ys))
      → (a : A) → contains a xs ≡ contains a ys
  unfolding contains
  tail_members x xs ys bx by h a =
      ground (arith, h a, o.equal a x, contains_of_below x xs bx, contains_of_below x ys by)

  head_eq :
      (x y : A) (xs ys : List A)
      → IsBelow x xs
      → IsBelow y ys
      → ((a : A) → contains a (x ∷ xs) ≡ contains a (y ∷ ys))
      → x ≡ y
  unfolding contains
  head_eq x y xs ys bx by h = ground (
    arith,
    h x,
    h y,
    o.same x,
    o.same y,
    o.equal x y,
    o.flip_gt x y,
    o.flip_lt x y,
    λ (e : o.cmp x y ≡ Ordering.lt). contains_of_below x ys (IsBelow-chain x y ys e by),
    λ (e : o.cmp y x ≡ Ordering.lt). contains_of_below y xs (IsBelow-chain y x xs e bx),
  )

  ascending_ext :
      (xs ys : List A)
      → IsAscending xs
      → IsAscending ys
      → ((a : A) → contains a xs ≡ contains a ys)
      → xs ≡ ys
  ascending_ext [] [] ux uy h = refl
  ascending_ext [] (y ∷ ys) ux uy h = unfold contains in cc (h y, ==_refl y)
  ascending_ext (x ∷ xs) [] ux uy h = unfold contains in cc (h x, ==_refl x)
  ascending_ext (x ∷ xs) (y ∷ ys) ux uy h =
      let e = head_eq x y xs ys ux.0 uy.0 h in
      let by : IsBelow x ys = subst (λ z. IsBelow z ys) (sym e) uy.0 in
      let h' : (a : A) → contains a (x ∷ xs) ≡ contains a (x ∷ ys) =
        subst (λ z. (a : A) → contains a (x ∷ xs) ≡ contains a (z ∷ ys)) (sym e) h in
      ap₂ ◌∷◌ e (ascending_ext xs ys ux.1 uy.1 (tail_members x xs ys ux.0 by h'))

  -- `sorted(set(xs))` depends on the members of `xs` alone.
  pub sorted_set_ext :
      (xs ys : List A) → ((a : A) → contains a xs ≡ contains a ys) → sorted_set xs ≡ sorted_set ys
  sorted_set_ext xs ys h =
      ascending_ext (sorted_set xs) (sorted_set ys) (sorted_set-IsAscending xs)
        (sorted_set-IsAscending ys)
        (λ a. contains-sorted_set a xs ∙ h a ∙ sym (contains-sorted_set a ys))

  only_in-IsAscending : (xs ys : List A) → IsAscending (only_in xs ys)
  unfolding only_in
  only_in-IsAscending xs ys = sorted_set-IsAscending (keep (λ x. not (contains x ys)) xs)

  in_both-IsAscending : (xs ys : List A) → IsAscending (in_both xs ys)
  unfolding in_both
  in_both-IsAscending xs ys = sorted_set-IsAscending (keep (λ x. contains x ys) xs)

  module _ (a : A) (xs ys : List A) where
    pub contains-only_in : contains a (only_in xs ys) ≡ (contains a xs && not (contains a ys))
    unfolding only_in
    contains-only_in = contains-sorted_set a _ ∙ contains-keep a _ xs

    pub contains-in_both : contains a (in_both xs ys) ≡ (contains a xs && contains a ys)
    unfolding in_both
    contains-in_both = contains-sorted_set a _ ∙ contains-keep a _ xs

  pub only_in_self : (xs : List A) → only_in xs xs ≡ []
  only_in_self xs =
      ascending_ext (only_in xs xs) [] (only_in-IsAscending xs xs) tt
        (λ a. unfold contains in ground (arith, contains-only_in a xs xs))

  pub only_in-nil : (ys : List A) → only_in [] ys ≡ []
  unfolding only_in
  only_in-nil ys = refl

  module _ (xs ys us vs : List A) (hx : (a : A) → contains a xs ≡ contains a us)
      (hy : (a : A) → contains a ys ≡ contains a vs) where
    pub only_in_ext : only_in xs ys ≡ only_in us vs
    only_in_ext =
        ascending_ext (only_in xs ys) (only_in us vs) (only_in-IsAscending xs ys)
          (only_in-IsAscending us vs)
          (λ a. ground (arith, hx a, hy a, contains-only_in a xs ys, contains-only_in a us vs))

    pub in_both_ext : in_both xs ys ≡ in_both us vs
    in_both_ext =
        ascending_ext (in_both xs ys) (in_both us vs) (in_both-IsAscending xs ys)
          (in_both-IsAscending us vs)
          (λ a. ground (arith, hx a, hy a, contains-in_both a xs ys, contains-in_both a us vs))
