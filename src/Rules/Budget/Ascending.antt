-- ===== src/Rules/Budget/Ascending.antt =====
-- Ascending lists of instants, and what filtering keeps of them.
use api_verity_lab.Common.{
  All-snoc, ℕ, ◌≤◌, Bool, true, List, [], ◌∷◌, ◌++◌, ◌≡◌, refl, arith, nat_ord, keep, length, All,
  Bool-cases, inl, inr,
}

abbrev pub IsSorted : List ℕ → Type 0
IsSorted [] = Unit
IsSorted (x ∷ xs) = All (λ y. x ≤ y) xs × IsSorted xs

pub keep-append {ℓ} :
    {A : Type ℓ} (t : A → Bool) (xs ys : List A) → keep t (xs ++ ys) ≡ keep t xs ++ keep t ys
unfolding keep
keep-append t [] ys = refl
keep-append t (x ∷ xs) ys = ground (arith, keep-append t xs ys)

pub keep-keep {ℓ} :
    {A : Type ℓ} (s t : A → Bool) (xs : List A)
    → ((x : A) → s x ≡ true → t x ≡ true)
    → keep s (keep t xs) ≡ keep s xs
unfolding keep
keep-keep s t [] h = refl
keep-keep s t (x ∷ xs) h = ground (arith, h x, keep-keep s t xs h)

pub keep-shorter :
    (s t : ℕ → Bool) (xs : List ℕ)
    → ((x : ℕ) → s x ≡ true → t x ≡ true)
    → length (keep s xs) ≤ length (keep t xs)
unfolding keep
keep-shorter s t [] h = omega arith
keep-shorter s t (x ∷ xs) h = ground (arith, h x, keep-shorter s t xs h)

pub All-last {ℓ κ} :
    {A : Type ℓ} (P : A → Type κ) (xs : List A) (x : A) → All P (xs ++ x ∷ []) → P x
All-last P [] x h = h.0
All-last P (y ∷ ys) x h = All-last P ys x h.1

pub All-keep {ℓ κ} :
    {A : Type ℓ} (P : A → Type κ) (t : A → Bool) (xs : List A) → All P xs → All P (keep t xs)
unfolding keep
All-keep P t [] h = tt
All-keep P t (x ∷ xs) h = elim (Bool-cases (t x)) [
  | inl e ↦ rw (e, keep) (h.0, All-keep P t xs h.1)
  | inr e ↦ rw (e, keep) (All-keep P t xs h.1)
]

pub All-kept : (t : ℕ → Bool) (xs : List ℕ) → All (λ y. t y ≡ true) (keep t xs)
unfolding keep
All-kept t [] = tt
All-kept t (x ∷ xs) = elim (Bool-cases (t x)) [
  | inl e ↦ rw (e, keep) (e, All-kept t xs)
  | inr e ↦ rw (e, keep) (All-kept t xs)
]

pub IsSorted-snoc :
    (xs : List ℕ) (m : ℕ) → IsSorted xs → All (λ y. y ≤ m) xs → IsSorted (xs ++ m ∷ [])
IsSorted-snoc [] m h below = (tt, tt)
IsSorted-snoc (x ∷ xs) m h below =
    (All-snoc (λ y. x ≤ y) xs m h.0 below.0, IsSorted-snoc xs m h.1 below.1)

pub IsSorted-keep : (t : ℕ → Bool) (xs : List ℕ) → IsSorted xs → IsSorted (keep t xs)
unfolding keep
IsSorted-keep t [] h = tt
IsSorted-keep t (x ∷ xs) h = elim (Bool-cases (t x)) [
  | inl e ↦ rw (e, keep) (All-keep (λ y. x ≤ y) t xs h.0, IsSorted-keep t xs h.1)
  | inr e ↦ rw (e, keep) (IsSorted-keep t xs h.1)
]

pub keep_twice-shorter :
    (s t : ℕ → Bool) (xs : List ℕ) → length (keep s (keep t xs)) ≤ length (keep s xs)
unfolding keep
keep_twice-shorter s t [] = omega arith
keep_twice-shorter s t (x ∷ xs) = ground (arith, keep_twice-shorter s t xs)
