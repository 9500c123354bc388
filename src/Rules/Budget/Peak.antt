-- ===== src/Rules/Budget/Peak.antt =====
-- The peak that `busiest_window` (apiverity/rules/budget.py) finds is that of all windows.
use api_verity_lab.Common.{
  ℕ, ◌≤◌, Option, none, some, List, [], ◌∷◌, ◌≡◌, refl, ◌∙◌, subst, arith, nat_ord, insert_again,
  sorted, keep, All,
}
use api_verity_lab.Rules.Budget.{advance_all, busiest, busiest_window}
use api_verity_lab.Rules.Budget.Ascending.{IsSorted}
use api_verity_lab.Rules.Budget.Pointers.{calls_inside, Inv, advance_all-Inv}

-- Sorting changes no count.
module _ (window t : ℕ) where
  insert_again-calls :
      (a : ℕ) (xs : List ℕ)
      → calls_inside window t (insert_again a xs) ≡ calls_inside window t (a ∷ xs)
  unfolding insert_again calls_inside keep
  insert_again-calls a [] = refl
  insert_again-calls a (x ∷ xs) = ground (arith, insert_again-calls a xs)

  calls-cons :
      (x : ℕ) (xs ys : List ℕ)
      → calls_inside window t xs ≡ calls_inside window t ys
      → calls_inside window t (x ∷ xs) ≡ calls_inside window t (x ∷ ys)
  unfolding calls_inside keep
  calls-cons x xs ys h = ground (arith, h)

  sorted-calls : (xs : List ℕ) → calls_inside window t (sorted xs) ≡ calls_inside window t xs
  unfolding sorted
  sorted-calls [] = refl
  sorted-calls (x ∷ xs) =
      insert_again-calls x (sorted xs) ∙ calls-cons x (sorted xs) xs (sorted-calls xs)

All-above-insert_again :
    (y a : ℕ) (xs : List ℕ) → y ≤ a → All (λ z. y ≤ z) xs → All (λ z. y ≤ z) (insert_again a xs)
unfolding insert_again
All-above-insert_again y a [] h above = (h, tt)
All-above-insert_again y a (x ∷ xs) h above =
    ground (arith, All-above-insert_again y a xs h above.1, h, above.0)

All-above_trans : (y x : ℕ) (xs : List ℕ) → y ≤ x → All (λ z. x ≤ z) xs → All (λ z. y ≤ z) xs
All-above_trans y x [] h above = tt
All-above_trans y x (z ∷ xs) h above = (omega (arith, h, above.0), All-above_trans y x xs h above.1)

insert_again-IsSorted : (a : ℕ) (xs : List ℕ) → IsSorted xs → IsSorted (insert_again a xs)
unfolding insert_again
insert_again-IsSorted a [] up = (tt, tt)
insert_again-IsSorted a (x ∷ xs) up = ground (
  arith,
  insert_again-IsSorted a xs up.1,
  All-above-insert_again x a xs,
  up.0,
  up.1,
  All-above_trans a x xs,
)

sorted-IsSorted : (xs : List ℕ) → IsSorted (sorted xs)
unfolding sorted
sorted-IsSorted [] = tt
sorted-IsSorted (x ∷ xs) = insert_again-IsSorted x (sorted xs) (sorted-IsSorted xs)

-- the number reported is the number of instants in the window that starts at the reported one
unfoldable pub IsReached : ℕ → List ℕ → ℕ → Option ℕ → Type 0
IsReached window instants n none = instants ≡ []
IsReached window instants n (some start) = n ≡ calls_inside window start instants

abbrev pub IsPeak : ℕ → List ℕ → ℕ × Option ℕ → Type 0
IsPeak window instants found =
    ((t : ℕ) → calls_inside window t instants ≤ found.0) × IsReached window instants found.0 found.1

All-below-nil : (ms : List ℕ) → All (λ m. All (λ y. y ≤ m) []) ms
All-below-nil [] = tt
All-below-nil (m ∷ ms) = (tt, All-below-nil ms)

start-Inv : (window x : ℕ) → Inv window [] (record { held = []; best = 0; best_at = x })
unfolding calls_inside keep
start-Inv window x = record {
  ascending = tt;
  last = 0;
  held_near = refl;
  last_below = λ m h. omega (arith);
  bound = λ t. omega (arith);
  reached = omega (arith);
}

busiest-IsPeak : (window : ℕ) (xs : List ℕ) → IsSorted xs → IsPeak window xs (busiest window xs)
unfolding busiest IsReached calls_inside keep
busiest-IsPeak window [] up = (λ t. omega (arith), refl)
busiest-IsPeak window (x ∷ xs) up =
    let inv =
      advance_all-Inv window (x ∷ xs) [] (record { held = []; best = 0; best_at = x })
        (start-Inv window x) up (All-below-nil (x ∷ xs)) in
    let w = advance_all window (x ∷ xs) (record { held = []; best = 0; best_at = x }) in
    (inv.bound, omega (arith, inv.bound w.best_at, inv.reached))

insert_again-not_nil : (a : ℕ) (xs : List ℕ) → ¬ insert_again a xs ≡ []
unfolding insert_again
insert_again-not_nil a [] h = ground (arith, h)
insert_again-not_nil a (x ∷ xs) h = ground (arith, h)

sorted-nil : (xs : List ℕ) → sorted xs ≡ [] → xs ≡ []
unfolding sorted
sorted-nil [] h = refl
sorted-nil (x ∷ xs) h = elim (insert_again-not_nil x (sorted xs) h) [ ]

IsReached-sorted :
    (window : ℕ) (xs : List ℕ) (n : ℕ) (start : Option ℕ)
    → IsReached window (sorted xs) n start
    → IsReached window xs n start
unfolding IsReached
IsReached-sorted window xs n none h = sorted-nil xs h
IsReached-sorted window xs n (some t) h = h ∙ sorted-calls window t xs

-- No window of the given length holds more of the instants than the number reported; when there
-- are instants, that is the number the window from the reported start holds, and no start is
-- reported only when there are none.
pub busiest_window-IsPeak :
    (window : ℕ) (instants : List ℕ) → IsPeak window instants (busiest_window instants window)
unfolding busiest_window
busiest_window-IsPeak window instants =
    let top = busiest-IsPeak window (sorted instants) (sorted-IsSorted instants) in
    (
      λ t.
          subst (λ n. n ≤ (busiest window (sorted instants)).0) (sorted-calls window t instants)
            (top.0 t),
      IsReached-sorted window instants (busiest window (sorted instants)).0
          (busiest window (sorted instants)).1 top.1,
    )
