-- ===== src/Rules/Budget.antt =====
-- `busiest_window` of apiverity/rules/budget.py. An instant and a length of time are numbers of
-- microseconds. All instants here have a zone or none has; `evaluate` raises where they are mixed.
pub mod Ascending
pub mod Pointers
pub mod Peak
pub mod Observed
pub mod Evaluate
use api_verity_lab.Common.{
  ℕ, ◌-◌, Bool, Option, none, some, List, [], ◌∷◌, ◌++◌, ltb, nat_ord, sorted, length,
  if◌then◌else◌,
}

-- The loop's `start`, `best` and `best_at`: for `start`, the instants from there to `end`.
pub record Window : Type 0 where
  pub held : List ℕ
  pub best : ℕ
  pub best_at : ℕ

-- while moment - ordered[start] > window: start += 1
unfoldable pub drop_old : ℕ → ℕ → List ℕ → List ℕ
drop_old window moment [] = []
drop_old window moment (x ∷ xs) =
    let rest = drop_old window moment xs in if ltb window (moment - x) then rest else x ∷ xs

-- ordered[start]
abbrev first_of : List ℕ → ℕ → ℕ
first_of [] moment = moment
first_of (x ∷ xs) moment = x

-- the body of the loop
unfoldable pub advance : ℕ → ℕ → Window → Window
advance window moment w =
    let held = drop_old window moment (w.held ++ moment ∷ []) in
    if ltb w.best (length held)
    then record { held = held; best = length held; best_at = first_of held moment }
    else record { held = held; best = w.best; best_at = w.best_at }

unfoldable pub advance_all : ℕ → List ℕ → Window → Window
advance_all window [] w = w
advance_all window (moment ∷ rest) w = advance_all window rest (advance window moment w)

unfoldable pub busiest : ℕ → List ℕ → ℕ × Option ℕ
busiest window [] = (0, none)
busiest window (x ∷ xs) =
    let w = advance_all window (x ∷ xs) (record { held = []; best = 0; best_at = x }) in
    (w.best, some w.best_at)

unfoldable pub busiest_window : List ℕ → ℕ → ℕ × Option ℕ
unfolding busiest
busiest_window instants window = busiest window (sorted instants)
