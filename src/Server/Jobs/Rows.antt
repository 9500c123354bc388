-- ===== src/Server/Jobs/Rows.antt =====
-- The rows of the table runs (apiverity/server/store.py), by their ids and their counts.
use api_verity_lab.Common.{
  ℕ, ◌+◌, ◌≤◌, ◌<◌, Bool, true, some, List, [], ◌∷◌, ◌++◌, ◌==◌, ◌≡◌, sym, ap, ◌∙◌, subst, arith,
  nat_ord, ==_iff, keep, length, length-append, All, All-snoc, if◌then◌else◌, Bool-cases, inl, inr,
}
use api_verity_lab.Server.Rows.{first_where, update_where, keep-snoc}
use api_verity_lab.Server.Runs.{Run}

abbrev pub AllDistinct : List Run → Type 0
AllDistinct [] = Unit
AllDistinct (r ∷ rows) = All (λ q. ¬ r.id ≡ q.id) rows × AllDistinct rows

-- how many rows pass a test
abbrev pub count : (Run → Bool) → List Run → ℕ
count test rows = length (keep test rows)

pub first_where-All {ℓ} :
    (P : Run → Type ℓ) (test : Run → Bool) (rows : List Run) (r : Run)
    → All P rows
    → first_where test rows ≡ some r
    → P r × (test r ≡ true)
unfolding first_where
first_where-All P test [] r h e = absurd (cc e)
first_where-All P test (x ∷ rows) r h e = elim (Bool-cases (test x)) [
  | inl t ↦ let same : x ≡ r = ground (arith, e, t) in (subst P same h.0, ap test (sym same) ∙ t)
  | inr t ↦ first_where-All P test rows r h.1 (ground (arith, e, t))
]

-- the row with the id of the one that a query finds passes the test of the query
pub first_where_unique :
    (test : Run → Bool) (rows : List Run) (r : Run)
    → AllDistinct rows
    → first_where test rows ≡ some r
    → All (λ q. (q.id == r.id) ≡ true → test q ≡ true) rows
unfolding first_where
first_where_unique test [] r h e = tt
first_where_unique test (x ∷ rows) r h e = elim (Bool-cases (test x)) [
  | inl t ↦
      let same : x ≡ r = ground (arith, e, t) in
      (λ _. t, others x rows (subst (λ y. All (λ q. ¬ y.id ≡ q.id) rows) same h.0))
  | inr t ↦
      let e' : first_where test rows ≡ some r = ground (arith, e, t) in
      (
        λ same. absurd (
            (first_where-All (λ q. ¬ x.id ≡ q.id) test rows r h.0 e').0
              ((==_iff x.id r.id).0 same)),
        first_where_unique test rows r h.1 e',
      )
]
  where
    others :
        (x : Run) (rows : List Run)
        → All (λ q. ¬ r.id ≡ q.id) rows
        → All (λ q. (q.id == r.id) ≡ true → test q ≡ true) rows
    others x [] h = tt
    others x (q ∷ rows) h =
        (λ same. absurd (h.0 (sym ((==_iff q.id r.id).0 same))), others x rows h.1)

pub update_where-count :
    (counted test : Run → Bool) (change : Run → Run) (rows : List Run)
    → All (λ q. test q ≡ true → counted (change q) ≡ true → counted q ≡ true) rows
    → count counted (update_where test change rows) ≤ count counted rows
unfolding update_where keep
update_where-count counted test change [] h = omega arith
update_where-count counted test change (q ∷ rows) h =
    ground (arith, h.0, update_where-count counted test change rows h.1)

module _ (test : Run → Bool) (change : Run → Run) (same_id : (r : Run) → (change r).id ≡ r.id) where
  update_where-All_ids :
      (k : ℕ) (rows : List Run)
      → All (λ q. ¬ k ≡ q.id) rows
      → All (λ q. ¬ k ≡ q.id) (update_where test change rows)
  unfolding update_where
  update_where-All_ids k [] h = tt
  update_where-All_ids k (q ∷ rows) h =
      (ground (arith, h.0, same_id q), update_where-All_ids k rows h.1)

  pub update_where-AllDistinct :
      (rows : List Run) → AllDistinct rows → AllDistinct (update_where test change rows)
  unfolding update_where
  update_where-AllDistinct [] h = tt
  update_where-AllDistinct (q ∷ rows) h = (
    subst (λ k. All (λ r. ¬ k ≡ r.id) (update_where test change rows)) (ground (arith, same_id q))
        (update_where-All_ids q.id rows h.0),
    update_where-AllDistinct rows h.1,
  )

  pub update_where-All_below :
      (k : ℕ) (rows : List Run)
      → All (λ q. q.id ≤ k) rows
      → All (λ q. q.id ≤ k) (update_where test change rows)
  unfolding update_where
  update_where-All_below k [] h = tt
  update_where-All_below k (q ∷ rows) h =
      (ground (arith, h.0, same_id q), update_where-All_below k rows h.1)

pub AllDistinct-snoc :
    (rows : List Run) (r : Run) (k : ℕ)
    → AllDistinct rows
    → All (λ q. q.id ≤ k) rows
    → k < r.id
    → AllDistinct (rows ++ r ∷ [])
AllDistinct-snoc [] r k h below lt = (tt, tt)
AllDistinct-snoc (q ∷ rows) r k h below lt = (
  All-snoc (λ p. ¬ q.id ≡ p.id) rows r h.0 (λ e. omega (arith, below.0, lt, e)),
  AllDistinct-snoc rows r k h.1 below.1 lt,
)

pub All_below-suc :
    (k : ℕ) (rows : List Run) → All (λ r. r.id ≤ k) rows → All (λ r. r.id ≤ k + 1) rows
All_below-suc k [] h = tt
All_below-suc k (r ∷ rows) h = (omega (arith, h.0), All_below-suc k rows h.1)

pub count-snoc :
    (test : Run → Bool) (rows : List Run) (r : Run)
    → count test (rows ++ r ∷ []) ≡ (if test r then count test rows + 1 else count test rows)
count-snoc test rows r =
    ground (arith, keep-snoc test rows r, length-append (keep test rows) (r ∷ []))
