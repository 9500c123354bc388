-- ===== src/Server/Freeze/Rows.antt =====
-- The rows of the table freezes (apiverity/server/store.py): no two have one id, and no two open ones
-- are of one organization.
use api_verity_lab.Common.{
  ℕ, ◌+◌, ◌≤◌, ◌<◌, ◌||◌, String, Bool, true, false, none, some, List, [], ◌∷◌, ◌++◌, ◌==◌, ◌≡◌,
  refl, sym, ap, ◌∙◌, arith, nat_ord, ==_iff, ==_refl, is_some, any, All, All-snoc, Option-cases,
  Bool-cases, ◌⊎◌, subst, inl, inr,
}
use api_verity_lab.Server.Rows.{last_where, update_where}
use api_verity_lab.Server.Freeze.{FreezeRow, is_open, close_row}

pub record Apart (r q : FreezeRow) : Type 0 where
  pub ids : ¬ r.id ≡ q.id
  pub orgs : r.lifted_at ≡ none → q.lifted_at ≡ none → ¬ r.org_id ≡ q.org_id

abbrev pub AllApart : List FreezeRow → Type 0
AllApart [] = Unit
AllApart (r ∷ rest) = All (Apart r) rest × AllApart rest

pub is_some-last_where {ℓ} :
    {A : Type ℓ} (test : A → Bool) (xs : List A) → is_some (last_where test xs) ≡ any test xs
unfolding last_where any
is_some-last_where test [] = refl
is_some-last_where test (x ∷ xs) = ground (arith, is_some-last_where test xs)

last_where-All {ℓ κ} :
    {A : Type ℓ} (P : A → Type κ) (test : A → Bool) (xs : List A) (x : A)
    → All P xs
    → last_where test xs ≡ some x
    → P x × (test x ≡ true)
unfolding last_where
last_where-All P test [] x h e = absurd (cc e)
last_where-All P test (y ∷ xs) x h e = elim (Option-cases (last_where test xs)) [
  | inl e2 ↦ elim (Bool-cases (test y)) [
    | inl t ↦
        let same : y ≡ x = ground (arith, e, e2, t) in (subst P same h.0, ap test (sym same) ∙ t)
    | inr t ↦ absurd (ground (arith, e, e2, t))
  ]
  | inr (z, e2) ↦ last_where-All P test xs x h.1 (ground (arith, e, e2))
]

-- the last row of a list is in the list, or in the rest of it
last_where-cons {ℓ} :
    {A : Type ℓ} (test : A → Bool) (x y : A) (xs : List A)
    → last_where test (y ∷ xs) ≡ some x
    → (last_where test xs ≡ some x) ⊎ ((last_where test xs ≡ none) × (x ≡ y) × (test y ≡ true))
unfolding last_where
last_where-cons test x y xs e = elim (Option-cases (last_where test xs)) [
  | inl e2 ↦ inr (ground (arith, e, e2))
  | inr (z, e2) ↦ inl (ground (arith, e, e2))
]

update_where-same :
    (k : ℕ) (change : FreezeRow → FreezeRow) (rows : List FreezeRow)
    → All (λ r. ¬ k ≡ r.id) rows
    → update_where (λ r. r.id == k) change rows ≡ rows
unfolding update_where
update_where-same k change [] h = refl
update_where-same k change (r ∷ rows) h =
    ground (arith, ==_iff r.id k, update_where-same k change rows h.1, h.0)

All-ids :
    (r : FreezeRow) (rows : List FreezeRow) → All (Apart r) rows → All (λ q. ¬ r.id ≡ q.id) rows
All-ids r [] h = tt
All-ids r (q ∷ rows) h = (h.0.ids, All-ids r rows h.1)

module _ (now actor reason : String) where
  abbrev pub closed : FreezeRow → List FreezeRow → List FreezeRow
  closed row rows = update_where (λ r. r.id == row.id) (close_row now actor reason) rows

  -- the first row is the one that is closed
  closed_first :
      (r : FreezeRow) (rows : List FreezeRow)
      → AllApart (r ∷ rows)
      → closed r (r ∷ rows) ≡ close_row now actor reason r ∷ rows
  unfolding update_where
  closed_first r rows h =
      rw (==_refl r.id)
        (rw (update_where-same r.id (close_row now actor reason) rows (All-ids r rows h.0)) refl)

  -- the first row is not the one that is closed
  closed_rest :
      (row r : FreezeRow) (rows : List FreezeRow)
      → ¬ r.id ≡ row.id
      → closed row (r ∷ rows) ≡ r ∷ closed row rows
  unfolding update_where
  closed_rest row r rows h = ground (arith, h, ==_iff r.id row.id)

module _ (now actor reason : String) (org_id : ℕ) where
  pub close-any_self :
      (row : FreezeRow) (rows : List FreezeRow)
      → AllApart rows
      → last_where (is_open org_id) rows ≡ some row
      → any (is_open org_id) (closed now actor reason row rows) ≡ false
  unfolding any
  close-any_self row [] h e = absurd (unfold last_where in cc)
  close-any_self row (r ∷ rows) h e = elim (last_where-cons (is_open org_id) row r rows e) [
    | inl e2 ↦
        let (apart, open_row) = last_where-All (Apart r) (is_open org_id) rows row h.0 e2 in
        let ih = close-any_self row rows h.1 e2 in
        rw (closed_rest now actor reason row r rows apart.ids) (
          ground
            (arith, ih, open_row, apart.orgs, ==_iff r.org_id org_id, ==_iff row.org_id org_id))
    | inr (e2, same, t) ↦
        subst (λ x. any (is_open org_id) (closed now actor reason x (r ∷ rows)) ≡ false) (sym same)
          (rw (closed_first now actor reason r rows h)
            (ground (arith, e2, is_some-last_where (is_open org_id) rows)))
  ]

  pub close-any_other :
      (org' : ℕ) (row : FreezeRow) (rows : List FreezeRow)
      → ¬ org' ≡ org_id
      → AllApart rows
      → last_where (is_open org_id) rows ≡ some row
      → any (is_open org') (closed now actor reason row rows) ≡ any (is_open org') rows
  unfolding any
  close-any_other org' row [] other h e = absurd (unfold last_where in cc)
  close-any_other org' row (r ∷ rows) other h e =
      elim (last_where-cons (is_open org_id) row r rows e) [
        | inl e2 ↦
            let (apart, open_row) = last_where-All (Apart r) (is_open org_id) rows row h.0 e2 in
            let ih = close-any_other org' row rows other h.1 e2 in
            rw (closed_rest now actor reason row r rows apart.ids) (ground (arith, ih))
        | inr (e2, same, t) ↦
            subst
              (λ x.
                any (is_open org') (closed now actor reason x (r ∷ rows))
                ≡ any (is_open org') (r ∷ rows))
              (sym same)
              (rw (closed_first now actor reason r rows h)
                (ground (arith, other, t, ==_iff r.org_id org_id, ==_iff r.org_id org')))
      ]

  Apart-closed :
      (r row : FreezeRow) (rows : List FreezeRow)
      → All (Apart r) rows
      → All (Apart r) (closed now actor reason row rows)
  unfolding update_where
  Apart-closed r row [] h = tt
  Apart-closed r row (q ∷ rows) h = (ground (arith, h.0.ids, h.0.orgs), Apart-closed r row rows h.1)

  close-Apart :
      (r : FreezeRow) (rows : List FreezeRow)
      → All (Apart r) rows
      → All (Apart (close_row now actor reason r)) rows
  close-Apart r [] h = tt
  close-Apart r (q ∷ rows) h =
      (record { ids = h.0.ids; orgs = λ e. absurd (ground (arith, e)) }, close-Apart r rows h.1)

  pub closed-AllApart :
      (row : FreezeRow) (rows : List FreezeRow)
      → AllApart rows
      → AllApart (closed now actor reason row rows)
  unfolding update_where
  closed-AllApart row [] h = tt
  closed-AllApart row (r ∷ rows) h = (
    elim (Bool-cases (r.id == row.id)) [
      | inl e ↦
          rw e (close-Apart r (closed now actor reason row rows) (Apart-closed r row rows h.0))
      | inr e ↦ rw e (Apart-closed r row rows h.0)
    ],
    closed-AllApart row rows h.1,
  )

  pub closed-All_below :
      (k : ℕ) (row : FreezeRow) (rows : List FreezeRow)
      → All (λ r. r.id ≤ k) rows
      → All (λ r. r.id ≤ k) (closed now actor reason row rows)
  unfolding update_where
  closed-All_below k row [] h = tt
  closed-All_below k row (r ∷ rows) h = (ground (arith, h.0), closed-All_below k row rows h.1)

-- a row that is added at the end, with a greater id, where the organization has no open row
pub AllApart-snoc :
    (rows : List FreezeRow) (r : FreezeRow) (k : ℕ)
    → AllApart rows
    → All (λ q. q.id ≤ k) rows
    → k < r.id
    → any (is_open r.org_id) rows ≡ false
    → AllApart (rows ++ r ∷ [])
unfolding any
AllApart-snoc [] r k h below lt none_open = (tt, tt)
AllApart-snoc (q ∷ rows) r k h below lt none_open = (
  All-snoc (Apart q) rows r h.0 (record {
    ids = λ e. omega (arith, below.0, lt, e);
    orgs = λ p _ e. ground (arith, none_open, p, e, ==_iff q.org_id r.org_id);
  }),
  AllApart-snoc rows r k h.1 below.1 lt (ground (arith, none_open)),
)

pub any-snoc {ℓ} :
    {A : Type ℓ} (test : A → Bool) (xs : List A) (x : A)
    → any test (xs ++ x ∷ []) ≡ (any test xs || test x)
unfolding any
any-snoc test [] x = ground arith
any-snoc test (y ∷ xs) x = ground (arith, any-snoc test xs x)

pub All_below-suc :
    (k : ℕ) (rows : List FreezeRow) → All (λ r. r.id ≤ k) rows → All (λ r. r.id ≤ k + 1) rows
All_below-suc k [] h = tt
All_below-suc k (r ∷ rows) h = (omega (arith, h.0), All_below-suc k rows h.1)
